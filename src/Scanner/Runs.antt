-- ===== src/Scanner/Runs.antt =====
-- The scans of src/parser.c that end at white space or at a line terminator: `scan_ws`,
-- `scan_to_ws`, `scan_to_eol` and `scan_unquoted`. Each is a recursion on the input behind `next_char`.
use cif_api.Base.{
  ℕ, zero, suc, ◌+◌, Bool, true, false, not, ◌&&◌, ◌||◌, none, some, [], ◌∷◌, ltb, ◌==◌,
  if◌then◌else◌, UString,
}
use cif_api.Code.{Result, err, missing_space, ◌>>=◌}
use cif_api.Scanner.Classes.{Class, Dialect, class_of, is_eol_class, is_ws_class}
use cif_api.Scanner.State.{
  Scanner, Callback, Metaclass, meta_class, no_meta, general_meta, ws_meta, open_meta, close_meta,
  metaclass_of, is_ws_meta, raise, handle_eol, advance, back_up, end_of_token, notify,
}
use cif_api.Scanner.Units.{scan_uchar, handle_unpaired_lead}

-- The loop over the buffer ends where `get_more_chars` has no more: at the end of the file, or with
-- an error of the input.
abbrev pub at_end {ℓ} : {A : Type ℓ} → Scanner → Result A → Result A
at_end s finish = elim s.input_error [ none ↦ finish | some code ↦ err code ]

-- The switch over the metaclass: general, open, close, white space, and no case.
abbrev pub meta_switch {ℓ} : {A : Type ℓ} → Metaclass → A → A → A → A → A → A
meta_switch general_meta general opening closing white other = general
meta_switch open_meta general opening closing white other = opening
meta_switch close_meta general opening closing white other = closing
meta_switch ws_meta general opening closing white other = white
meta_switch no_meta general opening closing white other = other

module _ (callback : Callback) (d : Dialect) where
  -- `scan_ws`
  unfoldable pub scan_ws : ℕ → UString → Scanner → Result (Scanner × UString)
  scan_ws sol [] s = at_end s (end_of_token 0 0 s [])
  scan_ws sol (c ∷ cs) s =
      let at_ws = scan_ws 0 cs (advance c (record s { column = s.column + 1 })) in
      let at_eol = handle_eol callback c sol s >>= λ (state, t). scan_ws state cs (advance c t) in
      if is_ws_class (class_of d c)
      then at_ws
      else if is_eol_class (class_of d c)
      then at_eol
      else end_of_token 0 0 s (c ∷ cs)

  -- `scan_to_ws`
  unfoldable pub scan_to_ws : Bool → UString → Scanner → Result (Scanner × UString)
  scan_to_ws lead [] s =
      at_end s (handle_unpaired_lead callback d lead s >>= λ t. end_of_token 0 0 t [])
  scan_to_ws lead (c ∷ cs) s = scan_uchar callback d c lead s >>= λ (c', lead', t).
      let rest = scan_to_ws lead' cs t in
      if is_ws_meta (metaclass_of d c') then end_of_token 0 0 (back_up t) (c' ∷ cs) else rest

  -- `scan_to_eol`
  unfoldable pub scan_to_eol : Bool → UString → Scanner → Result (Scanner × UString)
  scan_to_eol lead [] s =
      at_end s (handle_unpaired_lead callback d lead s >>= λ t. end_of_token 0 0 t [])
  scan_to_eol lead (c ∷ cs) s = scan_uchar callback d c lead s >>= λ (c', lead', t).
      let rest = scan_to_eol lead' cs t in
      if is_eol_class (class_of d c') then end_of_token 0 0 (back_up t) (c' ∷ cs) else rest

  -- `data_classes` and `save_classes`, at an offset
  abbrev is_data_class : ℕ → Class → Bool
  is_data_class zero Class.letter_d = true
  is_data_class (suc zero) Class.letter_a = true
  is_data_class (suc (suc zero)) Class.letter_t = true
  is_data_class (suc (suc (suc zero))) Class.letter_a = true
  is_data_class (suc (suc (suc (suc zero)))) Class.underscore = true
  is_data_class _ _ = false

  abbrev is_save_class : ℕ → Class → Bool
  is_save_class zero Class.letter_s = true
  is_save_class (suc zero) Class.letter_a = true
  is_save_class (suc (suc zero)) Class.letter_v = true
  is_save_class (suc (suc (suc zero))) Class.letter_e = true
  is_save_class (suc (suc (suc (suc zero)))) Class.underscore = true
  is_save_class _ _ = false

  -- `kw_len`
  abbrev kw_len : ℕ
  kw_len = 5

  -- `scan_unquoted`; `may_data` and `may_save` are the two bits of `kw_flags`.
  unfoldable pub scan_unquoted :
      ℕ → Bool → Bool → Bool → UString → Scanner → Result (Scanner × UString)
  scan_unquoted offset may_data may_save lead [] s =
      at_end s (handle_unpaired_lead callback d lead s >>= λ t. end_of_token 0 0 t [])
  scan_unquoted offset may_data may_save lead (c ∷ cs) s =
      scan_uchar callback d c lead s >>= λ (c', lead', t).
      let class = class_of d c' in
      let in_word = ltb offset kw_len in
      let same = scan_unquoted (offset + 1) may_data may_save lead' cs t in
      let compared =
        scan_unquoted (offset + 1) (may_data && is_data_class offset class)
          (may_save && is_save_class offset class) lead' cs t in
      let no_header = not (may_data || may_save) || in_word in
      let stop = end_of_token 0 0 (back_up t) (c' ∷ cs) in
      let spaced = raise callback missing_space t.column [] t >>= λ u.
      end_of_token 0 0 (back_up (notify [] u)) (c' ∷ cs) in
      meta_switch (meta_class class) (if in_word then compared else same)
        (if no_header then spaced else same) (if no_header then stop else same)
        (if c' == 0xffff then end_of_token 0 0 t cs else stop) same
