-- ===== src/Scanner/Tokens/Scans.antt =====
-- Every scan of src/parser.c moves its input into the token, from the front: none gets lost.
use cif_api.Base.{
  ℕ, suc, ◌+◌, ◌-◌, ◌≤◌, Bool, true, false, not, ◌&&◌, ◌||◌, [], ◌∷◌, ltb, leb, ◌==◌, UString,
  length, get_or, ◌≡◌, ◌⊎◌, inl, inr, refl, ◌∙◌, arith, Option-cases, line_length,
}
use cif_api.Code.{
  Code, Result, missing_space, missing_endquote, invalid_char, disallowed_char, unclosed_text,
  overlength_line, ◌>>=◌,
}
use cif_api.Scanner.Classes.{Dialect, class_of, is_eol_class, is_ws_class}
use cif_api.Scanner.State.{
  Scanner, Callback, metaclass_of, is_ws_meta, general_meta, raise, raise_if, handle_eol, advance,
  back_up, notify, end_of_token, behind, replace_last, fault,
}
use cif_api.Scanner.Units.{
  scan_uchar, scan_trail, scan_bmp, handle_unpaired_lead, replacement, surrogate_mask, is_bad_pair,
  is_disallowed,
}
use cif_api.Scanner.Runs.{scan_ws, scan_to_ws, scan_to_eol, scan_unquoted, at_end}
use cif_api.Scanner.Delimited.{
  scan_delim_string, after_delim, is_semicolon, scan_triple_delim_string, scan_text,
}
use cif_api.Scanner.Yields.{
  Yields, yields, stops, Yields-split, Yields->>=, Yields-at_end, Yields-meta_switch, Yields-passes,
  passes,
}

-- At most `n` code units are left, and exactly `m` with those of the token.
abbrev pub Within : ℕ → ℕ → Scanner × UString → Type 0
Within n m r = (length (r.1) ≤ n) × (length (r.0.back) + length (r.1) ≡ m)

pub widen :
    {k l m n : ℕ} {r : Result (Scanner × UString)}
    → k ≤ m
    → l ≡ n
    → Yields (Within k l) r
    → Yields (Within m n) r
widen h i (yields k) = yields (omega arith)
widen h i stops = stops

-- The scanner has `n` code units of the token.
abbrev pub Has : ℕ → Scanner → Type 0
Has n s = length s.back ≡ n

pub length-behind : (b : UString) → length (behind b) ≡ length b - 1
length-behind [] = omega arith
length-behind (c ∷ cs) = omega arith

length-replace_last : (c : ℕ) (b : UString) → length (replace_last c b) ≡ length b
length-replace_last c [] = refl
length-replace_last c (b ∷ bs) = refl

-- The end of a token that gives its last character back
back-Within :
    (o z c : ℕ) (t : Scanner) (cs : UString) (n : ℕ)
    → Has (suc n) t
    → Yields
        (Within (suc (length cs)) (n + suc (length cs)))
        (end_of_token o z (back_up t) (c ∷ cs))
back-Within o z c t cs n h = yields (omega (arith, length-behind t.back))

module _ (callback : Callback) (d : Dialect) where
  pub raise-Has :
      (code : Code) (column : ℕ) (text : UString) (s : Scanner)
      → Yields (Has (length s.back)) (raise callback code column text s)
  raise-Has code column text s =
      elim (Option-cases (callback (fault code s.line column text ∷ s.reports))) [
        | inl e ↦ rw (e, raise) (yields refl)
        | inr (stop, e) ↦ rw (e, raise) stops
      ]

  raise_if-Has :
      (b : Bool) (code : Code) (text : UString) (s : Scanner)
      → Yields (Has (length s.back)) (raise_if callback b code text s)
  raise_if-Has b code text s =
      Yields-split b (λ _. raise-Has code s.column text s) (λ _. yields refl)

  pub handle_eol-Has :
      (c sol : ℕ) (s : Scanner)
      → Yields (λ r. Has (length s.back) (r.1)) (handle_eol callback c sol s)
  unfolding handle_eol
  handle_eol-Has c sol s =
      Yields->>= (raise_if-Has (ltb line_length s.column) overlength_line [] s) λ t h. yields h

  pub unpaired-Has :
      (lead : Bool) (s : Scanner)
      → Yields (Has (length s.back)) (handle_unpaired_lead callback d lead s)
  unfolding handle_unpaired_lead
  unpaired-Has lead s =
      Yields-split lead
        (λ _.
          Yields->>= (raise-Has invalid_char s.column (get_or s.back 0 0 ∷ []) s)
            λ t h. yields (omega (arith, length-replace_last (replacement d) t.back)))
        (λ _. yields refl)

  -- The code unit that is scanned is the one of the input, or replaces it; the token has one more.
  abbrev pub Scanned : ℕ → ℕ → ℕ × Bool × Scanner → Type 0
  Scanned c n r = ((r.0 ≡ c) ⊎ (r.0 ≡ replacement d)) × Has n (r.2)

  scan_uchar-Scanned :
      (c : ℕ) (lead : Bool) (s : Scanner)
      → Yields (Scanned c (suc (length s.back))) (scan_uchar callback d c lead s)
  unfolding scan_uchar scan_trail scan_bmp
  scan_uchar-Scanned c lead s =
      let last = get_or s.back 0 0 in
      let t = record s { column = s.column + 1 } in
      Yields-split (surrogate_mask c == 0xdc00)
        (λ _.
          Yields-split lead
            (λ _.
              Yields->>= (raise_if-Has (is_bad_pair last c) disallowed_char (last ∷ c ∷ []) t)
                λ u h. yields (inl refl, omega arith))
            (λ _.
              Yields->>= (raise-Has invalid_char t.column (c ∷ []) t)
                λ u h. yields (inr refl, omega arith)))
        (λ _. Yields->>= (raise_if-Has (is_disallowed d c) disallowed_char (c ∷ []) t) λ u h.
          Yields->>= (raise_if-Has (ltb d.cif_version 2 && ltb 0x7e c) disallowed_char (c ∷ []) u)
            λ v k. Yields->>= (unpaired-Has lead v) λ w l. yields (inl refl, omega arith))

  -- The end of the input, after an unpaired surrogate
  eof-Within :
      (lead : Bool) (s : Scanner)
      → Yields
          (Within 0 (length s.back))
          (at_end s (handle_unpaired_lead callback d lead s >>= λ t. end_of_token 0 0 t []))
  eof-Within lead s = Yields-at_end s (Yields->>= (unpaired-Has lead s) λ t h. yields (omega arith))

  -- The same, with the error that the token has no end
  open-Within :
      (code : Code) (o : ℕ) (lead : Bool) (s : Scanner)
      → Yields (Within 0 (length s.back)) (
          at_end s (
            handle_unpaired_lead callback d lead s >>= λ t.
            raise callback code t.column [] t >>= λ u. end_of_token o 0 u []))
  open-Within code o lead s = Yields-at_end s (
      Yields->>= (unpaired-Has lead s)
        λ t h. Yields->>= (raise-Has code t.column [] t) λ u k. yields (omega arith))

  pub scan_ws-Within :
      (sol : ℕ) (cs : UString) (s : Scanner)
      → Yields (Within (length cs) (length s.back + length cs)) (scan_ws callback d sol cs s)
  unfolding scan_ws
  scan_ws-Within sol [] s = Yields-at_end s (yields (omega arith))
  scan_ws-Within sol (c ∷ cs) s =
      Yields-split (is_ws_class (class_of d c))
        (λ _.
          widen (omega arith) (omega arith)
            (scan_ws-Within 0 cs (advance c (record s { column = s.column + 1 }))))
        λ _.
          Yields-split (is_eol_class (class_of d c))
            (λ _. Yields->>= (handle_eol-Has c sol s) λ (state, t) h.
              widen (omega arith) (omega arith) (scan_ws-Within state cs (advance c t)))
            (λ _. yields (omega arith))

  pub scan_to_ws-Within :
      (lead : Bool) (cs : UString) (s : Scanner)
      → Yields (Within (length cs) (length s.back + length cs)) (scan_to_ws callback d lead cs s)
  unfolding scan_to_ws
  scan_to_ws-Within lead [] s = widen (omega arith) (omega arith) (eof-Within lead s)
  scan_to_ws-Within lead (c ∷ cs) s =
      Yields->>= (scan_uchar-Scanned c lead s) λ (c', lead', t) (_, h).
        Yields-split (is_ws_meta (metaclass_of d c'))
          (λ _. back-Within 0 0 c' t cs (length s.back) h)
          (λ _. widen (omega arith) (omega arith) (scan_to_ws-Within lead' cs t))

  pub scan_to_eol-Within :
      (lead : Bool) (cs : UString) (s : Scanner)
      → Yields (Within (length cs) (length s.back + length cs)) (scan_to_eol callback d lead cs s)
  unfolding scan_to_eol
  scan_to_eol-Within lead [] s = widen (omega arith) (omega arith) (eof-Within lead s)
  scan_to_eol-Within lead (c ∷ cs) s =
      Yields->>= (scan_uchar-Scanned c lead s) λ (c', lead', t) (_, h).
        Yields-split (is_eol_class (class_of d c')) (λ _. back-Within 0 0 c' t cs (length s.back) h)
          (λ _. widen (omega arith) (omega arith) (scan_to_eol-Within lead' cs t))

  spaced-Within :
      (c : ℕ) (cs : UString) (t : Scanner) (n : ℕ)
      → Has (suc n) t
      → Yields (Within (suc (length cs)) (n + suc (length cs))) (
          raise callback missing_space t.column [] t >>= λ u.
          end_of_token 0 0 (back_up (notify [] u)) (c ∷ cs))
  spaced-Within c cs t n h =
      Yields->>= (raise-Has missing_space t.column [] t)
        λ u k. back-Within 0 0 c (notify [] u) cs n (k ∙ h)

  pub scan_unquoted-Within :
      (n : ℕ) (p q lead : Bool) (cs : UString) (s : Scanner)
      → Yields
          (Within (length cs) (length s.back + length cs))
          (scan_unquoted callback d n p q lead cs s)
  unfolding scan_unquoted
  scan_unquoted-Within n p q lead [] s = widen (omega arith) (omega arith) (eof-Within lead s)
  scan_unquoted-Within n p q lead (c ∷ cs) s =
      Yields->>= (scan_uchar-Scanned c lead s) λ (c', lead', t) (_, h).
        let stop = back-Within 0 0 c' t cs (length s.back) h in
        let no_header = not (p || q) || ltb n 5 in
        Yields-meta_switch (metaclass_of d c')
          (Yields-split (ltb n 5)
            (λ _. widen (omega arith) (omega arith) (scan_unquoted-Within (n + 1) _ _ lead' cs t))
            (λ _. widen (omega arith) (omega arith) (scan_unquoted-Within (n + 1) _ _ lead' cs t)))
          (Yields-split no_header (λ _. spaced-Within c' cs t (length s.back) h)
            (λ _. widen (omega arith) (omega arith) (scan_unquoted-Within (n + 1) _ _ lead' cs t)))
          (Yields-split no_header (λ _. stop)
            (λ _. widen (omega arith) (omega arith) (scan_unquoted-Within (n + 1) _ _ lead' cs t)))
          (Yields-split (c' == 0xffff) (λ _. yields (omega arith)) (λ _. stop))
          (widen (omega arith) (omega arith) (scan_unquoted-Within (n + 1) _ _ lead' cs t))

  scan_triple-Within :
      (q n : ℕ) (lead : Bool) (sol : ℕ) (cs : UString) (s : Scanner)
      → Yields
          (Within (length cs) (length s.back + length cs))
          (scan_triple_delim_string callback d q n lead sol cs s)
  unfolding scan_triple_delim_string
  scan_triple-Within q n lead sol [] s =
      widen (omega arith) (omega arith) (open-Within unclosed_text 3 lead s)
  scan_triple-Within q n lead sol (c ∷ cs) s =
      Yields->>= (scan_uchar-Scanned c lead s) λ (c', lead', t) (_, h).
        Yields-split (c' == q)
          (λ _.
            Yields-split (leb 3 (n + 1)) (λ _. yields (omega arith))
              (λ _.
                widen (omega arith) (omega arith) (scan_triple-Within q (n + 1) lead' sol cs t)))
          (λ _.
            Yields-split (is_eol_class (class_of d c'))
              (λ _. Yields->>= (handle_eol-Has c' sol t) λ (sol', u) k.
                widen (omega arith) (omega arith) (scan_triple-Within q 0 lead' sol' cs u))
              (λ _. widen (omega arith) (omega arith) (scan_triple-Within q 0 lead' 0 cs t)))

  after_delim-Within :
      (q : ℕ) (cs : UString) (s : Scanner) {more closed : Result (Scanner × UString)}
      → Yields (Within (length cs) (length s.back + length cs)) more
      → Yields (Within (length cs) (length s.back + length cs)) closed
      → Yields
          (Within (length cs) (length s.back + length cs))
          (after_delim callback d q more closed s cs)
  unfolding after_delim
  after_delim-Within q [] s m k = Yields-at_end s k
  after_delim-Within q (c ∷ cs) s m k =
      Yields-split (ltb d.cif_version 2)
        (λ _. Yields-split (is_ws_meta (metaclass_of d c)) (λ _. k) (λ _. m))
        (λ _.
          Yields-split (length s.back == 2 && c == q)
            (λ _.
              widen (omega arith) (omega arith) (scan_triple-Within q 0 false 0 cs (advance c s)))
            (λ _. k))

  pub scan_delim_string-Within :
      (q : ℕ) (lead : Bool) (cs : UString) (s : Scanner)
      → Yields
          (Within (length cs) (length s.back + length cs))
          (scan_delim_string callback d q lead cs s)
  unfolding scan_delim_string
  scan_delim_string-Within q lead [] s =
      widen (omega arith) (omega arith) (open-Within missing_endquote 1 lead s)
  scan_delim_string-Within q lead (c ∷ cs) s =
      Yields->>= (scan_uchar-Scanned c lead s) λ (c', lead', t) (_, h).
        Yields-split (c' == q)
          (λ _. widen (omega arith) (omega arith) (
            after_delim-Within q cs t (scan_delim_string-Within q lead' cs t)
              (yields (omega arith))))
          (λ _.
            Yields-split (is_eol_class (class_of d c'))
              (λ _.
                Yields->>= (raise-Has missing_endquote (back_up t).column [] (back_up t))
                  λ u k. yields (omega (arith, length-behind t.back)))
              (λ _. widen (omega arith) (omega arith) (scan_delim_string-Within q lead' cs t)))

  pub scan_text-Within :
      (lead : Bool) (sol : ℕ) (cs : UString) (s : Scanner)
      → Yields (Within (length cs) (length s.back + length cs)) (scan_text callback d lead sol cs s)
  unfolding scan_text
  scan_text-Within lead sol [] s =
      widen (omega arith) (omega arith) (open-Within unclosed_text 1 lead s)
  scan_text-Within lead sol (c ∷ cs) s =
      Yields->>= (scan_uchar-Scanned c lead s) λ (c', lead', t) (_, h).
        Yields-split (is_semicolon (class_of d c'))
          (λ _.
            Yields-split (sol == 0)
              (λ _. widen (omega arith) (omega arith) (scan_text-Within lead' sol cs t))
              (λ _. yields (omega arith)))
          (λ _.
            Yields-split (is_eol_class (class_of d c'))
              (λ _.
                Yields->>= (handle_eol-Has c' sol t) λ (sol', u) k.
                  widen (omega arith) (omega arith) (scan_text-Within lead' sol' cs u))
              (λ _. widen (omega arith) (omega arith) (scan_text-Within lead' 0 cs t)))

  -- A value without delimiters has at least its first character.
  pub scan_unquoted-first :
      (c : ℕ) (cs : UString) (s : Scanner)
      → metaclass_of d (replacement d) ≡ general_meta
      → passes (metaclass_of d c) ≡ true
      → Yields
          (Within (length cs) (length s.back + suc (length cs)))
          (scan_unquoted callback d 0 true true false (c ∷ cs) s)
  unfolding scan_unquoted
  scan_unquoted-first c cs s free first =
      Yields->>= (scan_uchar-Scanned c false s) λ (c', lead', t) (same, h).
        let through : passes (metaclass_of d c') ≡ true = elim same [
          | inl e ↦ rw e first
          | inr e ↦ rw (e, free) refl
        ] in
        Yields-passes (metaclass_of d c') _ _ _ through
          (widen (omega arith) (omega arith) (scan_unquoted-Within 1 _ _ lead' cs t))
          (widen (omega arith) (omega arith) (scan_unquoted-Within (0 + 1) _ _ lead' cs t))
