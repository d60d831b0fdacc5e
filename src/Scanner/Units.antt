-- ===== src/Scanner/Units.antt =====
-- `SCAN_UCHAR` and `HANDLE_UNPAIRED_LEAD` of src/parser.c: the checks on each code unit.
use cif_api.Base.{
  ℕ, ◌+◌, ◌-◌, ◌/◌, ◌%◌, Bool, true, false, ◌&&◌, ◌||◌, [], ◌∷◌, ltb, leb, ◌==◌, if◌then◌else◌,
  get_or,
}
use cif_api.Code.{Result, ok, invalid_char, disallowed_char, ◌>>=◌}
use cif_api.Scanner.Classes.{Class, Dialect, class_of, char_table_max}
use cif_api.Scanner.State.{Scanner, Callback, raise, raise_if, replace_last, advance}

-- `REPL_CHAR` and `REPL1_CHAR`
abbrev pub replacement : Dialect → ℕ
replacement d = if leb 2 d.cif_version then 0xfffd else 0x2a

-- `c & 0xfc00` of a code unit
abbrev pub surrogate_mask : ℕ → ℕ
surrogate_mask c = c - c % 0x400

abbrev pub is_no_class : Class → Bool
is_no_class Class.no_class = true
is_no_class _ = false

-- The pair encodes one of the last two code points of a plane.
abbrev pub is_bad_pair : ℕ → ℕ → Bool
is_bad_pair lead c = c - c % 2 == 0xdffe && lead / 0x400 == 0x36 && lead % 0x40 == 0x3f

-- "disallowed BMP character"
abbrev pub is_disallowed : Dialect → ℕ → Bool
is_disallowed d c =
    if ltb c char_table_max
    then is_no_class (class_of d c)
    else (c - c % 2 == 0xfffe || c == 0xfeff || leb 0xfdd0 c && leb c 0xfdef)

module _ (callback : Callback) (d : Dialect) where
  -- `HANDLE_UNPAIRED_LEAD`
  unfoldable pub handle_unpaired_lead : Bool → Scanner → Result Scanner
  handle_unpaired_lead lead s =
      if lead
      then (raise callback invalid_char s.column (get_or s.back 0 0 ∷ []) s >>= λ t.
          ok (record t { back = replace_last (replacement d) t.back }))
      else ok s

  -- A trail surrogate; a pair counts as one column.
  unfoldable pub scan_trail : ℕ → Bool → Scanner → Result (ℕ × Bool × Scanner)
  scan_trail c lead s =
      let last = get_or s.back 0 0 in
      if lead
      then (raise_if callback (is_bad_pair last c) disallowed_char (last ∷ c ∷ []) s >>= λ t.
          ok (c, false, advance c (record t { column = t.column - 1 })))
      else (raise callback invalid_char s.column (c ∷ []) s >>= λ t.
          ok (replacement d, false, advance (replacement d) t))

  unfoldable pub scan_bmp : ℕ → Bool → Scanner → Result (ℕ × Bool × Scanner)
  unfolding handle_unpaired_lead
  scan_bmp c lead s = do
    t ← raise_if callback (is_disallowed d c) disallowed_char (c ∷ []) s
    u ← raise_if callback (ltb d.cif_version 2 && ltb 0x7e c) disallowed_char (c ∷ []) t
    v ← handle_unpaired_lead lead u
    ok (c, surrogate_mask c == 0xd800, advance c v)

  -- `SCAN_UCHAR`: the code unit as it stands in the buffer afterwards, and whether it is a lead
  unfoldable pub scan_uchar : ℕ → Bool → Scanner → Result (ℕ × Bool × Scanner)
  unfolding scan_trail scan_bmp
  scan_uchar c lead s =
      let t = record s { column = s.column + 1 } in
      if surrogate_mask c == 0xdc00 then scan_trail c lead t else scan_bmp c lead t
