-- ===== src/Writer/Columns.antt =====
-- The writer's current column in src/ciffile.c: `write_newline`, `write_literal` and the macro
-- `ENSURE_SPACED`. Writes to the output stream succeed.
pub mod Quoted
use cif_api.Base.{
  ℕ, zero, suc, ◌+◌, ◌-◌, ◌*◌, ◌≤◌, ◌<◌, Bool, true, false, not, ◌&&◌, ◌||◌, List, [], ◌∷◌, ◌++◌,
  ◌⊎◌, ltb, leb, ◌==◌, if◌then◌else◌, UString, length, line_length, length-append, ◌≡◌, refl, sym,
  ap, ◌∙◌, arith, Bool-cases, inl, inr,
}
use cif_api.Chars.{nl, sp}
use cif_api.Code.{Code, Result, ok, err, overlength_line, error}

-- `write_context_t`, as far as the column needs it, with the code units written to its file
pub record Context : Type 0 where
  pub output : UString
  pub last_column : ℕ

-- `write_newline`
abbrev pub write_newline : Context → Context
write_newline c = record { output = c.output ++ (nl ∷ []); last_column = 0 }

-- `u_fprintf` of the text, and `SET_LAST_COLUMN`
abbrev pub print : Context → ℕ → UString → Context
print c last_column text = record {
  output = c.output ++ text;
  last_column = if ltb 0 (length text) then last_column + length text else c.last_column;
}

-- `write_literal`; a negative result of the source is an error.
unfoldable pub write_literal : Bool → UString → Context → Context × Result ℕ
write_literal wrap text c =
    let broken = write_newline c in
    if length text == 0
    then (c, ok 0)
    else (if ltb line_length (length text + c.last_column)
        then (if wrap then (print broken 0 text, ok (length text)) else (c, err overlength_line))
        else (print c c.last_column text, ok (length text)))

-- A line feed where the space was refused as overlong, which is the only failure here.
abbrev pub or_newline : Context × Result ℕ → Context
or_newline (c, err code) = write_newline c
or_newline (c, ok n) = c

-- `ENSURE_SPACED`
unfoldable pub ensure_spaced : Context → Context
ensure_spaced c = if leb c.last_column 0 then c else or_newline (write_literal false (sp ∷ []) c)

-- The column behind a text that starts at the given column.
unfoldable pub column : ℕ → UString → ℕ
column n [] = n
column n (c ∷ cs) = if c == nl then column 0 cs else column (suc n) cs

unfoldable pub is_one_line : UString → Bool
is_one_line [] = true
is_one_line (c ∷ cs) = not (c == nl) && is_one_line cs

-- The column that the context records is that of its output, and no line is too long.
pub record IsAligned (c : Context) : Type 0 where
  pub recorded : c.last_column ≡ column 0 c.output
  pub bounded : c.last_column ≤ line_length

pub column-append : (n : ℕ) (xs ys : UString) → column n (xs ++ ys) ≡ column (column n xs) ys
unfolding column
column-append n [] ys = refl
column-append n (c ∷ cs) ys = elim (Bool-cases (c == nl)) [
  | inl b ↦ rw b (column-append 0 cs ys)
  | inr b ↦ rw b (column-append (suc n) cs ys)
]

pub column-one_line : (n : ℕ) (xs : UString) → is_one_line xs ≡ true → column n xs ≡ n + length xs
unfolding column is_one_line
column-one_line n [] h = omega arith
column-one_line n (c ∷ cs) h = ground (arith, column-one_line (suc n) cs)

pub write_newline-IsAligned : (c : Context) → IsAligned (write_newline c)
unfolding column
write_newline-IsAligned c = record {
  recorded = sym (column-append 0 c.output (nl ∷ []));
  bounded = omega arith;
}

pub print-IsAligned :
    (c : Context) (text : UString)
    → IsAligned c
    → is_one_line text ≡ true
    → length text + c.last_column ≤ line_length
    → IsAligned (print c c.last_column text)
print-IsAligned c text a h l =
    let joined = column-append 0 c.output text in
    let counted = column-one_line (column 0 c.output) text h in
    record {
      recorded = ground (arith, joined, counted, a.recorded);
      bounded = ground (arith, a.bounded);
    }

-- Writing text of one line that fits on a line keeps the recorded column that of the output, and
-- keeps it within the line length, whether the line is broken, or the text is refused as too long.
pub write_literal-IsAligned :
    (wrap : Bool) (text : UString) (c : Context)
    → IsAligned c
    → is_one_line text ≡ true
    → length text ≤ line_length
    → IsAligned ((write_literal wrap text c).0)
unfolding write_literal
write_literal-IsAligned wrap text c a h l = elim (Bool-cases (length text == 0)) [
  | inl b ↦ rw b a
  | inr b ↦ elim (Bool-cases (ltb line_length (length text + c.last_column))) [
    | inl over ↦ elim (Bool-cases wrap) [
      | inl w ↦
          rw (b, over, w)
            (print-IsAligned (write_newline c) text (write_newline-IsAligned c) h (omega arith))
      | inr w ↦ rw (b, over, w) a
    ]
    | inr fits ↦ rw (b, fits) (print-IsAligned c text a h (ground arith))
  ]
]

space-refused :
    (c : Context)
    → ltb line_length (1 + c.last_column) ≡ true
    → write_literal false (sp ∷ []) c ≡ (c, err overlength_line)
unfolding write_literal
space-refused c over = rw over refl

space-printed :
    (c : Context)
    → ltb line_length (1 + c.last_column) ≡ false
    → write_literal false (sp ∷ []) c ≡ (print c c.last_column (sp ∷ []), ok 1)
unfolding write_literal
space-printed c fits = rw fits refl

-- Where a value may follow: `ENSURE_SPACED` leaves the output at column 0 as it is, or adds a space
-- or a line feed; it keeps the recorded column that of the output and within the line length.
pub ensure_spaced-output :
    (c : Context)
    → IsAligned c
    → IsAligned (ensure_spaced c)
      × (((c.last_column ≡ 0) × (ensure_spaced c ≡ c))
          ⊎ ((ensure_spaced c).output ≡ c.output ++ (sp ∷ []))
          ⊎ ((ensure_spaced c).output ≡ c.output ++ (nl ∷ [])))
unfolding ensure_spaced is_one_line
ensure_spaced-output c a = elim (Bool-cases (leb c.last_column 0)) [
  | inl z ↦ let at_zero : c.last_column ≡ 0 = ground arith in rw z (a, inl (at_zero, refl))
  | inr b ↦ elim (Bool-cases (ltb line_length (1 + c.last_column))) [
    | inl over ↦ rw (b, space-refused c over) (write_newline-IsAligned c, inr (inr refl))
    | inr fits ↦
        let enough : length (sp ∷ []) + c.last_column ≤ line_length = ground arith in
        rw (b, space-printed c fits) (print-IsAligned c (sp ∷ []) a refl enough, inr (inl refl))
  ]
]
