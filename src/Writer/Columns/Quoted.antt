-- ===== src/Writer/Columns/Quoted.antt =====
-- `write_quoted` of src/ciffile.c, and the column it records, for text in the Basic Multilingual
-- Plane, so that the count of `u_fprintf` is that of the code units. `length` is the text's.
use cif_api.Base.{
  ℕ, ◌+◌, ◌≤◌, true, false, [], ◌∷◌, ◌++◌, ltb, ◌==◌, if◌then◌else◌, UString, length, line_length,
  length-append, ◌≡◌, refl, arith, Bool-cases, inl, inr,
}
use cif_api.Chars.{nl}
use cif_api.Writer.Columns.{
  Context, write_newline, print, is_one_line, IsAligned, write_newline-IsAligned, print-IsAligned,
}

-- `write_quoted`
unfoldable pub write_quoted : UString → ℕ → Context → Context
write_quoted text delimiter c =
    let start = if ltb line_length (c.last_column + length text + 2) then write_newline c else c in
    print start start.last_column (delimiter ∷ (text ++ (delimiter ∷ [])))

is_one_line-append :
    (xs ys : UString)
    → is_one_line xs ≡ true
    → is_one_line ys ≡ true
    → is_one_line (xs ++ ys) ≡ true
unfolding is_one_line
is_one_line-append [] ys h k = k
is_one_line-append (c ∷ cs) ys h k = ground (arith, is_one_line-append cs ys)

-- Where the delimiter is no line feed and a text of one line fits on a line with both delimiters,
-- `write_quoted` keeps the recorded column that of the output and within the line length.
pub write_quoted-IsAligned :
    (text : UString) (delimiter : ℕ) (c : Context)
    → IsAligned c
    → is_one_line text ≡ true
    → (delimiter == nl) ≡ false
    → length text + 2 ≤ line_length
    → IsAligned (write_quoted text delimiter c)
unfolding write_quoted is_one_line
write_quoted-IsAligned text q c a h d l =
    let last : is_one_line (q ∷ []) ≡ true = rw d refl in
    let whole : is_one_line (q ∷ (text ++ (q ∷ []))) ≡ true =
      rw d (is_one_line-append text (q ∷ []) h last) in
    let size = length-append text (q ∷ []) in
    elim (Bool-cases (ltb line_length (c.last_column + length text + 2))) [
      | inl over ↦ rw over (
          print-IsAligned (write_newline c) (q ∷ (text ++ (q ∷ []))) (write_newline-IsAligned c)
            whole (omega (arith, size)))
      | inr fits ↦
          rw fits (print-IsAligned c (q ∷ (text ++ (q ∷ []))) a whole (ground (arith, size)))
    ]
