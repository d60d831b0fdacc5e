-- ===== src/Scanner/Keywords/Agreement.antt =====
-- The words that the scanner of src/parser.c sets apart are those that `cif_is_reserved_string` of
-- src/utils.c keeps the writer from leaving without delimiters.
use cif_api.Base.{
  ℕ, ◌<◌, Bool, true, false, not, ◌&&◌, [], ◌∷◌, ltb, ◌==◌, if◌then◌else◌, UString, length, All,
  ◌≡◌, refl, arith, Bool-cases, inl, inr,
}
use cif_api.Scanner.Classes.{Dialect}
use cif_api.Scanner.Classes.Letters.{
  underscore_test, letter_a-test, letter_b-test, letter_d-test, letter_e-test, letter_g-test,
  letter_l-test, letter_o-test, letter_p-test, letter_s-test, letter_t-test, letter_v-test,
}
use cif_api.Reserved.{is_letter, at, is_reserved_start, is_reserved_string}
use cif_api.Scanner.Keywords.{
  Word, plain, data_header, save_header, save_end, loop_keyword, reserved, word_of, short_word,
  is_global_word,
}

abbrev pub is_plain : Word → Bool
is_plain plain = true
is_plain _ = false

-- The word of a token by its letters
letter_word : UString → Word
letter_word s =
    let five = length s == 5 in
    if ltb 4 (length s) && at s 4 == b'_'
    then (if is_letter b'D' b'd' (at s 0)
          && is_letter b'A' b'a' (at s 1)
          && is_letter b'T' b't' (at s 2)
          && is_letter b'A' b'a' (at s 3)
        then (if five then reserved else data_header)
        else if is_letter b'S' b's' (at s 0)
            && is_letter b'A' b'a' (at s 1)
            && is_letter b'V' b'v' (at s 2)
            && is_letter b'E' b'e' (at s 3)
        then (if five then save_end else save_header)
        else if five && is_letter b'O' b'o' (at s 2) && is_letter b'P' b'p' (at s 3)
        then (if is_letter b'L' b'l' (at s 0) && is_letter b'O' b'o' (at s 1)
            then loop_keyword
            else if is_letter b'S' b's' (at s 0) && is_letter b'T' b't' (at s 1)
            then reserved
            else plain)
        else plain)
    else if length s == 7
        && at s 6 == b'_'
        && is_letter b'G' b'g' (at s 0)
        && is_letter b'L' b'l' (at s 1)
        && is_letter b'O' b'o' (at s 2)
        && is_letter b'B' b'b' (at s 3)
        && is_letter b'A' b'a' (at s 4)
        && is_letter b'L' b'l' (at s 5)
    then reserved
    else plain

word_of-letters : (d : Dialect) (s : UString) → word_of d s ≡ letter_word s
unfolding word_of short_word is_global_word letter_word
word_of-letters d s = simp (
  underscore_test, letter_a-test, letter_b-test, letter_d-test, letter_e-test, letter_g-test,
  letter_l-test, letter_o-test, letter_p-test, letter_s-test, letter_t-test, letter_v-test,
)

and_false : (b : Bool) → (b && false) ≡ false
and_false true = refl
and_false false = refl

-- What is left of both tests on a string of more than seven characters
long-reserved :
    (c e f g i : ℕ)
    → is_reserved_start c ≡ false
    → is_plain (
        if i == b'_'
        then (if is_letter b'D' b'd' c
              && is_letter b'A' b'a' e
              && is_letter b'T' b't' f
              && is_letter b'A' b'a' g
            then data_header
            else if is_letter b'S' b's' c
                && is_letter b'A' b'a' e
                && is_letter b'V' b'v' f
                && is_letter b'E' b'e' g
            then save_header
            else plain)
        else plain)
      ≡ not (
          if is_reserved_start c
          then true
          else if is_letter b'D' b'd' c
          then is_letter b'A' b'a' e && is_letter b'T' b't' f && is_letter b'A' b'a' g && i == b'_'
          else if is_letter b'G' b'g' c
          then false
          else if is_letter b'L' b'l' c
          then false
          else if is_letter b'S' b's' c
          then (if is_letter b'A' b'a' e
              then is_letter b'V' b'v' f && is_letter b'E' b'e' g && i == b'_'
              else if is_letter b'T' b't' e
              then false
              else false)
          else false)
long-reserved c e f g i k = ground arith

letter_word-reserved :
    (s : UString)
    → All (λ c. 0 < c) s
    → is_reserved_start (at s 0) ≡ false
    → is_plain (letter_word s) ≡ not (is_reserved_string s)
unfolding letter_word is_reserved_string
letter_word-reserved [] h k = refl
letter_word-reserved (c ∷ []) h k = ground arith
letter_word-reserved (c ∷ e ∷ []) h k = ground arith
letter_word-reserved (c ∷ e ∷ f ∷ []) h k = ground arith
letter_word-reserved (c ∷ e ∷ f ∷ g ∷ []) h k = ground arith
letter_word-reserved (c ∷ e ∷ f ∷ g ∷ i ∷ []) h k = ground arith
letter_word-reserved (c ∷ e ∷ f ∷ g ∷ i ∷ j ∷ []) h k = ground arith
letter_word-reserved (c ∷ e ∷ f ∷ g ∷ i ∷ j ∷ l ∷ []) h k =
    let more : (j == 0) ≡ false = ground arith in
    elim (Bool-cases (is_letter b'G' b'g' c)) [
      | inl global ↦
          let no_d : is_letter b'D' b'd' c ≡ false = ground arith in
          let no_s : is_letter b'S' b's' c ≡ false = ground arith in
          rw (more, global, no_d, no_s) (ground arith)
      | inr other ↦ rw (more, other) (ground arith)
    ]
letter_word-reserved (c ∷ e ∷ f ∷ g ∷ i ∷ j ∷ l ∷ m ∷ s) h k =
    let long = length (c ∷ e ∷ f ∷ g ∷ i ∷ j ∷ l ∷ m ∷ s) in
    let four : ltb 4 long ≡ true = ground arith in
    let five : (long == 5) ≡ false = ground arith in
    let seven : (long == 7) ≡ false = ground arith in
    let more : (j == 0) ≡ false = ground arith in
    let most : (m == 0) ≡ false = ground arith in
    rw (four, five, seven, more, most) (simp (and_false) (long-reserved c e f g i k))

-- In CIF of either version, with any options of the scanner: where a token without delimiters has no
-- NUL and does not start with a character that `cif_is_reserved_string` (src/utils.c) reserves, the
-- scanner takes it for a plain value exactly when `cif_is_reserved_string` does not reserve it.
pub word_of-is_reserved_string :
    (d : Dialect) (token : UString)
    → All (λ c. 0 < c) token
    → is_reserved_start (at token 0) ≡ false
    → is_plain (word_of d token) ≡ not (is_reserved_string token)
word_of-is_reserved_string d token h k =
    rw (word_of-letters d token) (letter_word-reserved token h k)
