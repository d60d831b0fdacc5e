-- ===== src/Tests/Windows.antt =====
-- Concrete inputs for the theorems on the buffer of the scanner of src/parser.c.
use cif_api.Base.{
  ℕ, ◌≤◌, zero, suc, false, none, [], ◌∷◌, ◌++◌, UString, length, take, drop, ◌≡◌, refl, subst,
  arith,
}
use cif_api.Chars.{nl, cr}
use cif_api.Code.{Result, ok, ok-injective}
use cif_api.Scanner.Classes.{class_of}
use cif_api.Scanner.Classes.Standard.{standard}
use cif_api.Scanner.Buffer.{
  Window, transferred, buf_size_initial, convert_first, convert_lines, get_more_chars,
  get_first_char,
}
use cif_api.Scanner.Buffer.Lines.{normalize, has_pair, transferred-normalize}
use cif_api.Scanner.Buffer.Room.{Refilled}
use cif_api.Scanner.Buffer.Refill.{IsBounded, get_more_chars-Refilled}

-- The last character of a chunk with a CR LF comes twice.
abbrev two_lines : UString
two_lines = b'a' ∷ (cr ∷ (nl ∷ (b'b' ∷ [])))

transferred-two_lines : transferred two_lines ≡ b'a' ∷ (nl ∷ (b'b' ∷ (b'b' ∷ [])))
unfolding convert_first convert_lines
transferred-two_lines = refl

transferred-normalize_example :
    (extra : UString) × (transferred two_lines ≡ normalize two_lines ++ extra) × (length extra ≡ 1)
unfolding has_pair
transferred-normalize_example = transferred-normalize two_lines

-- A source that gives what is left of a text, up to the number asked for
abbrev from_text : UString → ℕ → Result UString × UString
from_text text n = (ok (take n text), drop n text)

length-take_bound : (n : ℕ) (xs : UString) → length (take n xs) ≤ n
length-take_bound zero xs = omega arith
length-take_bound (suc n) [] = omega arith
length-take_bound (suc n) (x ∷ xs) = omega (arith, length-take_bound n xs)

from_text-IsBounded : IsBounded from_text
from_text-IsBounded source n units h =
    subst (λ k. length k ≤ n) (ok-injective h) (length-take_bound n source)

-- A token of two characters in progress
abbrev in_token : Window
in_token = record {
  buffer = b'x' ∷ (b'y' ∷ (b'z' ∷ []));
  buffer_size = buf_size_initial;
  text_start = 1;
  tvalue_start = 2;
  next_char = 3;
  at_eof = false;
}

get_more_chars-Refilled_example :
    Refilled in_token (get_more_chars from_text (λ n. false) two_lines in_token).0.1
get_more_chars-Refilled_example =
    get_more_chars-Refilled from_text from_text-IsBounded (λ n. false) two_lines in_token
      (omega arith, omega arith, omega arith, omega arith, omega arith) refl

-- What is read behind an initial CR is lost, but for one character.
abbrev fresh : Window
fresh = record {
  buffer = [];
  buffer_size = buf_size_initial;
  text_start = 0;
  tvalue_start = 0;
  next_char = 0;
  at_eof = false;
}

get_first_char_loses :
    (get_first_char from_text (λ reports. none) (standard 2) (cr ∷ two_lines) fresh []).0.1.buffer
    ≡ nl ∷ (b'a' ∷ [])
unfolding get_first_char class_of
get_first_char_loses = refl
