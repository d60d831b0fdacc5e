-- ===== src/Reserved.antt =====
-- `cif_is_reserved_string` of src/utils.c: strings that CIF reserves, so that no unquoted value may
-- have their form.
pub mod Words
use cif_api.Base.{
  ℕ, Bool, true, false, ◌&&◌, ◌||◌, [], ◌∷◌, ◌≡◌, refl, arith, leb, ◌==◌, ◌+◌, if◌then◌else◌,
  UString, All, ◌<◌, get_or, List,
}
use cif_api.Chars.{sq, dq}

-- One letter in either case, as the source's pairs of comparisons.
abbrev pub is_letter : ℕ → ℕ → ℕ → Bool
is_letter upper lower c = c == upper || c == lower

abbrev pub at : UString → ℕ → ℕ
at s i = get_or s i 0

pub is_data_tail : UString → Bool
is_data_tail s =
    is_letter b'A' b'a' (at s 1)
    && is_letter b'T' b't' (at s 2)
    && is_letter b'A' b'a' (at s 3)
    && at s 4 == b'_'

pub is_global_tail : UString → Bool
is_global_tail s =
    is_letter b'L' b'l' (at s 1)
    && is_letter b'O' b'o' (at s 2)
    && is_letter b'B' b'b' (at s 3)
    && is_letter b'A' b'a' (at s 4)
    && is_letter b'L' b'l' (at s 5)
    && at s 6 == b'_'
    && at s 7 == 0

pub is_loop_tail : UString → Bool
is_loop_tail s =
    is_letter b'O' b'o' (at s 1)
    && is_letter b'O' b'o' (at s 2)
    && is_letter b'P' b'p' (at s 3)
    && at s 4 == b'_'
    && at s 5 == 0

pub is_save_tail : UString → Bool
is_save_tail s = is_letter b'V' b'v' (at s 2) && is_letter b'E' b'e' (at s 3) && at s 4 == b'_'

pub is_stop_tail : UString → Bool
is_stop_tail s =
    is_letter b'O' b'o' (at s 2) && is_letter b'P' b'p' (at s 3) && at s 4 == b'_' && at s 5 == 0

-- The characters that an unquoted value may not start with.
abbrev pub is_reserved_start : ℕ → Bool
is_reserved_start c = c == b'_' || c == b'#' || c == b'$' || c == sq || c == dq

-- `cif_is_reserved_string`; its two switches are the chains of tests.
unfoldable pub is_reserved_string : UString → Bool
unfolding is_data_tail is_global_tail is_loop_tail is_save_tail is_stop_tail
is_reserved_string s =
    if is_reserved_start (at s 0)
    then true
    else if is_letter b'D' b'd' (at s 0)
    then is_data_tail s
    else if is_letter b'G' b'g' (at s 0)
    then is_global_tail s
    else if is_letter b'L' b'l' (at s 0)
    then is_loop_tail s
    else if is_letter b'S' b's' (at s 0)
    then (if is_letter b'A' b'a' (at s 1)
        then is_save_tail s
        else if is_letter b'T' b't' (at s 1)
        then is_stop_tail s
        else false)
    else false

-- The reserved strings by the words that they begin with, or are, in any case of letters.
abbrev lower : ℕ → ℕ
lower c = if leb b'A' c && leb c b'Z' then c + 32 else c

starts : List ℕ → UString → Bool
starts [] s = true
starts (w ∷ ws) [] = false
starts (w ∷ ws) (c ∷ cs) = lower c == w && starts ws cs

is_word : List ℕ → UString → Bool
is_word [] [] = true
is_word [] (c ∷ cs) = false
is_word (w ∷ ws) [] = false
is_word (w ∷ ws) (c ∷ cs) = lower c == w && is_word ws cs

abbrev ata_ : List ℕ
ata_ = b'a' ∷ b't' ∷ b'a' ∷ b'_' ∷ []

abbrev ave_ : List ℕ
ave_ = b'a' ∷ b'v' ∷ b'e' ∷ b'_' ∷ []

abbrev lobal_ : List ℕ
lobal_ = b'l' ∷ b'o' ∷ b'b' ∷ b'a' ∷ b'l' ∷ b'_' ∷ []

abbrev oop_ : List ℕ
oop_ = b'o' ∷ b'o' ∷ b'p' ∷ b'_' ∷ []

abbrev top_ : List ℕ
top_ = b't' ∷ b'o' ∷ b'p' ∷ b'_' ∷ []

pub is_reserved : UString → Bool
unfolding starts is_word
is_reserved s =
    is_reserved_start (at s 0)
    || starts (b'd' ∷ ata_) s
    || starts (b's' ∷ ave_) s
    || is_word (b'g' ∷ lobal_) s
    || is_word (b'l' ∷ oop_) s
    || is_word (b's' ∷ top_) s
