-- ===== src/Tests/Values.antt =====
-- The theorems on values at a nested list and at concrete strings.
use cif_api.Base.{
  ◌<◌, ◌≤◌, true, false, some, [], ◌∷◌, ◌++◌, UString, line_length, ◌+◌, length, get_or, take, drop,
  any, ◌==◌, All, ◌≡◌, ◌↔◌, refl, subst, arith,
}
use cif_api.Code.{ok}
use cif_api.Map.{object}
use cif_api.Reserved.{is_reserved_string}
use cif_api.Value.{Value, char, list, na, unk, Elements, nil, cons, to_list, of_list, clone}
use cif_api.Value.Clone.{Same, IsSound, clone-Same}
use cif_api.Value.Listed.{set_element_at, insert_element_at, remove_element_at, expanded, inserted}
use cif_api.Value.Listed.Laws.{
  insert_element_at-inserts, remove_element_at-removes, remove_element_at-inserted,
}
use cif_api.Value.Quoting.{set_quoted, disallowed_chars, set_quoted-unquotes_iff}
use cif_api.Value.Numbers.{
  parse_numb, format_text_decimal, total_chars, place_point, zeroes, skip_zeroes,
}
use cif_api.Value.Numbers.Digits.{IsTrimmed}
use cif_api.Value.Numbers.Bounds.{format_text_decimal-fits}
use cif_api.Value.Numbers.RoundTrip.{number_of, parse_numb-format_text_decimal}
use cif_api.Tests.{plain_icu}

abbrev two : Elements
two = cons na (cons (list (cons unk nil) 4) nil)

abbrev text : UString
text = b'a' ∷ b'b' ∷ []

clone-Same_example :
    Same (clone (list two 2)) (list two 2)
    × IsSound (clone (list two 2))
    × (clone (clone (list two 2)) ≡ clone (list two 2))
clone-Same_example = clone-Same (list two 2)

two-room : length (to_list two) ≤ 2
unfolding to_list
two-room = omega arith

two-after_first : 1 ≤ length (to_list two)
unfolding to_list
two-after_first = omega arith

-- What becomes of the list with one more element in the middle, and with the first one replaced.
abbrev with_text : Value
with_text = list (cons na (cons (char text true) (cons (list (cons unk nil) 4) nil))) 6

abbrev with_first : Value
with_first = list (cons (char text true) (cons (list (cons unk nil) 4) nil)) 2

inserts : insert_element_at (list two 2) 1 (some (char text true)) ≡ ok with_text
unfolding insert_element_at to_list of_list clone
inserts = refl

sets_first : set_element_at (list two 2) 0 (object false (char text true)) ≡ ok with_first
unfolding set_element_at to_list of_list clone
sets_first = refl

insert_element_at-inserts_example :
    (insert_element_at (list two 2) 1 (some (char text true))
      ≡ ok (
          list
            (of_list
              (take 1 (to_list two) ++ (inserted (some (char text true)) ∷ drop 1 (to_list two))))
            (expanded (length (to_list two)) 2)))
    × (length (to_list two) < expanded (length (to_list two)) 2)
insert_element_at-inserts_example =
    insert_element_at-inserts two 2 1 (some (char text true)) two-room two-after_first

remove_element_at-removes_example :
    remove_element_at (list two 2) 0
    ≡ ok (
      get_or (to_list two) 0 unk,
      list (of_list (take 0 (to_list two) ++ drop 1 (to_list two))) 2,
    )
remove_element_at-removes_example = remove_element_at-removes two 2 0 two-after_first

remove_element_at-inserted_example :
    remove_element_at with_text 1
    ≡ ok (inserted (some (char text true)), list two (expanded (length (to_list two)) 2))
remove_element_at-inserted_example =
    remove_element_at-inserted two 2 1 (some (char text true)) with_text two-room two-after_first
      inserts

text-plain : is_reserved_string text ≡ false
unfolding is_reserved_string
text-plain = refl

set_quoted-unquotes_iff_example :
    (set_quoted plain_icu (char text true) false ≡ ok (char text false))
    ↔ All (λ c. any (◌==◌ c) disallowed_chars ≡ false) text
set_quoted-unquotes_iff_example =
    set_quoted-unquotes_iff plain_icu text (λ e. cc e) (λ e. cc e) (λ e. cc e) text-plain

-- The number -0.012(3)
abbrev small : UString
small = b'-' ∷ (b'0' ∷ (b'.' ∷ (b'0' ∷ (b'1' ∷ (b'2' ∷ (b'(' ∷ (b'3' ∷ (b')' ∷ []))))))))

abbrev twelve : UString
twelve = b'1' ∷ (b'2' ∷ [])

abbrev three : UString
three = b'3' ∷ []

small_digit : (digits : UString) → some three ≡ some digits → three ≡ digits
small_digit digits h = cc

parse_numb-format_text_decimal_example :
    parse_numb small ≡ ok (number_of small true twelve (some three) 3)
unfolding format_text_decimal place_point zeroes skip_zeroes
parse_numb-format_text_decimal_example =
    parse_numb-format_text_decimal true twelve (some three) 3 small
      ((refl, (refl, tt)), omega arith, refl)
      (λ digits h. subst IsTrimmed (small_digit digits h) ((refl, tt), omega arith, refl)) refl

format_text_decimal-fits_example :
    (length small + 1 ≡ total_chars true twelve (some three) 3) × (length small ≤ line_length)
unfolding format_text_decimal place_point zeroes
format_text_decimal-fits_example =
    format_text_decimal-fits true twelve (some three) 3 small (omega arith) refl
