-- ===== src/Tests/Names.antt =====
-- The theorems on names, keys and reserved words at concrete strings.
use cif_api.Base.{true, false, some, [], ◌∷◌, UString, ◌≡◌, refl, arith}
use cif_api.Names.Utf16.{has_disallowed_chars, Encodes, has_disallowed_chars_iff}
use cif_api.Names.Convert.{initial, normalize, caseless, delivered, normalize-caseless}
use cif_api.Names.Valid.{is_valid_name, IsName, is_valid_name_iff}
use cif_api.Reserved.{is_reserved_string, is_reserved}
use cif_api.Reserved.Words.{is_reserved_string_lem}
use cif_api.Tests.{plain_icu}

-- `_ab`, `ab` and an unpaired surrogate
abbrev item_name : UString
item_name = b'_' ∷ b'a' ∷ b'b' ∷ []

abbrev bare_word : UString
bare_word = b'a' ∷ b'b' ∷ []

abbrev unpaired : UString
unpaired = 0xd800 ∷ b'b' ∷ []

-- `Data_1`
abbrev heading : UString
heading = b'D' ∷ b'a' ∷ b't' ∷ b'a' ∷ b'_' ∷ b'1' ∷ []

item_name-IsName : IsName plain_icu item_name true
unfolding is_valid_name
item_name-IsName = (is_valid_name_iff plain_icu item_name true).0 refl

bare_word-invalid : ¬ (IsName plain_icu bare_word true)
bare_word-invalid n = ground (arith, n.start)

item_name-Encodes : Encodes item_name
unfolding has_disallowed_chars
item_name-Encodes = (has_disallowed_chars_iff item_name).0 refl

unpaired-invalid : ¬ (Encodes unpaired)
unfolding has_disallowed_chars
unpaired-invalid e =
    let accepted : has_disallowed_chars unpaired ≡ false =
      (has_disallowed_chars_iff unpaired).1 e in
    cc accepted

normalize-caseless_example :
    normalize plain_icu item_name (some 2)
    ≡ delivered plain_icu (caseless plain_icu (initial (some 2) item_name))
normalize-caseless_example = normalize-caseless plain_icu item_name (some 2)

is_reserved_string_lem_example : is_reserved_string heading ≡ is_reserved heading
is_reserved_string_lem_example =
    is_reserved_string_lem heading
      (omega arith, (omega arith, (omega arith, (omega arith, (omega arith, (omega arith, tt))))))
