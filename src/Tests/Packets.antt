-- ===== src/Tests/Packets.antt =====
-- The theorems on packets and tables at two item names and at a table of one item.
use cif_api.Base.{true, false, some, List, [], ◌∷◌, UString, ◌≡◌, ◌≢◌, refl, ap, get_or, arith}
use cif_api.Code.{Code, ok, invalid_itemname, invalid_index, nosuch_item}
use cif_api.Hash.{lookup}
use cif_api.Map.{CifMap, object}
use cif_api.Map.Items.{WellFormed}
use cif_api.Names.Valid.{is_valid_name, normalize_item_name, normalize_table_index}
use cif_api.Names.Utf16.{has_disallowed_chars}
use cif_api.Names.Convert.{normalize, unicode_normalize, fold_case}
use cif_api.Value.{Value, unk, na, table, end, entry, clone}
use cif_api.Value.Keyed.{
  index_normalizer, set_item_by_key, get_item_by_key, get_item_by_key-set_item_by_key,
}
use cif_api.Packet.{item_normalizer, normalize_all, given, packet_create, packet_get_names}
use cif_api.Packet.Create.{AllDistinct, packet_create-names, packet_create-WellFormed}
use cif_api.Tests.{plain_icu, list_hash}

abbrev name_a : UString
name_a = b'_' ∷ b'a' ∷ []

abbrev name_b : UString
name_b = b'_' ∷ b'b' ∷ []

abbrev names : List UString
names = name_a ∷ name_b ∷ []

abbrev packet : CifMap Value
packet = record {
  head =
      record { key = name_a; key_orig = name_a; shared = true; as_value = unk }
      ∷ record { key = name_b; key_orig = name_b; shared = true; as_value = unk }
      ∷ [];
  is_standalone = true;
  normalizer = item_normalizer plain_icu;
}

normalizes : normalize_all plain_icu (list_hash Value) names ≡ ok names
unfolding normalize_all normalize_item_name is_valid_name has_disallowed_chars normalize
    unicode_normalize fold_case
normalizes = refl

creates : packet_create plain_icu (list_hash Value) (some names) ≡ ok packet
unfolding packet_create normalize_item_name is_valid_name has_disallowed_chars normalize
    unicode_normalize fold_case
creates = refl

names-AllDistinct : AllDistinct names
names-AllDistinct = (((λ e. apart e), tt), (tt, tt))
  where
    apart : name_b ≢ name_a
    apart e =
        let second : get_or name_b 1 0 ≡ get_or name_a 1 0 = ap (λ s. get_or s 1 0) e in omega arith

packet_create-names_example :
    (packet_get_names plain_icu (list_hash Value) packet
      ≡ given plain_icu (list_hash Value) (some names))
    × (packet.is_standalone ≡ true)
packet_create-names_example =
    packet_create-names plain_icu (list_hash Value) (some names) packet creates

packet_create-WellFormed_example : WellFormed (list_hash Value) clone unk packet invalid_itemname
packet_create-WellFormed_example =
    packet_create-WellFormed plain_icu (list_hash Value) (some names) names packet normalizes
      names-AllDistinct creates

-- A table with an item, and with another value under its key.
key_normalizes : (code : Code) → index_normalizer plain_icu name_a code ≡ ok name_a
unfolding normalize_table_index has_disallowed_chars unicode_normalize
key_normalizes code = refl

sets :
    set_item_by_key plain_icu
      (list_hash Value)
      (table (entry name_a name_a unk end) true)
      name_a
      (object false na)
    ≡ ok (table (entry name_a name_a na end) true)
unfolding set_item_by_key normalize_table_index has_disallowed_chars unicode_normalize lookup
sets = refl

get_item_by_key-set_item_by_key_example :
    get_item_by_key plain_icu (list_hash Value) (table (entry name_a name_a na end) true) name_a
    ≡ ok (clone na)
get_item_by_key-set_item_by_key_example =
    get_item_by_key-set_item_by_key plain_icu (list_hash Value) (entry name_a name_a unk end) true
      name_a name_a name_a na (table (entry name_a name_a na end) true) sets
      (key_normalizes invalid_index) (key_normalizes nosuch_item)
