-- ===== src/Tests/Maps.antt =====
-- The theorems on maps at a map of two items.
use cif_api.Base.{sym, ap, get_or, ◌≢◌, ℕ, true, false, [], ◌∷◌, UString, ◌≡◌, refl, arith}
use cif_api.Code.{Code, Result, ok, err, nosuch_item, invalid_index}
use cif_api.Hash.{lookup, without}
use cif_api.Map.Access.{KeysApart}
use cif_api.Map.{CifMap, object, set_item, retrieve_item}
use cif_api.Map.Items.{
  value_found, value_set, WellFormed, retrieve_item-set_item, retrieve_item-set_item_other,
  set_item-WellFormed, retrieve_item-WellFormed, retrieve_item-removed,
}
use cif_api.Tests.{list_hash}

-- Keys are normalized by leaving out a leading `A`, as if `A` were to be ignored.
abbrev normalizer : UString → Code → Result UString
normalizer [] code = err code
normalizer (c ∷ []) code = ok (c ∷ [])
normalizer (c ∷ cs) code = ok cs

abbrev key_x : UString
key_x = b'x' ∷ []

abbrev key_ax : UString
key_ax = b'A' ∷ b'x' ∷ []

abbrev key_y : UString
key_y = b'y' ∷ []

abbrev two_items : CifMap ℕ
two_items = record {
  head =
      record { key = key_x; key_orig = key_x; shared = false; as_value = 1 }
      ∷ record { key = key_y; key_orig = key_y; shared = false; as_value = 2 }
      ∷ [];
  is_standalone = true;
  normalizer = normalizer;
}

-- `two_items` with 3 under the other spelling of the first key, and without the first item.
abbrev after_set : CifMap ℕ
after_set = record two_items {
  head =
      record { key = key_x; key_orig = key_ax; shared = false; as_value = 3 }
      ∷ record { key = key_y; key_orig = key_y; shared = false; as_value = 2 }
      ∷ [];
}

abbrev after_removal : CifMap ℕ
after_removal = record two_items {
  head = record { key = key_y; key_orig = key_y; shared = false; as_value = 2 } ∷ [];
}

abbrev same : ℕ → ℕ
same n = n

sets : set_item (list_hash ℕ) same 0 two_items key_ax (object false 3) invalid_index ≡ ok after_set
unfolding set_item lookup
sets = refl

removes :
    retrieve_item (list_hash ℕ) same 0 two_items key_ax true nosuch_item ≡ ok (1, after_removal)
unfolding retrieve_item lookup without
removes = refl

x-apart : key_x ≢ key_y
x-apart e =
    let heads : get_or key_x 0 0 ≡ get_or key_y 0 0 = ap (λ s. get_or s 0 0) e in omega arith

two_items-KeysApart : KeysApart two_items.head
two_items-KeysApart = (refl, (refl, tt))

two_items-WellFormed : WellFormed (list_hash ℕ) same 0 two_items invalid_index
two_items-WellFormed = record {
  distinct = (((λ e. x-apart (sym e)), tt), (tt, tt));
  normal = (refl, (refl, tt));
}

retrieve_item-set_item_example :
    value_found
      (list_hash ℕ)
      same
      0
      (retrieve_item (list_hash ℕ) same 0 after_set key_x false nosuch_item)
    ≡ ok (value_set (list_hash ℕ) same 0 (lookup two_items.head key_x) (object false 3))
retrieve_item-set_item_example =
    retrieve_item-set_item (list_hash ℕ) same 0 two_items after_set key_ax key_x key_x
      (object false 3) invalid_index nosuch_item two_items-KeysApart sets refl refl

retrieve_item-set_item_other_example :
    value_found
      (list_hash ℕ)
      same
      0
      (retrieve_item (list_hash ℕ) same 0 after_set key_y false nosuch_item)
    ≡ value_found
        (list_hash ℕ)
        same
        0
        (retrieve_item (list_hash ℕ) same 0 two_items key_y false nosuch_item)
retrieve_item-set_item_other_example =
    retrieve_item-set_item_other (list_hash ℕ) same 0 two_items after_set key_ax key_y key_x key_y
      (object false 3) invalid_index nosuch_item two_items-KeysApart sets refl refl x-apart

set_item-WellFormed_example :
    WellFormed (list_hash ℕ) same 0 after_set invalid_index × KeysApart after_set.head
set_item-WellFormed_example =
    set_item-WellFormed (list_hash ℕ) same 0 two_items after_set key_ax (object false 3)
      invalid_index two_items-WellFormed two_items-KeysApart sets

retrieve_item-WellFormed_example : WellFormed (list_hash ℕ) same 0 after_removal invalid_index
retrieve_item-WellFormed_example =
    retrieve_item-WellFormed (list_hash ℕ) same 0 two_items after_removal key_ax key_x 1
      invalid_index nosuch_item two_items-WellFormed refl removes

retrieve_item-removed_example :
    value_found
      (list_hash ℕ)
      same
      0
      (retrieve_item (list_hash ℕ) same 0 after_removal key_x false nosuch_item)
    ≡ err nosuch_item
retrieve_item-removed_example =
    retrieve_item-removed (list_hash ℕ) same 0 two_items after_removal key_ax key_x key_x 1
      invalid_index nosuch_item two_items-WellFormed refl refl removes
