-- ===== src/Hash.antt =====
-- The hash tables of uthash (a library that the sources only call) as an interface: the macros that
-- the sources use, on the entries in the order in which `HASH_ITER` visits them.
use cif_api.Base.{
  Bool, Option, none, some, List, [], ◌∷◌, ◌++◌, ◌≡◌, if◌then◌else◌, UString, equals,
}

-- `struct entry_s` of src/internal/ciftypes.h, without the links of uthash; `shared` tells that
-- `key_orig` points to the allocation of `key`.
pub record Entry (V : Type 0) : Type 0 where
  pub key : UString
  pub key_orig : UString
  pub shared : Bool
  pub as_value : V

module _ {V : Type 0} where
  -- The first entry with the key, and the entries without it.
  unfoldable pub lookup : List (Entry V) → UString → Option (Entry V)
  lookup [] k = none
  lookup (e ∷ es) k = if equals e.key k then some e else lookup es k

  unfoldable pub without : List (Entry V) → UString → List (Entry V)
  without [] k = []
  without (e ∷ es) k = if equals e.key k then es else e ∷ without es k

pub record Uthash (V : Type 0) : Type 0 where
  -- `HASH_FIND`, `HASH_ADD_KEYPTR`, and `HASH_DEL` of the entry with a key
  pub find : List (Entry V) → UString → Option (Entry V)
  pub add : List (Entry V) → Entry V → List (Entry V)
  pub delete : List (Entry V) → UString → List (Entry V)
  -- What is read through the pointer to the key of an entry once that key has been freed: nothing
  -- is known of it.
  pub stale : UString → UString
  -- The user guide: an item is found by its key, iteration is in insertion order, and a deletion
  -- leaves the other items.
  pub find-lookup : (es : List (Entry V)) (k : UString) → find es k ≡ lookup es k
  pub add-append : (es : List (Entry V)) (e : Entry V) → add es e ≡ es ++ (e ∷ [])
  pub delete-without : (es : List (Entry V)) (k : UString) → delete es k ≡ without es k
