-- ===== src/Map.antt =====
-- The maps of src/map.c, behind packets and table values: entries under normalized keys, each with
-- the key as the user gave it. Allocations succeed.
pub mod Keys
pub mod Access
pub mod Items
use cif_api.Base.{
  ℕ, zero, suc, ◌+◌, Bool, true, false, not, ◌||◌, Option, none, some, List, [], ◌∷◌, ◌++◌, leb,
  ◌==◌, if◌then◌else◌, UString, length, equals,
}
use cif_api.Code.{Code, Result, ok, err, error, internal_error, nosuch_item, ◌>>=◌}
use cif_api.Hash.{Entry, Uthash}

-- `cif_map_t`: the keys of a map that is not standalone belong to someone else. `normalizer` is the
-- function pointer of the source.
pub record CifMap (V : Type 0) : Type 0 where
  pub head : List (Entry V)
  pub is_standalone : Bool
  pub normalizer : UString → Code → Result UString

-- A `cif_value_tp *` that is passed in: NULL, or an object, which may be the one in the map.
pub data Argument (V : Type 0) : Type 0 where
  null : Argument V
  object : Bool → V → Argument V

-- The key copy in a slot of the array.
unfoldable pub slot : List (ℕ × UString) → ℕ → UString
slot [] i = []
slot (c ∷ cs) i = if c.0 == i then c.1 else slot cs i

module _ {V : Type 0} where
  -- `cif_map_get_keys`
  abbrev pub get_keys : List (Entry V) → List UString
  get_keys [] = []
  get_keys (e ∷ es) = e.key_orig ∷ get_keys es

  -- "Copy the names": the slots of `key_copies` that are filled. The source adds to `next` where it
  -- tests the copy, and once more below.
  unfoldable pub copy_keys : ℕ → ℕ → List (Entry V) → Result (List (ℕ × UString))
  copy_keys item_count next [] = ok []
  copy_keys item_count next (e ∷ es) =
      let rest = copy_keys item_count (next + 1 + 1) es in
      if leb item_count next
      then err internal_error
      else (do more ← rest; ok ((next, e.key_orig) ∷ more))

  -- "Update the entries with the name copies"
  unfoldable pub assign_keys : ℕ → List (ℕ × UString) → ℕ → List (Entry V) → Result (List (Entry V))
  unfolding slot
  assign_keys item_count key_copies next [] = ok []
  assign_keys item_count key_copies next (e ∷ es) =
      let rest = assign_keys item_count key_copies (next + 1) es in
      if leb item_count next then err internal_error else (do
        more ← rest
        ok (record e { key_orig = slot key_copies next; shared = false } ∷ more))

  -- `convert_to_standalone`
  unfoldable pub convert_to_standalone : CifMap V → Result (CifMap V)
  unfolding copy_keys assign_keys
  convert_to_standalone m = if m.is_standalone then ok m else (do
    key_copies ← copy_keys (length m.head) 0 m.head
    entries ← assign_keys (length m.head) key_copies 0 m.head
    ok (record m { head = entries; is_standalone = true }))

  -- A write through the pointer to the entry that was found under the key.
  unfoldable pub modify : List (Entry V) → UString → (Entry V → Entry V) → List (Entry V)
  modify [] k f = []
  modify (e ∷ es) k f = if equals e.key k then f e ∷ es else e ∷ modify es k f

-- `clone` is `cif_value_clone`, and `unknown` a value of kind `CIF_UNK_KIND`.
module _ {V : Type 0} (hash : Uthash V) (clone : V → V) (unknown : V) where
  -- The value that an existing entry gets, and the one that a new entry gets.
  abbrev pub renewed : Argument V → V → V
  renewed null old = unknown
  renewed (object same v) old = if same then old else clone v

  abbrev pub fresh : Argument V → V
  fresh null = unknown
  fresh (object same v) = clone v

  -- `different_key`
  abbrev pub different_key : Option (Entry V) → UString → Bool
  different_key none key = true
  different_key (some item) key = not (equals key item.key_orig)

  -- Another spelling of a key is copied, and the one before it is freed, with the key of the hash
  -- table where that is the same allocation.
  unfoldable pub respelled : Entry V → UString → Entry V
  respelled e key = if equals key e.key_orig then e else record e {
    key = if e.shared then hash.stale e.key else e.key;
    key_orig = key;
    shared = false;
  }

  -- The branches for an existing item and for a new one, on a map that is standalone if need be.
  unfoldable pub store : CifMap V → Option (Entry V) → UString → UString → Argument V → CifMap V
  unfolding modify respelled
  store m (some item) key_norm key value = record m {
    head =
        modify m.head key_norm
          (λ e. record (respelled e key) { as_value = renewed value e.as_value });
  }
  store m none key_norm key value = record m {
    head =
        hash.add m.head
          (record { key = key_norm; key_orig = key; shared = false; as_value = fresh value });
  }

  -- `convert_to_standalone(map) == CIF_OK`; its code is dropped.
  abbrev pub or_error {ℓ} : {A : Type ℓ} → Result A → Result A
  or_error (ok a) = ok a
  or_error (err c) = err error

  -- `cif_map_set_item`
  unfoldable pub set_item : CifMap V → UString → Argument V → Code → Result (CifMap V)
  unfolding store convert_to_standalone
  set_item m key value invalidity_code = do
    key_norm ← m.normalizer key invalidity_code
    let item = hash.find m.head key_norm
    standalone ← if different_key item key then or_error (convert_to_standalone m) else ok m
    ok (store standalone item key_norm key value)

  -- `cif_map_retrieve_item`: the value, and the map that is left.
  unfoldable pub retrieve_item : CifMap V → UString → Bool → Code → Result (V × CifMap V)
  retrieve_item m key do_remove invalidity_code = do
    key_norm ← m.normalizer key invalidity_code
    elim (hash.find m.head key_norm) [
      | none ↦ err nosuch_item
      | some item ↦
          ok (
            item.as_value,
            if do_remove then record m { head = hash.delete m.head key_norm } else m,
          )
    ]

  -- `cif_map_clean`
  abbrev pub clean_map : CifMap V → CifMap V
  clean_map m = record m { head = [] }
