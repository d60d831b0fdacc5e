-- ===== src/Value/Keyed.antt =====
-- Table values by key (the end of src/map.c): the operations of maps on the entries of a table.
use cif_api.Base.{Bool, true, false, none, some, List, [], ◌∷◌, UString, ◌≡◌, refl, ap, ◌∙◌}
use cif_api.Code.{
  Code, Result, ok, err, argument_error, invalid_index, nosuch_item, ◌>>=◌, >>=-eq-ok, ok-injective,
}
use cif_api.Icu.{Icu}
use cif_api.Names.Valid.{normalize_table_index}
use cif_api.Hash.{Entry, Uthash, lookup}
use cif_api.Map.{CifMap, Argument, object, get_keys, set_item, retrieve_item}
use cif_api.Map.Access.{KeysApart, unshared}
use cif_api.Map.Items.{
  value_found, value_set-other, set_item-normalizer, set_item-KeysApart, retrieve_item-set_item,
}
use cif_api.Value.{Value, table, unk, Entries, end, entry, to_entries, of_entries, clone}

-- `cif_normalize_table_index` as the normalizer of a map.
abbrev pub index_normalizer : Icu → UString → Code → Result UString
index_normalizer icu key code = do
  normalized ← normalize_table_index icu (some key) none code
  ok normalized.content

module _ (icu : Icu) (hash : Uthash Value) where
  -- The map inside a table, and the table around a map.
  abbrev pub map_of : Entries → Bool → CifMap Value
  unfolding to_entries
  map_of entries is_standalone = record {
    head = to_entries entries;
    is_standalone = is_standalone;
    normalizer = index_normalizer icu;
  }

  abbrev pub table_of : CifMap Value → Value
  unfolding of_entries
  table_of m = table (of_entries m.head) m.is_standalone

  -- `cif_value_get_keys`
  unfoldable pub value_get_keys : Value → Result (List UString)
  unfolding to_entries
  value_get_keys (table entries is_standalone) = ok (get_keys (to_entries entries))
  value_get_keys _ = err argument_error

  -- `cif_value_set_item_by_key`
  unfoldable pub set_item_by_key : Value → UString → Argument Value → Result Value
  unfolding map_of table_of set_item clone
  set_item_by_key (table entries is_standalone) key item = do
    m ← set_item hash clone unk (map_of entries is_standalone) key item invalid_index
    ok (table_of m)
  set_item_by_key _ key item = err argument_error

  -- `cif_value_get_item_by_key`
  unfoldable pub get_item_by_key : Value → UString → Result Value
  unfolding map_of retrieve_item clone
  get_item_by_key (table entries is_standalone) name = do
    found ← retrieve_item hash clone unk (map_of entries is_standalone) name false nosuch_item
    ok found.0
  get_item_by_key _ name = err argument_error

  -- `cif_value_remove_item_by_key`: the item, and the table that is left.
  unfoldable pub remove_item_by_key : Value → UString → Result (Value × Value)
  unfolding map_of table_of retrieve_item clone
  remove_item_by_key (table entries is_standalone) name = do
    found ← retrieve_item hash clone unk (map_of entries is_standalone) name true nosuch_item
    ok (found.0, table_of found.1)
  remove_item_by_key _ name = err argument_error

to_entries-of_entries : (es : List (Entry Value)) → KeysApart es → to_entries (of_entries es) ≡ es
unfolding to_entries of_entries
to_entries-of_entries [] h = refl
to_entries-of_entries (e ∷ es) h = rw (to_entries-of_entries es h.1, unshared e h.0)

-- The keys of a table are allocated one by one.
to_entries-KeysApart : (es : Entries) → KeysApart (to_entries es)
unfolding to_entries
to_entries-KeysApart end = tt
to_entries-KeysApart (entry k o v es) = (refl, to_entries-KeysApart es)

module _ (icu : Icu) (hash : Uthash Value) where
  found_only :
      (r : Result (Value × CifMap Value))
      → (r >>= λ found. ok found.0) ≡ value_found hash clone unk r
  found_only (ok p) = refl
  found_only (err c) = refl

  map_of-table_of :
      (m : CifMap Value)
      → KeysApart m.head
      → m.normalizer ≡ index_normalizer icu
      → map_of icu hash (of_entries m.head) m.is_standalone ≡ m
  unfolding map_of
  map_of-table_of m apart n = rw (to_entries-of_entries m.head apart, ← n)

  -- A value that is set in a table under a key is found, as a copy, under every spelling of the
  -- key that has the same normal form.
  pub get_item_by_key-set_item_by_key :
      (entries : Entries) (is_standalone : Bool) (key other kn : UString) (v t : Value)
      → set_item_by_key icu hash (table entries is_standalone) key (object false v) ≡ ok t
      → index_normalizer icu key invalid_index ≡ ok kn
      → index_normalizer icu other nosuch_item ≡ ok kn
      → get_item_by_key icu hash t other ≡ ok (clone v)
  unfolding set_item_by_key get_item_by_key
  get_item_by_key-set_item_by_key entries b key other kn v t h e g =
      let (m, s, done) =
        >>=-eq-ok
          (set_item hash clone unk (map_of icu hash entries b) key (object false v) invalid_index) _
          h in
      let apart : KeysApart (to_entries entries) = to_entries-KeysApart entries in
      let normal : m.normalizer ≡ index_normalizer icu =
        set_item-normalizer hash clone unk (map_of icu hash entries b) m key (object false v)
          invalid_index apart s in
      let still : KeysApart m.head =
        set_item-KeysApart hash clone unk (map_of icu hash entries b) m key (object false v)
          invalid_index apart s in
      let is_table : table (of_entries m.head) m.is_standalone ≡ t = ok-injective done in
      let inside : retrieve_item hash clone unk
            (map_of icu hash (of_entries m.head) m.is_standalone) other false nosuch_item
          ≡ retrieve_item hash clone unk m other false nosuch_item =
        ap (λ (n : CifMap Value). retrieve_item hash clone unk n other false nosuch_item)
          (map_of-table_of m still normal) in
      rw (← is_table, inside)
        (found_only (retrieve_item hash clone unk m other false nosuch_item)
          ∙ retrieve_item-set_item hash clone unk (map_of icu hash entries b) m key other kn
              (object false v) invalid_index nosuch_item apart s e g
          ∙ ap ok (value_set-other hash clone unk (lookup (to_entries entries) kn) v))
