-- ===== src/Packet.antt =====
-- Packets (src/packet.c and the end of src/map.c): maps from item names to values.
pub mod Create
use cif_api.Base.{
  ℕ, Bool, true, false, not, Option, none, some, List, [], ◌∷◌, ◌++◌, if◌then◌else◌, UString,
  equals,
}
use cif_api.Code.{Code, Result, ok, err, invalid_itemname, nosuch_item, ◌>>=◌}
use cif_api.Icu.{Icu}
use cif_api.Names.Valid.{normalize_item_name}
use cif_api.Hash.{Entry, Uthash}
use cif_api.Map.{CifMap, Argument, get_keys, set_item, retrieve_item}
use cif_api.Value.{Value, unk, clone}

-- `cif_normalize_item_name` as the normalizer of a map.
abbrev pub item_normalizer : Icu → UString → Code → Result UString
item_normalizer icu name code = do
  normalized ← normalize_item_name icu (some name) none code
  ok normalized.content

module _ (icu : Icu) (hash : Uthash Value) where
  -- The loop that normalizes the names, up to the first one that is refused.
  unfoldable pub normalize_all : List UString → Result (List UString)
  normalize_all [] = ok []
  normalize_all (name ∷ names) = do
    name_norm ← item_normalizer icu name invalid_itemname
    rest ← normalize_all names
    ok (name_norm ∷ rest)

  -- The loop of `cif_packet_create_norm`, and the packet that it fills: `key_orig` is the pointer
  -- to `key`.
  unfoldable pub add_scalars : List (Entry Value) → List UString → List (Entry Value)
  add_scalars head [] = head
  add_scalars head (name ∷ names) =
      add_scalars
        (hash.add head (record { key = name; key_orig = name; shared = true; as_value = unk }))
        names

  unfoldable pub packet_create_norm : List UString → Bool → CifMap Value
  unfolding add_scalars
  packet_create_norm names avoid_aliasing = record {
    head = add_scalars [] names;
    is_standalone = avoid_aliasing;
    normalizer = item_normalizer icu;
  }

  -- "assign the original item names"
  unfoldable pub assign_names : List UString → List (Entry Value) → List (Entry Value)
  assign_names [] head = head
  assign_names (name ∷ names) [] = []
  assign_names (name ∷ names) (e ∷ es) =
      (if equals name e.key then e else record e { key_orig = name; shared = false })
      ∷ assign_names names es

  abbrev pub given : Option (List UString) → List UString
  given none = []
  given (some names) = names

  -- `cif_packet_create`; NULL stands for no names.
  unfoldable pub packet_create : Option (List UString) → Result (CifMap Value)
  unfolding normalize_all packet_create_norm assign_names
  packet_create names = do
    names_norm ← normalize_all (given names)
    let packet = packet_create_norm names_norm false
    ok (record packet { head = assign_names (given names) packet.head; is_standalone = true })

  -- `cif_packet_get_names`, `cif_packet_set_item`, `cif_packet_get_item`, `cif_packet_remove_item`
  unfoldable pub packet_get_names : CifMap Value → List UString
  packet_get_names packet = get_keys packet.head

  unfoldable pub packet_set_item : CifMap Value → UString → Argument Value → Result (CifMap Value)
  unfolding set_item clone
  packet_set_item packet name value = set_item hash clone unk packet name value invalid_itemname

  unfoldable pub packet_get_item : CifMap Value → UString → Result (Value × CifMap Value)
  unfolding retrieve_item clone
  packet_get_item packet name = retrieve_item hash clone unk packet name false nosuch_item

  unfoldable pub packet_remove_item : CifMap Value → UString → Result (Value × CifMap Value)
  unfolding retrieve_item clone
  packet_remove_item packet name = retrieve_item hash clone unk packet name true nosuch_item
