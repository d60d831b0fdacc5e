-- ===== src/Parser/Quiet/Items.antt =====
-- `parse_item` of src/parser.c without a container leaves the storage as it is.
use cif_api.Base.{◌+◌, ◌*◌, Option, none, some, UString, length, refl}
use cif_api.Code.{ok, err, missing_value}
use cif_api.Icu.{Icu}
use cif_api.Hash.{Uthash}
use cif_api.Value.{Value, unk}
use cif_api.Scanner.Classes.{Dialect}
use cif_api.Scanner.State.{Callback, TokenType}
use cif_api.Scanner.Decode.{Protocols}
use cif_api.Parser.Run.{Run}
use cif_api.Parser.Values.{Parsed, parse_value}
use cif_api.Parser.Storage.{Storage, Handlers}
use cif_api.Parser.World.{World, ◌>>◌, deeper, higher, raise_colon, push_back_colon}
use cif_api.Parser.Items.{parsed, a_value, item_value, store_item, parse_item}
use cif_api.Parser.Quiet.{
  Unchanged, Quiet, Quiet->>=, pure-Quiet, look-Quiet, update-Quiet, next-Quiet, raise_token-Quiet,
  raise_colon-Quiet, push_back_colon-Quiet,
}

module _ {Store Container Loop : Type 0} (storage : Storage Store Container Loop)
    (handlers : Handlers Store Container Loop) (icu : Icu) (hash : Uthash Value)
    (callback : Callback) (d : Dialect) (p : Protocols) where
  parsed-Unchanged :
      (o : Run Parsed) (w : World Store)
      → Unchanged w.store (parsed storage handlers icu hash callback d p o w)
  parsed-Unchanged none w = tt
  parsed-Unchanged (some (err code)) w = refl
  parsed-Unchanged (some (ok v)) w = refl

  pub a_value-Quiet : Quiet (a_value storage handlers icu hash callback d p)
  a_value-Quiet = record {
    unchanged = λ w.
        parsed-Unchanged
          (parse_value icu hash callback d p (3 * (length w.scanner.back + length w.input) + 1)
            w.scanner w.input)
          w;
  }

  colon_value-Quiet :
      (alt : TokenType)
      → Quiet (
          raise_colon callback d
          >> push_back_colon callback d alt
          >> a_value storage handlers icu hash callback d p)
  colon_value-Quiet alt =
      Quiet->>= (Quiet->>= (raise_colon-Quiet callback d) λ _. push_back_colon-Quiet callback d alt)
        λ _. a_value-Quiet

  item_value-Quiet : (t : TokenType) → Quiet (item_value storage handlers icu hash callback d p t)
  unfolding item_value
  item_value-Quiet TokenType.tkey = colon_value-Quiet TokenType.tvalue
  item_value-Quiet TokenType.key = colon_value-Quiet TokenType.qvalue
  item_value-Quiet TokenType.olist = a_value-Quiet
  item_value-Quiet TokenType.otable = a_value-Quiet
  item_value-Quiet TokenType.tvalue = a_value-Quiet
  item_value-Quiet TokenType.qvalue = a_value-Quiet
  item_value-Quiet TokenType.value = a_value-Quiet
  item_value-Quiet _ = Quiet->>= (raise_token-Quiet callback d missing_value) λ _. pure-Quiet unk

  -- A value that has no container to go to
  pub parse_item-Quiet :
      (name : Option UString) → Quiet (parse_item storage handlers icu hash callback d p none name)
  unfolding parse_item store_item
  parse_item-Quiet name =
      Quiet->>=
        (Quiet->>= (Quiet->>= (next-Quiet callback d) λ _. update-Quiet deeper) λ _. look-Quiet)
        λ s.
          Quiet->>= (item_value-Quiet s.ttype)
            λ value. Quiet->>= (pure-Quiet tt) λ _. update-Quiet higher
