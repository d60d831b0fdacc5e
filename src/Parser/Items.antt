-- ===== src/Parser/Items.antt =====
-- `parse_item` of src/parser.c: the value behind a data name, or one that is dropped.
use cif_api.Base.{◌+◌, ◌*◌, Option, none, some, UString, length}
use cif_api.Code.{Result, missing_value}
use cif_api.Icu.{Icu}
use cif_api.Hash.{Uthash}
use cif_api.Value.{Value, unk}
use cif_api.Scanner.Classes.{Dialect}
use cif_api.Scanner.State.{Callback, TokenType}
use cif_api.Scanner.Decode.{Protocols}
use cif_api.Parser.Run.{Run}
use cif_api.Parser.Values.{Parsed, parse_value}
use cif_api.Parser.Storage.{Storage, Handlers}
use cif_api.Parser.World.{
  failed, halted, going, Step, ◌>>=◌, ◌>>◌, pure, of_code, look, update, ask, call, set_skip,
  deeper, higher, directed, next, raise_token, raise_colon, push_back_colon,
}

module _ {Store Container Loop : Type 0} (storage : Storage Store Container Loop)
    (handlers : Handlers Store Container Loop) (icu : Icu) (hash : Uthash Value)
    (callback : Callback) (d : Dialect) (p : Protocols) where
  abbrev pub parsed : Run Parsed → Step Store Value
  parsed none w = none
  parsed (some (Result.err code)) w = some (halted (failed code) w.store)
  parsed (some (Result.ok (v, s, cs))) w = some (going v (record w { scanner = s; input = cs }))

  -- A call of `parse_value`, with fuel that is enough
  abbrev pub a_value : Step Store Value
  a_value w =
      parsed
        (parse_value icu hash callback d p (3 * (length w.scanner.back + length w.input) + 1)
          w.scanner w.input)
        w

  -- The switch over the token; "recover by inserting a synthetic unknown value".
  unfoldable pub item_value : TokenType → Step Store Value
  item_value TokenType.tkey =
      raise_colon callback d >> push_back_colon callback d TokenType.tvalue >> a_value
  item_value TokenType.key =
      raise_colon callback d >> push_back_colon callback d TokenType.qvalue >> a_value
  item_value TokenType.olist = a_value
  item_value TokenType.otable = a_value
  item_value TokenType.tvalue = a_value
  item_value TokenType.qvalue = a_value
  item_value TokenType.value = a_value
  item_value _ = raise_token callback d missing_value >> pure unk

  -- The handler decides whether the item is stored.
  unfoldable pub store_item : Option Container → Option UString → Value → Step Store (Unit {0})
  store_item (some container) (some name) value = call (handlers.item (some name) value) >>= λ flow.
      directed flow (ask (storage.set_value container name value) >>= of_code) (pure tt)
        (set_skip 2)
  store_item _ _ value = pure tt

  -- `parse_item`
  unfoldable pub parse_item : Option Container → Option UString → Step Store (Unit {0})
  unfolding item_value store_item
  parse_item container name = next callback d >> update deeper >> look >>= λ s.
      item_value s.ttype >>= λ value. store_item container name value >> update higher
