-- ===== src/Parser/Loops.antt =====
-- Loops in src/parser.c: `parse_loop` and `parse_loop_header`.
use cif_api.Base.{
  ℕ, zero, suc, ◌-◌, Bool, true, false, Option, none, some, List, [], ◌∷◌, UString, if◌then◌else◌,
}
use cif_api.Code.{
  Code, Result, ok, err, null_loop, nosuch_item, dup_itemname, invalid_itemname, internal_error,
}
use cif_api.Icu.{Icu}
use cif_api.Hash.{Uthash}
use cif_api.Value.{Value}
use cif_api.Walk.{Flow}
use cif_api.Scanner.Classes.{Dialect}
use cif_api.Scanner.State.{Scanner, Callback, TokenType, raise, consume_token, dataname}
use cif_api.Scanner.Decode.{Protocols}
use cif_api.Scanner.Tokens.{tvalue}
use cif_api.Parser.Storage.{Storage, Handlers}
use cif_api.Parser.World.{
  ended, failed, Step, ◌>>=◌, ◌>>◌, pure, halt, exhausted, look, update, act, ask, call, set_skip,
  is_skipping, deeper, higher, directed, next, raise_token,
}
use cif_api.Parser.Packets.{kept_names, parse_loop_packets}

abbrev pub is_name : TokenType → Bool
is_name TokenType.name = true
is_name _ = false

-- The optional call of `dataname_callback`
abbrev pub tell_name : Scanner → Scanner
tell_name s = record s { reports = dataname s.line s.column (tvalue s) ∷ s.reports }

-- "check for data name duplication"; NULL stands for a duplicate.
module _ {Store Container Loop : Type 0} (storage : Storage Store Container Loop)
    (handlers : Handlers Store Container Loop) (icu : Icu) (hash : Uthash Value)
    (callback : Callback) (d : Dialect) (p : Protocols) (unset : ℕ → Bool) where
  unfoldable pub checked_name : UString → Option Code → Step Store (Option UString)
  checked_name name none = raise_token callback d dup_itemname >> pure none
  checked_name name (some nosuch_item) = pure (some name)
  checked_name name (some code) = halt (failed code)

  abbrev pub header_name : Option Container → UString → Step Store (Option UString)
  header_name none name = pure (some name)
  header_name (some container) name =
      ask (storage.get_item_loop container name) >>= checked_name name

  -- `parse_loop_header`, a round for each name
  unfoldable pub parse_loop_header : ℕ → Option Container → Step Store (List (Option UString))
  unfolding checked_name
  parse_loop_header zero container = exhausted
  parse_loop_header (suc fuel) container = next callback d >> look >>= λ s.
      let a_name =
        update (λ t. if is_skipping t then t else tell_name t)
        >> header_name container (tvalue s)
        >>= λ name. update consume_token >> parse_loop_header fuel container >>= λ names.
            pure (name ∷ names) in
      if is_name s.ttype then a_name else pure []

  -- The loop that is made; only `CIF_NULL_LOOP` is tolerated.
  unfoldable pub made_loop : Result Loop → Step Store (Option Loop)
  made_loop (ok loop) = pure (some loop)
  made_loop (err null_loop) = pure none
  made_loop (err invalid_itemname) = halt (failed internal_error)
  made_loop (err dup_itemname) = halt (failed internal_error)
  made_loop (err code) = halt (failed code)

  abbrev pub make_loop : Option Container → Option UString → List UString → Step Store (Option Loop)
  make_loop none category names = pure none
  make_loop (some container) category names =
      ask (storage.create_loop container category names) >>= made_loop

  -- An error code of the handler is dropped.
  unfoldable pub start_loop :
      Option Container → List UString → Flow × Option UString → Step Store (Option Loop)
  unfolding made_loop
  start_loop container names (Flow.continue, category) = make_loop container category names
  start_loop container names (Flow.skip_current, category) = set_skip 1 >> pure none
  start_loop container names (Flow.skip_siblings, category) = set_skip 2 >> pure none
  start_loop container names (Flow.stop, category) = halt ended
  start_loop container names (Flow.code c, category) = pure none

  -- "this loop is not being skipped"
  abbrev pub open_loop : Option Container → List UString → Step Store (Option Loop)
  open_loop container names = look >>= λ s.
      if is_skipping s
      then pure none
      else (call (handlers.loop_start container names) >>= start_loop container names)

  unfoldable pub end_loop : Option Loop → Step Store (Unit {0})
  end_loop loop = look >>= λ s.
      if is_skipping s
      then update higher
      else (call (handlers.loop_end loop) >>= λ flow.
          directed flow (pure tt) (pure tt) (set_skip 1))

  -- What follows the header
  unfoldable pub loop_body : ℕ → Option Container → List (Option UString) → Step Store (Option Loop)
  unfolding parse_loop_packets start_loop kept_names
  loop_body fuel container [] =
      act (λ s. raise callback null_loop (s.column - s.tvalue_length) [] s) >> pure none
  loop_body fuel container (name ∷ names) =
      open_loop container (kept_names (name ∷ names)) >>= λ loop.
      parse_loop_packets storage handlers icu hash callback d p unset loop (name ∷ names) fuel
      >> pure loop

  -- `parse_loop`
  unfoldable pub parse_loop : ℕ → Option Container → Step Store (Unit {0})
  unfolding parse_loop_header loop_body end_loop
  parse_loop fuel container = update deeper >> parse_loop_header fuel container >>= λ names.
      loop_body fuel container names >>= end_loop
