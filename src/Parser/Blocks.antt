-- ===== src/Parser/Blocks.antt =====
-- A whole CIF in src/parser.c: `parse_cif`.
use cif_api.Base.{
  ℕ, zero, suc, Bool, true, false, not, ◌&&◌, Option, none, some, [], UString, if◌then◌else◌,
}
use cif_api.Code.{Code, Result, ok, err, invalid_blockcode, dup_blockcode, no_block_header}
use cif_api.Icu.{Icu}
use cif_api.Hash.{Uthash}
use cif_api.Value.{Value, ℤ}
use cif_api.Scanner.Classes.{Dialect}
use cif_api.Scanner.State.{Scanner, Callback, TokenType, consume_token}
use cif_api.Scanner.Decode.{Protocols}
use cif_api.Scanner.Tokens.{tvalue}
use cif_api.Parser.Storage.{Storage, Handlers}
use cif_api.Parser.World.{
  ended, failed, Outcome, halted, going, Step, ◌>>=◌, ◌>>◌, pure, halt, exhausted, of_result, look,
  update, ask, call, set_skip, is_skipping, higher, directed, next, raise_token,
}
use cif_api.Parser.Containers.{parse_container}

module _ {Store Container Loop : Type 0} (storage : Storage Store Container Loop)
    (handlers : Handlers Store Container Loop) (icu : Icu) (hash : Uthash Value)
    (callback : Callback) (d : Dialect) (p : Protocols) (unset : ℕ → Bool) (max_frame_depth : ℤ)
    (has_cif : Bool) where
  -- "recover by using the existing block", or the block that was made
  unfoldable pub made_block : UString → Result Container → Step Store Container
  made_block code (ok block) = pure block
  made_block code (err dup_blockcode) =
      raise_token callback d dup_blockcode >> (ask (storage.get_block code) >>= of_result)
  made_block code (err other) = halt (failed other)

  -- "recover by using the block code anyway"
  unfoldable pub open_block : UString → Result Container → Step Store Container
  unfolding made_block
  open_block code (err invalid_blockcode) =
      raise_token callback d invalid_blockcode
      >> (ask (storage.create_block code true) >>= made_block code)
  open_block code made = made_block code made

  -- "an anonymous block context to eat up the content", or the one that there is
  unfoldable pub anonymous_block : Result Container → Step Store Container
  anonymous_block (ok block) = pure block
  anonymous_block (err dup_blockcode) = ask (storage.get_block []) >>= of_result
  anonymous_block (err other) = halt (failed other)

  -- Whether blocks are stored now
  abbrev pub stores : Scanner → Bool
  stores s = has_cif && not (is_skipping s)

  -- The switch of `parse_cif`: the block that comes, NULL where nothing is stored, or the end.
  unfoldable pub block_step : TokenType → Step Store (Option (Option Container))
  unfolding open_block anonymous_block
  block_step TokenType.block_head = look >>= λ s.
      (if stores s
        then (ask (storage.create_block (tvalue s) false) >>= open_block (tvalue s) >>= λ block.
            pure (some block))
        else pure none)
      >>= λ block. update consume_token >> pure (some block)
  block_step TokenType.end = pure none
  block_step _ = raise_token callback d no_block_header >> look >>= λ s.
      (if stores s
        then (ask (storage.create_block [] true) >>= anonymous_block >>= λ block. pure (some block))
        else pure none)
      >>= λ block. pure (some block)

  abbrev pub with_block :
      (Option Container → Step Store (Unit {0})) → Option (Option Container) → Step Store (Unit {0})
  with_block rest none = pure tt
  with_block rest (some block) = rest block

  -- The loop of `parse_cif`
  unfoldable pub cif_loop : ℕ → Step Store (Unit {0})
  unfolding block_step
  cif_loop zero = exhausted
  cif_loop (suc fuel) = next callback d >> look >>= λ s.
      block_step s.ttype
      >>= with_block λ block.
        parse_container storage handlers icu hash callback d p unset max_frame_depth fuel block true
        >> cif_loop fuel

  -- `parse_cif`
  unfoldable pub parse_cif : ℕ → Step Store (Unit {0})
  unfolding cif_loop
  parse_cif fuel = call handlers.cif_start >>= λ flow.
      directed flow (pure tt) (set_skip 1) (set_skip 1)
      >> cif_loop fuel
      >> update higher
      >> call handlers.cif_end
      >>= λ flow. directed flow (pure tt) (pure tt) (pure tt)

  -- The code that is returned in the end: "codes less than 0 are interpreted as CIF traversal
  -- navigation signals".
  abbrev pub result_of : Outcome Store (Unit {0}) → Option Code × Store
  result_of (halted ended st) = (none, st)
  result_of (halted (failed code) st) = (some code, st)
  result_of (going a w) = (none, w.store)
