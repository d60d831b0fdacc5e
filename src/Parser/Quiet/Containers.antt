-- ===== src/Parser/Quiet/Containers.antt =====
-- Blocks and frames in src/parser.c that are not stored, and a CIF that is only checked, leave the
-- storage as it is.
use cif_api.Base.{
  ℕ, zero, suc, ◌+◌, ◌-◌, Bool, true, false, Option, none, some, [], UString, length, if◌then◌else◌,
}
use cif_api.Code.{
  Code, nosuch_item, unexpected_delim, dup_itemname, no_frame_term, eof_in_frame, unexpected_term,
  unexpected_value, internal_error,
}
use cif_api.Icu.{Icu}
use cif_api.Hash.{Uthash}
use cif_api.Value.{Value, ℤ}
use cif_api.Scanner.Classes.{Dialect}
use cif_api.Scanner.State.{Callback, TokenType, raise, consume_token}
use cif_api.Scanner.Tokens.{tvalue}
use cif_api.Scanner.Decode.{Protocols}
use cif_api.Parser.Storage.{Storage, Handlers}
use cif_api.Parser.World.{
  failed, Step, ◌>>◌, pure, update, is_skipping, deeper, higher, raise_token, raise_colon,
  push_back_colon,
}
use cif_api.Parser.Quiet.{
  IsReading, Quiet, Quiet->>=, Quiet-if, pure-Quiet, halt-Quiet, exhausted-Quiet, look-Quiet,
  update-Quiet, Quiet-directed, act-Quiet, call-Quiet, next-Quiet, raise_token-Quiet,
  raise_colon-Quiet, push_back_colon-Quiet,
}
use cif_api.Parser.Quiet.Items.{parse_item-Quiet}
use cif_api.Parser.Containers.{
  tell_keyword, a_loop, frame_step, checked_item, name_step, stray_value, container_step,
  enter_container, leave_container, container_loop, parse_container,
}
use cif_api.Parser.Loops.{tell_name}
use cif_api.Parser.Quiet.Loops.{parse_loop-Quiet}

module _ {Store Container Loop : Type 0} (storage : Storage Store Container Loop)
    (handlers : Handlers Store Container Loop) (icu : Icu) (hash : Uthash Value)
    (callback : Callback) (d : Dialect) (p : Protocols) (unset : ℕ → Bool) (max_frame_depth : ℤ)
    (reads : IsReading handlers) where
  a_loop-Quiet : Quiet (a_loop storage handlers icu hash callback d p unset max_frame_depth none)
  a_loop-Quiet = record {
    unchanged = λ w.
        (parse_loop-Quiet storage handlers icu hash callback d p unset reads
            (length w.scanner.back + length w.input + 1)).unchanged
          w;
  }

  checked_item-Quiet :
      (name : UString) (code : Option Code)
      → Quiet
          (checked_item storage handlers icu hash callback d p unset max_frame_depth none name code)
  unfolding checked_item
  checked_item-Quiet name none =
      Quiet->>= (raise_token-Quiet callback d dup_itemname)
        λ _. parse_item-Quiet storage handlers icu hash callback d p none
  checked_item-Quiet name (some nosuch_item) =
      parse_item-Quiet storage handlers icu hash callback d p (some name)
  checked_item-Quiet name (some code) = halt-Quiet (failed code)

  name_step-Quiet :
      Quiet (name_step storage handlers icu hash callback d p unset max_frame_depth none)
  unfolding name_step
  name_step-Quiet = Quiet->>= look-Quiet λ s.
      Quiet-if (is_skipping s)
        (Quiet->>= (update-Quiet consume_token)
          λ _. parse_item-Quiet storage handlers icu hash callback d p none)
        (Quiet->>=
          (Quiet->>= (Quiet->>= (update-Quiet tell_name) λ _. update-Quiet consume_token)
            λ _. pure-Quiet (some nosuch_item))
          (checked_item-Quiet (tvalue s)))

  stray_value-Quiet :
      Quiet (stray_value storage handlers icu hash callback d p unset max_frame_depth none)
  unfolding stray_value
  stray_value-Quiet =
      Quiet->>=
        (Quiet->>=
          (act-Quiet
            λ s. raise callback unexpected_value (1 + s.column - s.tvalue_length) (tvalue s) s)
          λ _. parse_item-Quiet storage handlers icu hash callback d p none)
        λ _. pure-Quiet true

  colon_value-Quiet :
      (alt : TokenType)
      → Quiet (
          raise_colon callback d
          >> push_back_colon callback d alt
          >> stray_value storage handlers icu hash callback d p unset max_frame_depth none)
  colon_value-Quiet alt =
      Quiet->>= (Quiet->>= (raise_colon-Quiet callback d) λ _. push_back_colon-Quiet callback d alt)
        λ _. stray_value-Quiet

  dropped-Quiet :
      Quiet {Store = Store}
        (raise_token callback d unexpected_delim >> update consume_token >> pure true)
  dropped-Quiet =
      Quiet->>=
        (Quiet->>= (raise_token-Quiet callback d unexpected_delim) λ _. update-Quiet consume_token)
        λ _. pure-Quiet true

  container_step-Quiet :
      (nested : Option Container → Step Store (Unit {0})) (is_block : Bool) (t : TokenType)
      → Quiet (nested none)
      → Quiet (
          container_step storage handlers icu hash callback d p unset max_frame_depth nested none
            is_block t)
  unfolding container_step frame_step
  container_step-Quiet nested is_block TokenType.block_head q =
      Quiet->>= (Quiet-if is_block (pure-Quiet tt) (raise_token-Quiet callback d no_frame_term))
        λ _. pure-Quiet false
  container_step-Quiet nested is_block TokenType.frame_head q = record {
    unchanged = λ w.
        (Quiet->>= (Quiet->>= (update-Quiet consume_token) λ _. q) λ _. pure-Quiet true).unchanged
          w;
  }
  container_step-Quiet nested is_block TokenType.frame_term q =
      Quiet->>= (update-Quiet consume_token) λ _.
        Quiet-if is_block
          (Quiet->>= (raise_token-Quiet callback d unexpected_term) λ _. pure-Quiet true)
          (pure-Quiet false)
  container_step-Quiet nested is_block TokenType.loopkw q =
      Quiet->>=
        (Quiet->>=
          (Quiet->>= (update-Quiet λ s. if is_skipping s then s else tell_keyword s)
            λ _. update-Quiet consume_token)
          λ _. a_loop-Quiet)
        λ _. pure-Quiet true
  container_step-Quiet nested is_block TokenType.name q =
      Quiet->>= name_step-Quiet λ _. pure-Quiet true
  container_step-Quiet nested is_block TokenType.tkey q = colon_value-Quiet TokenType.tvalue
  container_step-Quiet nested is_block TokenType.key q = colon_value-Quiet TokenType.qvalue
  container_step-Quiet nested is_block TokenType.tvalue q = stray_value-Quiet
  container_step-Quiet nested is_block TokenType.qvalue q = stray_value-Quiet
  container_step-Quiet nested is_block TokenType.value q = stray_value-Quiet
  container_step-Quiet nested is_block TokenType.olist q = stray_value-Quiet
  container_step-Quiet nested is_block TokenType.otable q = stray_value-Quiet
  container_step-Quiet nested is_block TokenType.ctable q = dropped-Quiet
  container_step-Quiet nested is_block TokenType.clist q = dropped-Quiet
  container_step-Quiet nested is_block TokenType.end q =
      Quiet->>=
        (Quiet-if is_block (pure-Quiet tt)
          (act-Quiet λ s. raise callback eof_in_frame s.column [] s))
        λ _. pure-Quiet false
  container_step-Quiet nested is_block TokenType.error q = halt-Quiet (failed internal_error)

  enter_container-Quiet :
      (is_block : Bool)
      → Quiet (
          enter_container storage handlers icu hash callback d p unset max_frame_depth none
            is_block)
  unfolding enter_container
  enter_container-Quiet is_block = Quiet->>= look-Quiet λ s.
      Quiet-if (is_skipping s) (update-Quiet deeper) (
        Quiet->>=
          (call-Quiet (handlers.container_start is_block none)
            (reads.container_start_reads is_block none))
          λ flow.
            Quiet-directed flow (pure-Quiet tt) (update-Quiet λ s. record s { skip_depth = 1 })
              (update-Quiet λ s. record s { skip_depth = 2 }))

  leave_container-Quiet :
      (is_block : Bool)
      → Quiet (
          leave_container storage handlers icu hash callback d p unset max_frame_depth none
            is_block)
  unfolding leave_container
  leave_container-Quiet is_block = Quiet->>= (Quiet->>= (update-Quiet higher) λ _. look-Quiet) λ s.
      Quiet-if (is_skipping s) (pure-Quiet tt) (
        Quiet->>=
          (Quiet->>= (pure-Quiet tt) λ _.
            call-Quiet (handlers.container_end is_block none)
              (reads.container_end_reads is_block none))
          λ flow.
            Quiet-directed flow (pure-Quiet tt) (pure-Quiet tt)
              (update-Quiet λ s. record s { skip_depth = 1 }))

  container_loop-Quiet :
      (fuel : ℕ) (is_block : Bool)
      → Quiet (
          container_loop storage handlers icu hash callback d p unset max_frame_depth fuel none
            is_block)
  unfolding container_loop
  container_loop-Quiet zero is_block = exhausted-Quiet
  container_loop-Quiet (suc fuel) is_block =
      Quiet->>= (Quiet->>= (next-Quiet callback d) λ _. look-Quiet) λ s.
        Quiet->>=
          (container_step-Quiet
            (λ frame.
              enter_container storage handlers icu hash callback d p unset max_frame_depth frame
                false
              >> container_loop storage handlers icu hash callback d p unset max_frame_depth fuel
                  frame false
              >> leave_container storage handlers icu hash callback d p unset max_frame_depth frame
                  false)
            is_block s.ttype
            (Quiet->>=
              (Quiet->>= (enter_container-Quiet false) λ _. container_loop-Quiet fuel false)
              λ _. leave_container-Quiet false))
          λ more. Quiet-if more (container_loop-Quiet fuel is_block) (pure-Quiet tt)

  pub parse_container-Quiet :
      (fuel : ℕ) (is_block : Bool)
      → Quiet (
          parse_container storage handlers icu hash callback d p unset max_frame_depth fuel none
            is_block)
  unfolding parse_container
  parse_container-Quiet fuel is_block =
      Quiet->>= (Quiet->>= (enter_container-Quiet is_block) λ _. container_loop-Quiet fuel is_block)
        λ _. leave_container-Quiet is_block
