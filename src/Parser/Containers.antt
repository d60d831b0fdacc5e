-- ===== src/Parser/Containers.antt =====
-- Data blocks and save frames in src/parser.c: `parse_container` and `parse_cif`.
use cif_api.Base.{
  ℕ, zero, suc, ◌+◌, ◌-◌, Bool, true, false, not, ◌&&◌, Option, none, some, [], ◌∷◌, UString,
  length, if◌then◌else◌,
}
use cif_api.Code.{
  Code, Result, ok, err, unexpected_delim, unexpected_value, unexpected_term, no_frame_term,
  frame_not_allowed, eof_in_frame, nosuch_item, dup_itemname, invalid_framecode, dup_framecode,
  internal_error,
}
use cif_api.Icu.{Icu}
use cif_api.Hash.{Uthash}
use cif_api.Value.{Value, ℤ}
use cif_api.Scanner.Classes.{Dialect}
use cif_api.Scanner.State.{Scanner, Callback, TokenType, raise, consume_token, keyword, fault}
use cif_api.Scanner.Decode.{Protocols}
use cif_api.Scanner.Tokens.{tvalue}
use cif_api.Parser.Storage.{Storage, Handlers}
use cif_api.Parser.World.{
  failed, Step, ◌>>=◌, ◌>>◌, pure, halt, exhausted, of_result, of_code, look, update, act, ask,
  call, set_skip, is_skipping, deeper, higher, directed, next, raise_token, raise_colon,
  push_back_colon,
}
use cif_api.Parser.Items.{parse_item}
use cif_api.Parser.Loops.{parse_loop, tell_name}

-- `max_frame_depth`, whose values are 0, 1 and any other
abbrev pub no_frames : ℤ → Bool
no_frames (ℤ.pos zero) = true
no_frames _ = false

abbrev pub one_level : ℤ → Bool
one_level (ℤ.pos (suc zero)) = true
one_level _ = false

-- An optional call of `keyword_callback`
abbrev pub tell_keyword : Scanner → Scanner
tell_keyword s = record s { reports = keyword s.line s.column (tvalue s) ∷ s.reports }

module _ {Store Container Loop : Type 0} (storage : Storage Store Container Loop)
    (handlers : Handlers Store Container Loop) (icu : Icu) (hash : Uthash Value)
    (callback : Callback) (d : Dialect) (p : Protocols) (unset : ℕ → Bool)
    (max_frame_depth : ℤ) where
  abbrev pub an_item : Option Container → Option UString → Step Store (Unit {0})
  an_item = parse_item storage handlers icu hash callback d p

  -- A call of `parse_loop`, with fuel that is enough
  abbrev pub a_loop : Option Container → Step Store (Unit {0})
  a_loop container w =
      parse_loop storage handlers icu hash callback d p unset
        (length w.scanner.back + length w.input + 1) container w

  -- "recover by using the existing frame", or the frame that was made
  unfoldable pub made_frame : Container → UString → Result Container → Step Store Container
  made_frame container code (ok frame) = pure frame
  made_frame container code (err dup_framecode) =
      raise_token callback d dup_framecode >> (ask (storage.get_frame container code) >>= of_result)
  made_frame container code (err other) = halt (failed other)

  -- "recover by using the frame code anyway"
  unfoldable pub open_frame : Container → UString → Result Container → Step Store Container
  unfolding made_frame
  open_frame container code (err invalid_framecode) =
      raise_token callback d invalid_framecode
      >> (ask (storage.create_frame container code true) >>= made_frame container code)
  open_frame container code made = made_frame container code made

  -- What comes of the head of a frame: it is left to the container around, or there is a frame,
  -- which is NULL where nothing is stored.
  unfoldable pub new_frame : Container → Step Store (Option Container)
  unfolding open_frame
  new_frame container = look >>= λ s.
      ask (storage.create_frame container (tvalue s) false)
      >>= open_frame container (tvalue s)
      >>= λ frame. pure (some frame)

  -- Where frames are not permitted, the result of `error_callback` in a data block is overwritten.
  abbrev pub report_frame : Step Store (Unit {0})
  report_frame = update λ s. record s {
    reports = fault frame_not_allowed s.line (s.column - s.tvalue_length) (tvalue s) ∷ s.reports;
  }

  abbrev pub enter_frame :
      (Option Container → Step Store (Unit {0})) → Step Store (Option Container) → Step Store Bool
  enter_frame nested opened = opened >>= λ frame. update consume_token >> nested frame >> pure true

  -- The head of a frame; `nested` is `parse_container` for it.
  unfoldable pub frame_step :
      (Option Container → Step Store (Unit {0})) → Option Container → Bool → Step Store Bool
  unfolding new_frame
  frame_step nested none is_block = enter_frame nested (pure none)
  frame_step nested (some container) is_block = look >>= λ s.
      if is_skipping s
      then enter_frame nested (pure none)
      else if no_frames max_frame_depth
      then (if is_block
          then enter_frame nested (report_frame >> new_frame container)
          else (raise_token callback d frame_not_allowed >> pure false))
      else if one_level max_frame_depth && not is_block
      then (raise_token callback d no_frame_term >> pure false)
      else enter_frame nested (new_frame container)

  -- "check for dupes"
  unfoldable pub checked_item : Option Container → UString → Option Code → Step Store (Unit {0})
  checked_item container name none = raise_token callback d dup_itemname >> an_item container none
  checked_item container name (some nosuch_item) = an_item container (some name)
  checked_item container name (some code) = halt (failed code)

  abbrev pub find_item : Option Container → UString → Step Store (Option Code)
  find_item none name = pure (some nosuch_item)
  find_item (some container) name = ask (storage.get_item_loop container name)

  unfoldable pub name_step : Option Container → Step Store (Unit {0})
  unfolding checked_item
  name_step container = look >>= λ s.
      if is_skipping s
      then (update consume_token >> an_item container none)
      else (update tell_name
          >> update consume_token
          >> find_item container (tvalue s)
          >>= checked_item container (tvalue s))

  -- "recover by consuming and discarding the value"
  unfoldable pub stray_value : Option Container → Step Store Bool
  stray_value container =
      act (λ s. raise callback unexpected_value (1 + s.column - s.tvalue_length) (tvalue s) s)
      >> an_item container none
      >> pure true

  -- The switch of `parse_container` over the token: whether the container goes on.
  unfoldable pub container_step :
      (Option Container → Step Store (Unit {0}))
      → Option Container
      → Bool
      → TokenType
      → Step Store Bool
  unfolding frame_step name_step stray_value
  container_step nested container is_block TokenType.block_head =
      (if is_block then pure tt else raise_token callback d no_frame_term) >> pure false
  container_step nested container is_block TokenType.frame_head =
      frame_step nested container is_block
  container_step nested container is_block TokenType.frame_term =
      update consume_token
      >> (if is_block then (raise_token callback d unexpected_term >> pure true) else pure false)
  container_step nested container is_block TokenType.loopkw =
      update (λ s. if is_skipping s then s else tell_keyword s)
      >> update consume_token
      >> a_loop container
      >> pure true
  container_step nested container is_block TokenType.name = name_step container >> pure true
  container_step nested container is_block TokenType.tkey =
      raise_colon callback d >> push_back_colon callback d TokenType.tvalue >> stray_value container
  container_step nested container is_block TokenType.key =
      raise_colon callback d >> push_back_colon callback d TokenType.qvalue >> stray_value container
  container_step nested container is_block TokenType.tvalue = stray_value container
  container_step nested container is_block TokenType.qvalue = stray_value container
  container_step nested container is_block TokenType.value = stray_value container
  container_step nested container is_block TokenType.olist = stray_value container
  container_step nested container is_block TokenType.otable = stray_value container
  container_step nested container is_block TokenType.ctable =
      raise_token callback d unexpected_delim >> update consume_token >> pure true
  container_step nested container is_block TokenType.clist =
      raise_token callback d unexpected_delim >> update consume_token >> pure true
  container_step nested container is_block TokenType.end =
      (if is_block then pure tt else act (λ s. raise callback eof_in_frame s.column [] s))
      >> pure false
  container_step nested container is_block TokenType.error = halt (failed internal_error)

  -- Before the loop over the tokens, and behind it
  unfoldable pub enter_container : Option Container → Bool → Step Store (Unit {0})
  enter_container container is_block = look >>= λ s.
      if is_skipping s
      then update deeper
      else (call (handlers.container_start is_block container) >>= λ flow.
          directed flow (pure tt) (set_skip 1) (set_skip 2))

  abbrev pub prune : Option Container → Step Store (Unit {0})
  prune none = pure tt
  prune (some container) = ask (storage.prune container) >>= of_code

  unfoldable pub leave_container : Option Container → Bool → Step Store (Unit {0})
  leave_container container is_block = update higher >> look >>= λ s.
      if is_skipping s
      then pure tt
      else (prune container >> call (handlers.container_end is_block container) >>= λ flow.
          directed flow (pure tt) (pure tt) (set_skip 1))

  -- The loop of `parse_container`. A frame inside has one round less.
  unfoldable pub container_loop : ℕ → Option Container → Bool → Step Store (Unit {0})
  unfolding container_step enter_container leave_container
  container_loop zero container is_block = exhausted
  container_loop (suc fuel) container is_block =
      let nested = λ (frame : Option Container).
        enter_container frame false
        >> container_loop fuel frame false
        >> leave_container frame false in
      let rest = container_loop fuel container is_block in
      next callback d >> look >>= λ s.
      container_step nested container is_block s.ttype >>= λ more. if more then rest else pure tt

  -- `parse_container`
  unfoldable pub parse_container : ℕ → Option Container → Bool → Step Store (Unit {0})
  unfolding container_loop
  parse_container fuel container is_block =
      enter_container container is_block
      >> container_loop fuel container is_block
      >> leave_container container is_block
