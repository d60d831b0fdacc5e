-- ===== src/Parser/Packets.antt =====
-- The packets of a loop in src/parser.c: `parse_loop_packets`.
use cif_api.Base.{
  ℕ, zero, suc, ◌+◌, ◌-◌, ◌%◌, Bool, true, false, Option, none, some, List, [], ◌∷◌, UString,
  length, drop, ltb, ◌==◌, if◌then◌else◌, get_or,
}
use cif_api.Code.{
  Result, ok, err, missing_space, unexpected_delim, partial_packet, empty_loop, nosuch_item,
  internal_error,
}
use cif_api.Icu.{Icu}
use cif_api.Hash.{Uthash}
use cif_api.Map.{CifMap, modify}
use cif_api.Packet.{packet_create, packet_get_item}
use cif_api.Value.{Value, unk}
use cif_api.Walk.{Flow}
use cif_api.Scanner.Classes.{Dialect}
use cif_api.Scanner.State.{Callback, TokenType, raise, consume_token}
use cif_api.Scanner.Decode.{Protocols}
use cif_api.Parser.Storage.{Storage, Handlers}
use cif_api.Parser.World.{
  ended, failed, Step, ◌>>=◌, ◌>>◌, pure, halt, exhausted, of_result, of_code, look, update, act,
  ask, call, set_skip, is_skipping, deeper, higher, directed, next, raise_token, push_back_colon,
}
use cif_api.Parser.Items.{a_value}

-- A packet that is being read: `column_index`, and `have_packets`
pub record Row : Type 0 where
  pub packet : CifMap Value
  pub column_index : ℕ
  pub have_packets : Bool

-- The names of the header that are not NULL
unfoldable pub kept_names : List (Option UString) → List UString
kept_names [] = []
kept_names (none ∷ names) = kept_names names
kept_names (some name ∷ names) = name ∷ kept_names names

-- A write through the pointer that `cif_packet_get_item` gave for a column
unfoldable pub put_column : CifMap Value → Option UString → Value → CifMap Value
put_column packet none value = packet
put_column packet (some name) value = elim (packet.normalizer name nosuch_item) [
  | err code ↦ packet
  | ok key ↦ record packet { head = modify packet.head key (λ e. record e { as_value = value }) }
]

-- `names[column_index] != NULL`: `names` has the kept names and a NULL, and behind them what was in
-- the memory before (`unset`).
unfoldable pub has_name : (ℕ → Bool) → ℕ → ℕ → Bool
has_name unset kept column =
    if ltb column kept then true else if column == kept then false else unset column

module _ {Store Container Loop : Type 0} (storage : Storage Store Container Loop)
    (handlers : Handlers Store Container Loop) (icu : Icu) (hash : Uthash Value)
    (callback : Callback) (d : Dialect) (p : Protocols) (unset : ℕ → Bool) where
  -- "Extract pointers to the packet's values": each name that was kept has one.
  unfoldable pub found_column :
      Step Store (Unit {0}) → Result (Value × CifMap Value) → Step Store (Unit {0})
  found_column rest (ok found) = rest
  found_column rest (err nosuch_item) = halt (failed internal_error)
  found_column rest (err code) = halt (failed code)

  unfoldable pub check_columns : CifMap Value → List (Option UString) → Step Store (Unit {0})
  unfolding found_column
  check_columns packet [] = pure tt
  check_columns packet (none ∷ names) = check_columns packet names
  check_columns packet (some name ∷ names) =
      found_column (check_columns packet names) (packet_get_item icu hash packet name)

  -- "first value of a new packet"; an error code of the handler is dropped.
  unfoldable pub start_packet : Flow → Step Store (Unit {0})
  start_packet Flow.skip_current = set_skip 1
  start_packet Flow.skip_siblings = set_skip 2
  start_packet Flow.stop = halt ended
  start_packet _ = pure tt

  unfoldable pub begin_row : ℕ → Step Store (Unit {0})
  unfolding start_packet
  begin_row zero = look >>= λ s.
      if is_skipping s then update deeper else (call handlers.packet_start >>= start_packet)
  begin_row (suc column) = pure tt

  -- "record the packet, if appropriate"
  abbrev pub record_packet : Option Loop → CifMap Value → Step Store (Unit {0})
  record_packet none packet = pure tt
  record_packet (some loop) packet = ask (storage.add_packet loop packet) >>= of_code

  unfoldable pub end_row : Option Loop → CifMap Value → Step Store (Unit {0})
  end_row loop packet = look >>= λ s.
      if is_skipping s
      then update higher
      else (call (handlers.packet_end packet) >>= λ flow.
          directed flow (record_packet loop packet) (pure tt) (set_skip 1))

  module _ (loop : Option Loop) (names : List (Option UString)) where
    -- A value of the packet
    unfoldable pub value_row : Row → Step Store Row
    unfolding begin_row end_row put_column
    value_row row =
        let name = get_or names row.column_index none in
        let column = (row.column_index + 1) % length names in
        begin_row row.column_index >> a_value storage handlers icu hash callback d p >>= λ value.
        let packet = put_column row.packet name value in
        call (handlers.item name value) >>= λ flow.
        directed flow (pure tt) (pure tt) (set_skip 1)
        >> (if column == 0 then end_row loop packet else pure tt)
        >> pure (record {
          packet = packet;
          column_index = column;
          have_packets = if column == 0 then true else row.have_packets;
        })

    -- "recover by synthesizing unknown values to fill the packet"; the first argument is the rest of
    -- the columns.
    unfoldable pub fill_row : List (Option UString) → ℕ → CifMap Value → CifMap Value
    unfolding put_column has_name
    fill_row [] column packet = packet
    fill_row (name ∷ rest) column packet = fill_row rest (column + 1) (
        if has_name unset (length (kept_names names)) column
        then put_column packet name unk
        else packet)

    -- "any other token type terminates the loop body"
    unfoldable pub finish_rows : Row → Step Store (Unit {0})
    unfolding fill_row kept_names end_row
    finish_rows row =
        if row.column_index == 0
        then (if row.have_packets then pure tt else raise_token callback d empty_loop)
        else (act (λ s. raise callback partial_packet (s.column - s.tvalue_length) [] s)
            >> end_row loop (fill_row (drop row.column_index names) row.column_index row.packet))

    -- The switch over the token: the packet that goes on, or nothing at the end of the loop.
    unfoldable pub row_step : Row → TokenType → Step Store (Option Row)
    unfolding value_row finish_rows
    row_step row TokenType.tkey =
        raise_token callback d missing_space
        >> push_back_colon callback d TokenType.tvalue
        >> value_row row
        >>= λ next_row. pure (some next_row)
    row_step row TokenType.key =
        raise_token callback d missing_space
        >> push_back_colon callback d TokenType.qvalue
        >> value_row row
        >>= λ next_row. pure (some next_row)
    row_step row TokenType.olist = value_row row >>= λ next_row. pure (some next_row)
    row_step row TokenType.otable = value_row row >>= λ next_row. pure (some next_row)
    row_step row TokenType.tvalue = value_row row >>= λ next_row. pure (some next_row)
    row_step row TokenType.qvalue = value_row row >>= λ next_row. pure (some next_row)
    row_step row TokenType.value = value_row row >>= λ next_row. pure (some next_row)
    row_step row TokenType.clist =
        raise_token callback d unexpected_delim >> update consume_token >> pure (some row)
    row_step row TokenType.ctable =
        raise_token callback d unexpected_delim >> update consume_token >> pure (some row)
    row_step row _ = finish_rows row >> pure none

    abbrev pub go_on : (Row → Step Store (Unit {0})) → Option Row → Step Store (Unit {0})
    go_on rest none = pure tt
    go_on rest (some row) = rest row

    -- The loop of `parse_loop_packets`
    unfoldable pub read_rows : ℕ → Row → Step Store (Unit {0})
    unfolding row_step
    read_rows zero row = exhausted
    read_rows (suc fuel) row =
        next callback d >> look >>= λ s. row_step row s.ttype >>= go_on (read_rows fuel)

    -- `parse_loop_packets`
    unfoldable pub parse_loop_packets : ℕ → Step Store (Unit {0})
    unfolding read_rows check_columns
    parse_loop_packets fuel =
        of_result (packet_create icu hash (some (kept_names names))) >>= λ packet.
        check_columns packet names
        >> read_rows fuel (record { packet = packet; column_index = 0; have_packets = false })
