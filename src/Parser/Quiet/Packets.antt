-- ===== src/Parser/Quiet/Packets.antt =====
-- The packets of a loop in src/parser.c that is not stored leave the storage as it is.
use cif_api.Base.{
  ℕ, zero, suc, ◌+◌, ◌-◌, ◌%◌, ◌==◌, Bool, true, drop, get_or, Option, none, some, List, [], ◌∷◌,
  UString, length, if◌then◌else◌,
}
use cif_api.Code.{
  Result, ok, err, nosuch_item, empty_loop, partial_packet, missing_space, unexpected_delim,
  internal_error,
}
use cif_api.Icu.{Icu}
use cif_api.Hash.{Uthash}
use cif_api.Value.{Value}
use cif_api.Map.{CifMap}
use cif_api.Packet.{packet_create, packet_get_item}
use cif_api.Walk.{Flow}
use cif_api.Scanner.Classes.{Dialect}
use cif_api.Scanner.State.{Callback, TokenType, raise, consume_token}
use cif_api.Scanner.Decode.{Protocols}
use cif_api.Parser.Storage.{Storage, Handlers}
use cif_api.Parser.World.{
  ended, failed, Step, ◌>>=◌, ◌>>◌, pure, update, set_skip, is_skipping, deeper, higher, directed,
  raise_token, push_back_colon,
}
use cif_api.Parser.Quiet.{
  IsReading, Quiet, Quiet->>=, Quiet-if, pure-Quiet, halt-Quiet, exhausted-Quiet, look-Quiet,
  update-Quiet, Quiet-directed, of_result-Quiet, act-Quiet, call-Quiet, next-Quiet,
  raise_token-Quiet, push_back_colon-Quiet,
}
use cif_api.Parser.Quiet.Items.{a_value-Quiet}
use cif_api.Parser.Packets.{
  Row, kept_names, put_column, found_column, check_columns, start_packet, begin_row, end_row,
  value_row, fill_row, finish_rows, row_step, go_on, read_rows, parse_loop_packets,
}

module _ {Store Container Loop : Type 0} (storage : Storage Store Container Loop)
    (handlers : Handlers Store Container Loop) (icu : Icu) (hash : Uthash Value)
    (callback : Callback) (d : Dialect) (p : Protocols) (unset : ℕ → Bool)
    (reads : IsReading handlers) where
  found_column-Quiet :
      (rest : Step Store (Unit {0})) (r : Result (Value × CifMap Value))
      → Quiet rest
      → Quiet (found_column storage handlers icu hash callback d p unset rest r)
  unfolding found_column
  found_column-Quiet rest (ok found) q = q
  found_column-Quiet rest (err nosuch_item) q = halt-Quiet (failed internal_error)
  found_column-Quiet rest (err code) q = halt-Quiet (failed code)

  check_columns-Quiet :
      (packet : CifMap Value) (names : List (Option UString))
      → Quiet (check_columns storage handlers icu hash callback d p unset packet names)
  unfolding check_columns
  check_columns-Quiet packet [] = pure-Quiet tt
  check_columns-Quiet packet (none ∷ names) = check_columns-Quiet packet names
  check_columns-Quiet packet (some name ∷ names) =
      found_column-Quiet _ (packet_get_item icu hash packet name) (check_columns-Quiet packet names)

  start_packet-Quiet :
      (flow : Flow) → Quiet (start_packet storage handlers icu hash callback d p unset flow)
  unfolding start_packet
  start_packet-Quiet Flow.skip_current = update-Quiet λ s. record s { skip_depth = 1 }
  start_packet-Quiet Flow.skip_siblings = update-Quiet λ s. record s { skip_depth = 2 }
  start_packet-Quiet Flow.stop = halt-Quiet ended
  start_packet-Quiet Flow.continue = pure-Quiet tt
  start_packet-Quiet (Flow.code c) = pure-Quiet tt

  begin_row-Quiet :
      (column : ℕ) → Quiet (begin_row storage handlers icu hash callback d p unset column)
  unfolding begin_row
  begin_row-Quiet (suc column) = pure-Quiet tt
  begin_row-Quiet zero = Quiet->>= look-Quiet λ s.
      Quiet-if (is_skipping s) (update-Quiet deeper)
        (Quiet->>= (call-Quiet handlers.packet_start reads.packet_start_reads) start_packet-Quiet)

  -- An answer of a handler that only sets how much is skipped
  pub skipped :
      (flow : Flow) (n : ℕ) → Quiet {Store = Store} (directed flow (pure tt) (pure tt) (set_skip n))
  skipped flow n =
      Quiet-directed flow (pure-Quiet tt) (pure-Quiet tt)
        (update-Quiet λ s. record s { skip_depth = n })

  end_row-Quiet :
      (packet : CifMap Value)
      → Quiet (end_row storage handlers icu hash callback d p unset none packet)
  unfolding end_row
  end_row-Quiet packet = Quiet->>= look-Quiet λ s. Quiet-if (is_skipping s) (update-Quiet higher) (
      Quiet->>= (call-Quiet (handlers.packet_end packet) (reads.packet_end_reads packet))
        λ flow. skipped flow 1)

  module _ (names : List (Option UString)) where
    value_row-Quiet :
        (row : Row) → Quiet (value_row storage handlers icu hash callback d p unset none names row)
    unfolding value_row
    value_row-Quiet row =
        Quiet->>=
          (Quiet->>= (begin_row-Quiet row.column_index)
            λ _. a_value-Quiet storage handlers icu hash callback d p)
          λ value.
            let name = get_or names row.column_index none in
            let column = (row.column_index + 1) % length names in
            Quiet->>= (call-Quiet (handlers.item name value) (reads.item_reads name value)) λ flow.
              Quiet->>=
                (Quiet->>= (skipped flow 1) λ _.
                  Quiet-if (column == 0) (end_row-Quiet (put_column row.packet name value))
                    (pure-Quiet tt))
                λ _. pure-Quiet (record {
                  packet = put_column row.packet name value;
                  column_index = column;
                  have_packets = if column == 0 then true else row.have_packets;
                })

    finish_rows-Quiet :
        (row : Row)
        → Quiet (finish_rows storage handlers icu hash callback d p unset none names row)
    unfolding finish_rows
    finish_rows-Quiet row =
        Quiet-if (row.column_index == 0)
          (Quiet-if row.have_packets (pure-Quiet tt) (raise_token-Quiet callback d empty_loop))
          (Quiet->>=
            (act-Quiet λ s. raise callback partial_packet (s.column - s.tvalue_length) [] s)
            λ _. end_row-Quiet (
              fill_row storage handlers icu hash callback d p unset none names
                (drop row.column_index names) row.column_index row.packet))

    some_row-Quiet :
        (row : Row)
        → Quiet (
            value_row storage handlers icu hash callback d p unset none names row >>= λ next_row.
            pure (some next_row))
    some_row-Quiet row = Quiet->>= (value_row-Quiet row) λ next_row. pure-Quiet (some next_row)

    colon_row-Quiet :
        (alt : TokenType) (row : Row)
        → Quiet (
            raise_token callback d missing_space
            >> push_back_colon callback d alt
            >> value_row storage handlers icu hash callback d p unset none names row
            >>= λ next_row. pure (some next_row))
    colon_row-Quiet alt row =
        Quiet->>=
          (Quiet->>=
            (Quiet->>= (raise_token-Quiet callback d missing_space)
              λ _. push_back_colon-Quiet callback d alt)
            λ _. value_row-Quiet row)
          λ next_row. pure-Quiet (some next_row)

    dropped_row-Quiet :
        (row : Row)
        → Quiet {Store = Store}
            (raise_token callback d unexpected_delim >> update consume_token >> pure (some row))
    dropped_row-Quiet row =
        Quiet->>=
          (Quiet->>= (raise_token-Quiet callback d unexpected_delim)
            λ _. update-Quiet consume_token)
          λ _. pure-Quiet (some row)

    row_step-Quiet :
        (row : Row) (t : TokenType)
        → Quiet (row_step storage handlers icu hash callback d p unset none names row t)
    unfolding row_step
    row_step-Quiet row TokenType.tkey = colon_row-Quiet TokenType.tvalue row
    row_step-Quiet row TokenType.key = colon_row-Quiet TokenType.qvalue row
    row_step-Quiet row TokenType.olist = some_row-Quiet row
    row_step-Quiet row TokenType.otable = some_row-Quiet row
    row_step-Quiet row TokenType.tvalue = some_row-Quiet row
    row_step-Quiet row TokenType.qvalue = some_row-Quiet row
    row_step-Quiet row TokenType.value = some_row-Quiet row
    row_step-Quiet row TokenType.clist = dropped_row-Quiet row
    row_step-Quiet row TokenType.ctable = dropped_row-Quiet row
    row_step-Quiet row _ = Quiet->>= (finish_rows-Quiet row) λ _. pure-Quiet none

    go_on-Quiet :
        (rest : Row → Step Store (Unit {0})) (o : Option Row)
        → ((row : Row) → Quiet (rest row))
        → Quiet (go_on storage handlers icu hash callback d p unset none names rest o)
    go_on-Quiet rest none q = pure-Quiet tt
    go_on-Quiet rest (some row) q = q row

    read_rows-Quiet :
        (fuel : ℕ) (row : Row)
        → Quiet (read_rows storage handlers icu hash callback d p unset none names fuel row)
    unfolding read_rows
    read_rows-Quiet zero row = exhausted-Quiet
    read_rows-Quiet (suc fuel) row =
        Quiet->>= (Quiet->>= (next-Quiet callback d) λ _. look-Quiet) λ s.
          Quiet->>= (row_step-Quiet row s.ttype) λ o.
            go_on-Quiet (read_rows storage handlers icu hash callback d p unset none names fuel) o
              (read_rows-Quiet fuel)

    pub parse_loop_packets-Quiet :
        (fuel : ℕ)
        → Quiet (parse_loop_packets storage handlers icu hash callback d p unset none names fuel)
    unfolding parse_loop_packets
    parse_loop_packets-Quiet fuel =
        Quiet->>= (of_result-Quiet (packet_create icu hash (some (kept_names names))))
          λ packet. Quiet->>= (check_columns-Quiet packet names) λ _. read_rows-Quiet fuel _
