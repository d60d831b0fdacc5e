-- ===== src/Parser/Settles/Packets.antt =====
-- `parse_loop_packets` of src/parser.c ends, with no more input than there was.
use cif_api.Base.{
  ℕ, zero, suc, ◌+◌, ◌-◌, ◌%◌, ◌<◌, Bool, Option, none, some, List, [], UString, length, ◌==◌,
  get_or, ◌≡◌, ◌⊎◌, arith, inl, inr,
}
use cif_api.Icu.{Icu}
use cif_api.Hash.{Uthash}
use cif_api.Value.{Value}
use cif_api.Scanner.Classes.{Dialect}
use cif_api.Scanner.State.{Callback, TokenType, metaclass_of, general_meta, consume_token}
use cif_api.Scanner.Units.{replacement}
use cif_api.Scanner.Decode.{Protocols}
use cif_api.Scanner.Tokens.{tvalue}
use cif_api.Parser.Steps.Progress.{IsDelimited}
use cif_api.Parser.Storage.{Storage, Handlers}
use cif_api.Parser.World.{World, Step, ◌>>=◌, ◌>>◌, pure, update, raise_token, push_back_colon}
use cif_api.Parser.Settles.{
  Settles, settled, Keeps, Less, Filled, Keeps-Same, Less-Same, Filled-Same, Settles-follow,
  Settles-weaken, Settles-split, Settles-directed, of_result-Same, Settles-look, consumed-Less,
  act-Same,
}
use cif_api.Code.{missing_space, unexpected_delim, partial_packet, empty_loop}
use cif_api.Packet.{packet_create}
use cif_api.Parser.Packets.{
  Row, kept_names, put_column, value_row, finish_rows, row_step, go_on, read_rows,
  parse_loop_packets,
}
use cif_api.Parser.Settles.Values.{next-Tokened, a_value-Less, colon-Keeps}
use cif_api.Parser.Settles.Rows.{check_columns-Same, begin_row-Same, end_row-Same}

module _ {Store Container Loop : Type 0} (storage : Storage Store Container Loop)
    (handlers : Handlers Store Container Loop) (icu : Icu) (hash : Uthash Value)
    (callback : Callback) (d : Dialect) (p : Protocols) (unset : ℕ → Bool)
    (free : metaclass_of d (replacement d) ≡ general_meta) where
  module _ (loop : Option Loop) (names : List (Option UString)) where
    value_row-Less :
        (n : ℕ) (row : Row) (w : World Store)
        → Keeps n w
        → Settles
            (λ _ v. Less n v)
            (value_row storage handlers icu hash callback d p unset loop names row w)
    unfolding value_row
    value_row-Less n row w k =
        Settles-follow _
          (Settles-follow _
            ((begin_row-Same storage handlers icu hash callback d p unset free) row.column_index w)
            λ _ v s.
              a_value-Less storage handlers icu hash callback d p free n v (Keeps-Same n w v s k))
          λ value u q.
            let name = get_or names row.column_index none in
            let column = (row.column_index + 1) % length names in
            let packet = put_column row.packet name value in
            let (flow, st) = handlers.item name value u.scanner.reports u.store in
            let u' = record u { store = st } in
            Settles-follow _
              (Settles-follow _ (Settles-directed flow _ _ _ u' (settled q) (settled q) (settled q))
                λ _ v r.
                  Settles-split (column == 0) _ _ v
                    (Settles-weaken
                      ((end_row-Same storage handlers icu hash callback d p unset free) loop packet
                        v)
                      λ _ x s. Less-Same n v x s r)
                    (settled r))
              λ _ v r. settled r

    finish_rows-Keeps :
        (n : ℕ) (row : Row) (w : World Store)
        → Keeps n w
        → Settles
            (λ _ v. Keeps n v)
            (finish_rows storage handlers icu hash callback d p unset loop names row w)
    unfolding finish_rows
    finish_rows-Keeps n row w k =
        Settles-split (row.column_index == 0) _ _ w
          (Settles-split row.have_packets _ _ w (settled k) (
            Settles-weaken (act-Same callback empty_loop (λ s. s.column - s.tvalue_length) tvalue w)
              λ _ v s. Keeps-Same n w v s k))
          (Settles-follow _
            (act-Same callback partial_packet (λ s. s.column - s.tvalue_length) (λ s. []) w)
            λ _ v s.
              Settles-weaken
                ((end_row-Same storage handlers icu hash callback d p unset free) loop _ v)
                λ _ x r. Keeps-Same n v x r (Keeps-Same n w v s k))

    abbrev RowHolds : ℕ → Option Row → World Store → Type 0
    RowHolds n none v = Keeps n v
    RowHolds n (some row) v = Less n v

    -- A row with a value, and one with a value behind a colon that is pushed back
    some_row :
        (n : ℕ) (row : Row) (w : World Store)
        → Keeps n w
        → Settles (RowHolds n) (
            (value_row storage handlers icu hash callback d p unset loop names row >>= λ r.
            pure (some r))
              w)
    some_row n row w k = Settles-follow _ (value_row-Less n row w k) λ r v q. settled q

    colon_row :
        (n : ℕ) (alt : TokenType) (row : Row) (w : World Store)
        → IsDelimited alt
        → Filled w
        → Keeps n w
        → Settles (RowHolds n) (
            (raise_token callback d missing_space
                >> push_back_colon callback d alt
                >> value_row storage handlers icu hash callback d p unset loop names row
                >>= λ r. pure (some r))
              w)
    colon_row n alt row w a f k =
        Settles-follow _
          (Settles-follow _
            (colon-Keeps storage handlers icu hash callback d p free n alt
              (λ s. s.column - s.tvalue_length) tvalue w a f k)
            λ _ v h. value_row-Less n row v h)
          λ r v q. settled q

    -- A delimiter that is dropped
    dropped_row :
        (n : ℕ) (row : Row) (w : World Store)
        → Filled w
        → Keeps n w
        → Settles
            (RowHolds n)
            ((raise_token callback d unexpected_delim >> update consume_token >> pure (some row)) w)
    dropped_row n row w f (r, l) =
        Settles-follow _
          (Settles-follow _
            (act-Same callback unexpected_delim (λ s. s.column - s.tvalue_length) tvalue w)
            λ _ v s. settled (consumed-Less n v (Filled-Same w v s f) (Keeps-Same n w v s (r, l))))
          λ _ v q. settled q

    row_step-Holds :
        (t : TokenType) (n : ℕ) (row : Row) (w : World Store)
        → (t ≡ TokenType.end) ⊎ Filled w
        → Keeps n w
        → Settles
            (RowHolds n)
            (row_step storage handlers icu hash callback d p unset loop names row t w)
    unfolding row_step
    row_step-Holds t n row w (inl e) k =
        rw e (Settles-follow _ (finish_rows-Keeps n row w k) λ _ v q. settled q)
    row_step-Holds TokenType.tkey n row w (inr f) k = colon_row n TokenType.tvalue row w tt f k
    row_step-Holds TokenType.key n row w (inr f) k = colon_row n TokenType.qvalue row w tt f k
    row_step-Holds TokenType.olist n row w (inr f) k = some_row n row w k
    row_step-Holds TokenType.otable n row w (inr f) k = some_row n row w k
    row_step-Holds TokenType.tvalue n row w (inr f) k = some_row n row w k
    row_step-Holds TokenType.qvalue n row w (inr f) k = some_row n row w k
    row_step-Holds TokenType.value n row w (inr f) k = some_row n row w k
    row_step-Holds TokenType.clist n row w (inr f) k = dropped_row n row w f k
    row_step-Holds TokenType.ctable n row w (inr f) k = dropped_row n row w f k
    row_step-Holds _ n row w (inr f) k =
        Settles-follow _ (finish_rows-Keeps n row w k) λ _ v q. settled q

    -- The rest of the loop, which ends where there is less than `n`
    go_on-Keeps :
        (n : ℕ) (rest : Row → Step Store (Unit {0})) (o : Option Row) (w : World Store)
        → ((r : Row) (v : World Store) → Less n v → Settles (λ _ u. Keeps n u) (rest r v))
        → RowHolds n o w
        → Settles
            (λ _ u. Keeps n u)
            (go_on storage handlers icu hash callback d p unset loop names rest o w)
    go_on-Keeps n rest none w h q = settled q
    go_on-Keeps n rest (some r) w h q = h r w q

    read_rows-Keeps :
        (fuel n : ℕ) (row : Row) (w : World Store)
        → n < fuel
        → Keeps n w
        → Settles
            (λ _ v. Keeps n v)
            (read_rows storage handlers icu hash callback d p unset loop names fuel row w)
    unfolding read_rows
    read_rows-Keeps zero n row w h k = absurd (omega arith)
    read_rows-Keeps (suc fuel) n row w h k =
        Settles-look _ (next-Tokened storage handlers icu hash callback d p free n w k) λ v (q, e).
          Settles-follow _ (row_step-Holds v.scanner.ttype n row v e q) λ o u q.
            go_on-Keeps n (read_rows storage handlers icu hash callback d p unset loop names fuel) o
              u
              (λ r x (y, l).
                Settles-weaken (read_rows-Keeps fuel (n - 1) r x (omega arith) (y, omega arith))
                  λ _ z (g, m). (g, omega arith))
              q

    pub parse_loop_packets-Keeps :
        (fuel n : ℕ) (w : World Store)
        → n < fuel
        → Keeps n w
        → Settles
            (λ _ v. Keeps n v)
            (parse_loop_packets storage handlers icu hash callback d p unset loop names fuel w)
    unfolding parse_loop_packets
    parse_loop_packets-Keeps fuel n w h k =
        Settles-follow _ (of_result-Same (packet_create icu hash (some (kept_names names))) w)
          λ packet v s.
            Settles-follow _
              ((check_columns-Same storage handlers icu hash callback d p unset free) packet names
                v)
              λ _ u t. read_rows-Keeps fuel n _ u h (Keeps-Same n v u t (Keeps-Same n w v s k))
