-- ===== src/Parser/Settles/Rows.antt =====
-- The start and the end of a packet in src/parser.c leave the input as it is.
use cif_api.Base.{ℕ, zero, suc, Bool, Option, none, some, List, [], ◌∷◌, UString, ◌≡◌, refl}
use cif_api.Icu.{Icu}
use cif_api.Hash.{Uthash}
use cif_api.Value.{Value}
use cif_api.Map.{CifMap}
use cif_api.Walk.{Flow}
use cif_api.Scanner.Classes.{Dialect}
use cif_api.Scanner.State.{Callback, metaclass_of, general_meta}
use cif_api.Scanner.Units.{replacement}
use cif_api.Scanner.Decode.{Protocols}
use cif_api.Parser.Storage.{Storage, Handlers}
use cif_api.Parser.World.{World, Step, is_skipping}
use cif_api.Parser.Settles.{
  Settles, settled, halts, Same, Settles-weaken, Settles-split, Settles-directed, of_code-Same,
  deeper-Same,
}
use cif_api.Code.{Result, ok, err, nosuch_item}
use cif_api.Packet.{packet_get_item}
use cif_api.Parser.Packets.{
  found_column, check_columns, start_packet, begin_row, record_packet, end_row,
}

module _ {Store Container Loop : Type 0} (storage : Storage Store Container Loop)
    (handlers : Handlers Store Container Loop) (icu : Icu) (hash : Uthash Value)
    (callback : Callback) (d : Dialect) (p : Protocols) (unset : ℕ → Bool)
    (free : metaclass_of d (replacement d) ≡ general_meta) where
  found_column-Same :
      (rest : Step Store (Unit {0})) (r : Result (Value × CifMap Value)) (w : World Store)
      → Settles (λ _ v. Same w v) (rest w)
      → Settles
          (λ _ v. Same w v)
          (found_column storage handlers icu hash callback d p unset rest r w)
  unfolding found_column
  found_column-Same rest (ok found) w h = h
  found_column-Same rest (err nosuch_item) w h = halts
  found_column-Same rest (err _) w h = halts

  pub check_columns-Same :
      (packet : CifMap Value) (names : List (Option UString)) (w : World Store)
      → Settles
          (λ _ v. Same w v)
          (check_columns storage handlers icu hash callback d p unset packet names w)
  unfolding check_columns
  check_columns-Same packet [] w = settled (refl, refl, refl)
  check_columns-Same packet (none ∷ names) w = check_columns-Same packet names w
  check_columns-Same packet (some name ∷ names) w =
      found_column-Same _ (packet_get_item icu hash packet name) w
        (check_columns-Same packet names w)

  start_packet-Same :
      (flow : Flow) (w : World Store)
      → Settles (λ _ v. Same w v) (start_packet storage handlers icu hash callback d p unset flow w)
  unfolding start_packet
  start_packet-Same Flow.skip_current w = settled (refl, refl, refl)
  start_packet-Same Flow.skip_siblings w = settled (refl, refl, refl)
  start_packet-Same Flow.stop w = halts
  start_packet-Same Flow.continue w = settled (refl, refl, refl)
  start_packet-Same (Flow.code c) w = settled (refl, refl, refl)

  pub begin_row-Same :
      (column : ℕ) (w : World Store)
      → Settles (λ _ v. Same w v) (begin_row storage handlers icu hash callback d p unset column w)
  unfolding begin_row
  begin_row-Same (suc column) w = settled (refl, refl, refl)
  begin_row-Same zero w =
      let (flow, st) = handlers.packet_start w.scanner.reports w.store in
      Settles-split (is_skipping w.scanner) _ _ w (settled (deeper-Same w))
        (Settles-weaken (start_packet-Same flow (record w { store = st })) λ _ v s. s)

  record_packet-Same :
      (loop : Option Loop) (packet : CifMap Value) (w : World Store)
      → Settles
          (λ _ v. Same w v)
          (record_packet storage handlers icu hash callback d p unset loop packet w)
  record_packet-Same none packet w = settled (refl, refl, refl)
  record_packet-Same (some loop) packet w =
      let (code, st) = storage.add_packet loop packet w.store in
      Settles-weaken (of_code-Same code (record w { store = st })) λ _ v s. s

  pub end_row-Same :
      (loop : Option Loop) (packet : CifMap Value) (w : World Store)
      → Settles
          (λ _ v. Same w v)
          (end_row storage handlers icu hash callback d p unset loop packet w)
  unfolding end_row
  end_row-Same loop packet w =
      let (flow, st) = handlers.packet_end packet w.scanner.reports w.store in
      Settles-split (is_skipping w.scanner) _ _ w (settled (refl, refl, refl)) (
        Settles-directed flow _ _ _ (record w { store = st })
          (Settles-weaken (record_packet-Same loop packet (record w { store = st })) λ _ v s. s)
          (settled (refl, refl, refl)) (settled (refl, refl, refl)))
