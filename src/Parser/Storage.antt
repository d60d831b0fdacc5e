-- ===== src/Parser/Storage.antt =====
-- What the parser of src/parser.c calls besides the scanner: the functions of src/cif.c,
-- src/container.c and src/loop.c that store what was parsed, and the user's handlers
-- (`cif_handler_tp` of src/cif.h). Both work on one state, which holds the CIF and whatever the
-- handlers keep for themselves.
use cif_api.Base.{Bool, Option, List, UString}
use cif_api.Code.{Code, Result}
use cif_api.Map.{CifMap}
use cif_api.Value.{Value}
use cif_api.Scanner.State.{Report}
use cif_api.Walk.{Flow}

-- `Container` and `Loop` are `cif_container_tp *` and `cif_loop_tp *`, when they are not NULL.
--
-- `true` asks for the lenient forms, `cif_create_block_internal` and
-- `cif_container_create_frame_internal`.
pub record Storage (Store Container Loop : Type 0) : Type 0 where
  pub create_block : UString → Bool → Store → Result Container × Store
  pub get_block : UString → Store → Result Container × Store
  pub create_frame : Container → UString → Bool → Store → Result Container × Store
  pub get_frame : Container → UString → Store → Result Container × Store
  -- `cif_container_get_item_loop`, with NULL for the loop
  pub get_item_loop : Container → UString → Store → Option Code × Store
  pub set_value : Container → UString → Value → Store → Option Code × Store
  pub create_loop : Container → Option UString → List UString → Store → Result Loop × Store
  pub add_packet : Loop → CifMap Value → Store → Option Code × Store
  pub prune : Container → Store → Option Code × Store

-- The members of `cif_handler_tp`, which may look at the calls of the other callbacks. The start of
-- a loop may set the category of the loop that is to be made.
pub record Handlers (Store Container Loop : Type 0) : Type 0 where
  pub cif_start : List Report → Store → Flow × Store
  pub cif_end : List Report → Store → Flow × Store
  pub container_start : Bool → Option Container → List Report → Store → Flow × Store
  pub container_end : Bool → Option Container → List Report → Store → Flow × Store
  pub loop_start :
      Option Container → List UString → List Report → Store → (Flow × Option UString) × Store
  pub loop_end : Option Loop → List Report → Store → Flow × Store
  pub packet_start : List Report → Store → Flow × Store
  pub packet_end : CifMap Value → List Report → Store → Flow × Store
  pub item : Option UString → Value → List Report → Store → Flow × Store
