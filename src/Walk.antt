-- ===== src/Walk.antt =====
-- `cif_walk` of src/cif.c: the traversal of a CIF that calls a handler for each element, whose
-- replies direct the walk. The document is given with what the data base returns for each query;
-- handlers share a state of any type, their `context`.
pub mod Stop
pub mod Order
use cif_api.Base.{
  ℕ, zero, suc, ◌+◌, Bool, true, false, Option, none, some, List, [], ◌∷◌, UString, if◌then◌else◌,
}
use cif_api.Code.{Code, finished, Result, ok, err}
use cif_api.Value.{Value}

-- The `int` that handlers and walkers return: 0, which is `CIF_OK` as well as
-- `CIF_TRAVERSE_CONTINUE`, the other directions, or an error code.
pub data Flow : Type 0 where
  continue skip_current skip_siblings stop : Flow
  code : Code → Flow

pub record Item : Type 0 where
  pub name : UString
  pub as_value : Value

abbrev pub Packet : Type 0
Packet = List Item

-- A loop: what `cif_loop_get_packets` returns, the packets, the code that ends their iteration,
-- and the code of `cif_pktitr_close`.
pub record Loop : Type 0 where
  pub loop_num : ℕ
  pub opened : Option Code
  pub packets : List Packet
  pub last : Code
  pub closed : Option Code

-- A data block or save frame, or one whose frames cannot be listed.
mutual
  pub data Container : Type 0 where
    container : UString → Containers → Result (List Loop) → Container
    unreadable : UString → Code → Container

  pub data Containers : Type 0 where
    nil : Containers
    cons : Container → Containers → Containers

abbrev pub code_of : Container → UString
code_of (container name frames loops) = name
code_of (unreadable name c) = name

-- The members of `cif_handler_tp` with their arguments.
pub data Event : Type 0 where
  cif_start cif_end : Event
  block_start block_end frame_start frame_end : UString → Event
  loop_start loop_end : ℕ → Event
  packet_start packet_end : Packet → Event
  item : UString → Value → Event

abbrev pub container_start : ℕ → UString → Event
container_start zero name = block_start name
container_start (suc depth) name = frame_start name

abbrev pub container_end : ℕ → UString → Event
container_end zero name = block_end name
container_end (suc depth) name = frame_end name

-- `result == CIF_FINISHED`
unfoldable pub is_finished : Flow → Bool
is_finished (code finished) = true
is_finished _ = false

module _ {S : Type 0} where
  -- `if (result != CIF_TRAVERSE_CONTINUE) return result;`
  unfoldable pub descend : Flow × S → (S → Flow × S) → Flow × S
  descend (continue, s) rest = rest s
  descend (f, s) rest = (f, s)

  -- The switch on the result of an item or a packet, before the next one.
  unfoldable pub among : Flow × S → (S → Flow × S) → Flow × S
  among (continue, s) rest = rest s
  among (skip_current, s) rest = rest s
  among (skip_siblings, s) rest = (continue, s)
  among (stop, s) rest = (stop, s)
  among (code c, s) rest = (code c, s)

  -- The switch on the result of a loop, before the next one, which sees that result.
  unfoldable pub between : Flow × S → (Flow → S → Flow × S) → Flow × S
  between (continue, s) rest = rest continue s
  between (skip_current, s) rest = rest skip_current s
  between (f, s) rest = (f, s)

  -- The switch on the result of the loops of a container.
  unfoldable pub finish : Flow × S → (S → Flow × S) → Flow × S
  finish (continue, s) rest = rest s
  finish (skip_current, s) rest = rest s
  finish (skip_siblings, s) rest = (continue, s)
  finish (f, s) rest = (f, s)

  -- The switch on the result of a save frame: the next frame, or the loops, or neither.
  unfoldable pub after_frame : Flow × S → (S → Flow × S) → (S → Flow × S) → Flow × S
  after_frame (continue, s) frames loops = frames s
  after_frame (skip_current, s) frames loops = frames s
  after_frame (skip_siblings, s) frames loops = loops s
  after_frame (f, s) frames loops = (f, s)

  -- The switch on the result of a data block; `rest` has the other blocks and the end handler.
  unfoldable pub after_block : Flow × S → (S → Flow × S) → Flow × S
  after_block (continue, s) rest = rest s
  after_block (skip_current, s) rest = rest s
  after_block (skip_siblings, s) rest = (continue, s)
  after_block (stop, s) rest = (continue, s)
  after_block (code c, s) rest = (code c, s)

  -- The switch on the result of the handler for the start of the CIF.
  unfoldable pub after_start : Flow × S → (S → Flow × S) → Flow × S
  after_start (continue, s) rest = rest s
  after_start (code c, s) rest = (code c, s)
  after_start (f, s) rest = (continue, s)

  -- Directions that become `CIF_OK`.
  unfoldable pub as_ok : Flow × S → Flow × S
  as_ok (code c, s) = (code c, s)
  as_ok (f, s) = (continue, s)

  -- Closing the iterator, and the test for `CIF_FINISHED` before the end handler.
  unfoldable pub after_packets : Option Code → Flow × S → (S → Flow × S) → Flow × S
  unfolding is_finished
  after_packets closed r rest =
      if is_finished r.0
      then (elim closed [
        | none ↦ rest r.1
        | some c ↦ if is_finished (code c) then rest r.1 else (code c, r.1)
      ])
      else r

module _ {S : Type 0} (handle : Event → Option (S → Flow × S)) where
  -- `HANDLER_RESULT`
  unfoldable pub handler_result : Event → S → Flow × S
  handler_result e s = elim (handle e) [ none ↦ (continue, s) | some reply ↦ reply s ]

  -- `walk_item`
  unfoldable pub walk_item : Item → S → Flow × S
  unfolding handler_result
  walk_item i s = handler_result (item i.name i.as_value) s

  -- `walk_packet`, its loop first
  unfoldable pub walk_items : Packet → List Item → S → Flow × S
  unfolding handler_result walk_item among
  walk_items packet [] s = handler_result (packet_end packet) s
  walk_items packet (i ∷ is) s = among (walk_item i s) (λ t. walk_items packet is t)

  unfoldable pub walk_packet : Packet → S → Flow × S
  unfolding handler_result walk_items descend
  walk_packet packet s =
      descend (handler_result (packet_start packet) s) (λ t. walk_items packet packet t)

  -- `walk_loop`, its loop first
  unfoldable pub walk_packets : List Packet → Code → S → Flow × S
  unfolding walk_packet among
  walk_packets [] last s = (code last, s)
  walk_packets (p ∷ ps) last s = among (walk_packet p s) (λ t. walk_packets ps last t)

  unfoldable pub walk_loop : Loop → S → Flow × S
  unfolding handler_result walk_packets descend after_packets
  walk_loop l s = descend (handler_result (loop_start l.loop_num) s) (λ t. elim l.opened [
    | some c ↦ (code c, t)
    | none ↦
        after_packets l.closed (walk_packets l.packets l.last t)
          (λ u. handler_result (loop_end l.loop_num) u)
  ])

  -- `walk_loops`, its loop first
  unfoldable pub walk_each : List Loop → Flow → S → Flow × S
  unfolding walk_loop between
  walk_each [] result s = (result, s)
  walk_each (l ∷ ls) result s = between (walk_loop l s) (λ f t. walk_each ls f t)

  unfoldable pub walk_loops : Result (List Loop) → S → Flow × S
  unfolding walk_each
  walk_loops (err c) s = (code c, s)
  walk_loops (ok loops) s = walk_each loops continue s

  -- `walk_container`, and its loop over the save frames, which `loops` follows
  unfoldable mutual
    unfolding handler_result walk_loops descend after_frame finish

    pub walk_container : Container → ℕ → S → Flow × S
    walk_container (unreadable name c) depth s =
        descend (handler_result (container_start depth name) s) (λ t. (code c, t))
    walk_container (container name frames loops) depth s =
        descend (handler_result (container_start depth name) s) (λ t.
          walk_frames frames depth
            (λ u. finish (walk_loops loops u) (λ w. handler_result (container_end depth name) w)) t)

    pub walk_frames : Containers → ℕ → (S → Flow × S) → S → Flow × S
    walk_frames nil depth loops s = loops s
    walk_frames (cons frame frames) depth loops s =
        after_frame (walk_container frame (suc depth) s) (λ t. walk_frames frames depth loops t)
          loops

  -- `cif_walk`, its loop first
  unfoldable pub walk_blocks : Containers → S → Flow × S
  unfolding handler_result walk_container after_block as_ok
  walk_blocks nil s = as_ok (handler_result cif_end s)
  walk_blocks (cons block blocks) s =
      after_block (walk_container block 0 s) (λ t. walk_blocks blocks t)

  unfoldable pub walk : Result Containers → S → Flow × S
  unfolding handler_result walk_blocks after_start
  walk all_blocks s =
      after_start (handler_result cif_start s)
        (λ t. elim all_blocks [ err c ↦ (code c, t) | ok blocks ↦ walk_blocks blocks t ])
