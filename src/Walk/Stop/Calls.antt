-- ===== src/Walk/Stop/Calls.antt =====
-- `cif_walk` of src/cif.c stops when a handler says so: the handler that replies with
-- `CIF_TRAVERSE_END` or with an error is the last one called.
use cif_api.Base.{suc, Bool-cases, ℕ, false, Option, none, some, List, [], ◌∷◌, ◌≡◌, refl, inl, inr}
use cif_api.Code.{Code, Result, ok, err}
use cif_api.Walk.{
  Flow, continue, skip_current, skip_siblings, stop, code, Item, Packet, Loop, Container, container,
  unreadable, Containers, nil, cons, Event, after_block, after_start, as_ok, after_packets,
  handler_result, walk_item, walk_items, walk_packet, walk_packets, walk_loop, walk_each,
  walk_loops, walk_container, walk_frames, walk_blocks, walk, cif_start, cif_end, item,
  packet_start, packet_end, loop_start, loop_end, container_start, container_end,
}
use cif_api.Walk.Stop.{
  Log, is_stop, recorded, Quiet, Halted, Good, Good-Quiet, descend-Good, among-Good, finish-Good,
  after_frame-Good, after_packets-Good, between-Good,
}

-- The value of `cif_walk` after the last reply.
abbrev pub returned : Flow → Flow
returned (code c) = code c
returned _ = continue

-- Either no handler ended the walk, or the last one called did, and its error is passed on.
pub data Outcome (r : Flow × Log) : Type 0 where
  ran : Quiet r.1 → Outcome r
  ended : (f : Flow) → Halted f r.1 → r.0 ≡ returned f → Outcome r

module _ (policy : Event → Log → Flow) where
  handler : Event → Option (Log → Flow × Log)
  handler e = recorded policy e

  handler_result-Good : (e : Event) (log : Log) → Quiet log → Good (handler_result handler e log)
  unfolding handler_result handler
  handler_result-Good e log q = elim (Bool-cases (is_stop (policy e log))) [
    | inl s ↦ inr (record { last = e; earlier = log; is_last = refl; stops = s; quiet = q })
    | inr n ↦ inl (n, q)
  ]

  walk_items-Good :
      (packet : Packet) (items : List Item) (log : Log)
      → Quiet log
      → Good (walk_items handler packet items log)
  unfolding walk_items walk_item
  walk_items-Good packet [] log q = handler_result-Good (packet_end packet) log q
  walk_items-Good packet (i ∷ is) log q =
      among-Good _ (walk_items-Good packet is) _
        (handler_result-Good (item i.name i.as_value) log q)

  walk_packet-Good :
      (packet : Packet) (log : Log) → Quiet log → Good (walk_packet handler packet log)
  unfolding walk_packet
  walk_packet-Good packet log q =
      descend-Good _ (walk_items-Good packet packet) _
        (handler_result-Good (packet_start packet) log q)

  walk_packets-Good :
      (packets : List Packet) (last : Code) (log : Log)
      → Quiet log
      → Good (walk_packets handler packets last log)
  unfolding walk_packets
  walk_packets-Good [] last log q = inl q
  walk_packets-Good (p ∷ ps) last log q =
      among-Good _ (walk_packets-Good ps last) _ (walk_packet-Good p log q)

  walk_loop-Good : (l : Loop) (log : Log) → Quiet log → Good (walk_loop handler l log)
  unfolding walk_loop
  walk_loop-Good l log q =
      descend-Good _ (by_opened l.opened) _ (handler_result-Good (loop_start l.loop_num) log q)
    where
      by_opened :
          (opened : Option Code) (t : Log)
          → Quiet t
          → Good (elim opened [
            | some c ↦ (code c, t)
            | none ↦
                after_packets l.closed
                  (walk_packets handler l.packets l.last t)
                  (λ u. handler_result handler (loop_end l.loop_num) u)
          ])
      by_opened none t q =
          after_packets-Good _ (handler_result-Good (loop_end l.loop_num)) l.closed _
            (walk_packets-Good l.packets l.last t q)
      by_opened (some c) t q = inl q

  walk_each-Good :
      (loops : List Loop) (f : Flow) (log : Log)
      → is_stop f ≡ false
      → Quiet log
      → Good (walk_each handler loops f log)
  unfolding walk_each
  walk_each-Good [] f log n q = inl q
  walk_each-Good (l ∷ ls) f log n q = between-Good _ (walk_each-Good ls) _ (walk_loop-Good l log q)

  walk_loops-Good :
      (loops : Result (List Loop)) (log : Log) → Quiet log → Good (walk_loops handler loops log)
  unfolding walk_loops is_stop
  walk_loops-Good (err c) log q = inl q
  walk_loops-Good (ok loops) log q = walk_each-Good loops continue log refl q

  mutual
    unfolding walk_container

    walk_container-Good :
        (c : Container) (depth : ℕ) (log : Log)
        → Quiet log
        → Good (walk_container handler c depth log)
    walk_container-Good (unreadable name c) depth log q =
        descend-Good _ (λ t r. inl r) _ (handler_result-Good (container_start depth name) log q)
    walk_container-Good (container name frames loops) depth log q =
        descend-Good _
          (walk_frames-Good frames depth _ (λ u r.
            finish-Good _ (handler_result-Good (container_end depth name)) _
              (walk_loops-Good loops u r)))
          _ (handler_result-Good (container_start depth name) log q)

    walk_frames-Good :
        (frames : Containers) (depth : ℕ) (loops : Log → Flow × Log)
        → ((log : Log) → Quiet log → Good (loops log))
        → (log : Log) → Quiet log
        → Good (walk_frames handler frames depth loops log)
    walk_frames-Good nil depth loops k log q = k log q
    walk_frames-Good (cons frame frames) depth loops k log q =
        after_frame-Good _ (walk_frames-Good frames depth loops k) _ loops k
          (walk_container-Good frame (suc depth) log q)

  as_ok-Outcome : (r : Flow × Log) → Good r → Outcome (as_ok r)
  unfolding as_ok is_stop
  as_ok-Outcome (continue, s) g = ran (Good-Quiet (continue, s) refl g)
  as_ok-Outcome (skip_current, s) g = ran (Good-Quiet (skip_current, s) refl g)
  as_ok-Outcome (skip_siblings, s) g = ran (Good-Quiet (skip_siblings, s) refl g)
  as_ok-Outcome (stop, s) (inl q) = ran q
  as_ok-Outcome (stop, s) (inr h) = ended stop h refl
  as_ok-Outcome (code c, s) (inl q) = ran q
  as_ok-Outcome (code c, s) (inr h) = ended (code c) h refl

  after_block-Outcome :
      (rest : Log → Flow × Log)
      → ((log : Log) → Quiet log → Outcome (rest log))
      → (r : Flow × Log) → Good r
      → Outcome (after_block r rest)
  unfolding after_block is_stop
  after_block-Outcome rest k (continue, s) g = k s (Good-Quiet (continue, s) refl g)
  after_block-Outcome rest k (skip_current, s) g = k s (Good-Quiet (skip_current, s) refl g)
  after_block-Outcome rest k (skip_siblings, s) g = ran (Good-Quiet (skip_siblings, s) refl g)
  after_block-Outcome rest k (stop, s) (inl q) = ran q
  after_block-Outcome rest k (stop, s) (inr h) = ended stop h refl
  after_block-Outcome rest k (code c, s) (inl q) = ran q
  after_block-Outcome rest k (code c, s) (inr h) = ended (code c) h refl

  walk_blocks-Outcome :
      (blocks : Containers) (log : Log) → Quiet log → Outcome (walk_blocks handler blocks log)
  unfolding walk_blocks
  walk_blocks-Outcome nil log q = as_ok-Outcome _ (handler_result-Good cif_end log q)
  walk_blocks-Outcome (cons block blocks) log q =
      after_block-Outcome _ (walk_blocks-Outcome blocks) _ (walk_container-Good block 0 log q)

  after_start-Outcome :
      (rest : Log → Flow × Log)
      → ((log : Log) → Quiet log → Outcome (rest log))
      → (r : Flow × Log) → Good r
      → Outcome (after_start r rest)
  unfolding after_start is_stop
  after_start-Outcome rest k (continue, s) g = k s (Good-Quiet (continue, s) refl g)
  after_start-Outcome rest k (skip_current, s) g = ran (Good-Quiet (skip_current, s) refl g)
  after_start-Outcome rest k (skip_siblings, s) g = ran (Good-Quiet (skip_siblings, s) refl g)
  after_start-Outcome rest k (stop, s) (inl q) = ran q
  after_start-Outcome rest k (stop, s) (inr h) = ended stop h refl
  after_start-Outcome rest k (code c, s) (inl q) = ran q
  after_start-Outcome rest k (code c, s) (inr h) = ended (code c) h refl

  from_blocks :
      (all_blocks : Result Containers) (log : Log)
      → Quiet log
      → Outcome
          (elim all_blocks [ err c ↦ (code c, log) | ok blocks ↦ walk_blocks handler blocks log ])
  from_blocks (err c) log q = ran q
  from_blocks (ok blocks) log q = walk_blocks-Outcome blocks log q

  -- However the replies depend on the calls so far, and whatever the document: no handler is called
  -- after one that replies with `CIF_TRAVERSE_END` or an error, and then the walk returns `CIF_OK`
  -- or that error.
  pub walk-Outcome :
      (all_blocks : Result Containers) → Outcome (walk (recorded policy) all_blocks [])
  unfolding walk handler
  walk-Outcome all_blocks =
      after_start-Outcome _ (from_blocks all_blocks) _ (handler_result-Good cif_start [] tt)
