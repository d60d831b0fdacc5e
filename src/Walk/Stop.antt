-- ===== src/Walk/Stop.antt =====
-- The replies of handlers to `cif_walk` (src/cif.c) that end the walk, and what each switch of the
-- walkers does with them.
pub mod Calls
use cif_api.Base.{
  not, Bool-cases, if◌then◌else◌, ℕ, Bool, true, false, Option, none, some, List, [], ◌∷◌, All, ◌≡◌,
  refl, ◌⊎◌, inl, inr,
}
use cif_api.Code.{Code, finished, Result, ok, err}
use cif_api.Walk.{
  Flow, continue, skip_current, skip_siblings, stop, code, Item, Packet, Loop, Container, container,
  unreadable, Containers, nil, cons, Event, is_finished, descend, among, between, finish,
  after_frame, after_block, after_start, as_ok, after_packets, handler_result, walk_item,
  walk_items, walk_packet, walk_packets, walk_loop, walk_each, walk_loops, walk_container,
  walk_frames, walk_blocks, walk, cif_start, cif_end, item, packet_start, packet_end, loop_start,
  loop_end, container_start, container_end,
}

-- The calls so far, the last one first, each with its reply.
abbrev pub Log : Type 0
Log = List (Event × Flow)

-- The replies that end the walk. A handler's `CIF_FINISHED` is taken for the end of the packets.
pub is_stop : Flow → Bool
unfolding is_finished
is_stop stop = true
is_stop (code c) = not (is_finished (code c))
is_stop _ = false

-- Handlers whose replies depend on the calls so far in any way, recorded.
abbrev pub recorded : (Event → Log → Flow) → Event → Option (Log → Flow × Log)
recorded policy e = some (λ log. (policy e log, (e, policy e log) ∷ log))

abbrev pub Quiet : Log → Type 0
Quiet log = All (λ call. is_stop call.1 ≡ false) log

-- The last call ended the walk, with the reply `f`, and no earlier one did.
pub record Halted (f : Flow) (log : Log) : Type 0 where
  pub last : Event
  pub earlier : Log
  pub is_last : log ≡ (last, f) ∷ earlier
  pub stops : is_stop f ≡ true
  pub quiet : Quiet earlier

abbrev pub Good : Flow × Log → Type 0
Good r = Quiet r.1 ⊎ Halted r.0 r.1

-- A direction that does not end the walk was given with none before it that does.
pub Good-Quiet : (r : Flow × Log) → is_stop r.0 ≡ false → Good r → Quiet r.1
Good-Quiet r e (inl q) = q
Good-Quiet r e (inr h) = absurd (cc (e, h.stops))

module _ (rest : Log → Flow × Log) (k : (log : Log) → Quiet log → Good (rest log)) where
  pub descend-Good : (r : Flow × Log) → Good r → Good (descend r rest)
  unfolding descend is_stop
  descend-Good (continue, s) g = k s (Good-Quiet (continue, s) refl g)
  descend-Good (skip_current, s) g = g
  descend-Good (skip_siblings, s) g = g
  descend-Good (stop, s) g = g
  descend-Good (code c, s) g = g

  pub among-Good : (r : Flow × Log) → Good r → Good (among r rest)
  unfolding among is_stop
  among-Good (continue, s) g = k s (Good-Quiet (continue, s) refl g)
  among-Good (skip_current, s) g = k s (Good-Quiet (skip_current, s) refl g)
  among-Good (skip_siblings, s) g = inl (Good-Quiet (skip_siblings, s) refl g)
  among-Good (stop, s) g = g
  among-Good (code c, s) g = g

  pub finish-Good : (r : Flow × Log) → Good r → Good (finish r rest)
  unfolding finish is_stop
  finish-Good (continue, s) g = k s (Good-Quiet (continue, s) refl g)
  finish-Good (skip_current, s) g = k s (Good-Quiet (skip_current, s) refl g)
  finish-Good (skip_siblings, s) g = inl (Good-Quiet (skip_siblings, s) refl g)
  finish-Good (stop, s) g = g
  finish-Good (code c, s) g = g

  pub after_frame-Good :
      (r : Flow × Log) (loops : Log → Flow × Log)
      → ((log : Log) → Quiet log → Good (loops log))
      → Good r
      → Good (after_frame r rest loops)
  unfolding after_frame is_stop
  after_frame-Good (continue, s) loops l g = k s (Good-Quiet (continue, s) refl g)
  after_frame-Good (skip_current, s) loops l g = k s (Good-Quiet (skip_current, s) refl g)
  after_frame-Good (skip_siblings, s) loops l g = l s (Good-Quiet (skip_siblings, s) refl g)
  after_frame-Good (stop, s) loops l g = g
  after_frame-Good (code c, s) loops l g = g

  finished-goes_on : (f : Flow) → is_finished f ≡ true → is_stop f ≡ false
  unfolding is_stop is_finished
  finished-goes_on continue e = refl
  finished-goes_on skip_current e = refl
  finished-goes_on skip_siblings e = refl
  finished-goes_on stop e = cc
  finished-goes_on (code c) e = rw e

  pub after_packets-Good :
      (closed : Option Code) (r : Flow × Log) → Good r → Good (after_packets closed r rest)
  unfolding after_packets
  after_packets-Good closed r g = elim (Bool-cases (is_finished r.0)) [
    | inl e ↦ let q = Good-Quiet r (finished-goes_on r.0 e) g in rw e (by_close closed q)
    | inr e ↦ rw e g
  ]
    where
      by_close :
          (closed : Option Code)
          → Quiet r.1
          → Good (elim closed [
            | none ↦ rest r.1
            | some c ↦ if is_finished (code c) then rest r.1 else (code c, r.1)
          ])
      by_close none q = k r.1 q
      by_close (some c) q = elim (Bool-cases (is_finished (code c))) [
        | inl e ↦ rw e (k r.1 q)
        | inr e ↦ rw e (inl q)
      ]

pub between-Good :
    (rest : Flow → Log → Flow × Log)
    → ((f : Flow) (log : Log) → is_stop f ≡ false → Quiet log → Good (rest f log))
    → (r : Flow × Log) → Good r
    → Good (between r rest)
unfolding between is_stop
between-Good rest k (continue, s) g = k continue s refl (Good-Quiet (continue, s) refl g)
between-Good rest k (skip_current, s) g =
    k skip_current s refl (Good-Quiet (skip_current, s) refl g)
between-Good rest k (skip_siblings, s) g = g
between-Good rest k (stop, s) g = g
between-Good rest k (code c, s) g = g
