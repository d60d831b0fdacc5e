-- ===== src/Tests/Walks.antt =====
-- The theorems on the walk at a document of one block with a save frame and a loop.
use cif_api.Base.{[], ◌∷◌, ◌++◌, none, ◌≡◌, refl}
use cif_api.Code.{finished, ok, invalid_packet}
use cif_api.Value.{unk}
use cif_api.Walk.{
  Flow, continue, code, Loop, container, Containers, nil, cons, Event, cif_start, cif_end,
  loop_start, walk,
}
use cif_api.Walk.Stop.{Log, recorded}
use cif_api.Walk.Stop.Calls.{Outcome, walk-Outcome}
use cif_api.Walk.Order.{noted, visits_all, AreReadable, walk-visits}

abbrev one_loop : Loop
one_loop = record {
  loop_num = 1;
  opened = none;
  packets = (record { name = b'_' ∷ b'a' ∷ []; as_value = unk } ∷ []) ∷ [];
  last = finished;
  closed = none;
}

abbrev document : Containers
document =
    cons (container (b'b' ∷ []) (cons (container (b'f' ∷ []) nil (ok [])) nil) (ok (one_loop ∷ [])))
      nil

-- The first loop is refused.
abbrev refuses_loops : Event → Log → Flow
refuses_loops (loop_start n) log = code invalid_packet
refuses_loops e log = continue

document-AreReadable : AreReadable document
unfolding AreReadable
document-AreReadable = ((((tt, tt), tt), ((refl, refl, refl), tt)), tt)

walk-visits_example :
    walk noted (ok document) [] ≡ (continue, cif_start ∷ (visits_all document 0 ++ (cif_end ∷ [])))
walk-visits_example = walk-visits document document-AreReadable

walk-Outcome_example : Outcome (walk (recorded refuses_loops) (ok document) [])
walk-Outcome_example = walk-Outcome refuses_loops (ok document)
