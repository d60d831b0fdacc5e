-- ===== src/Walk/Order.antt =====
-- `cif_walk` of src/cif.c under a handler that lets it go on: it visits the whole document, in
-- document order, and returns `CIF_OK`.
use cif_api.Base.{
  ℕ, suc, Option, none, some, List, [], ◌∷◌, ◌++◌, All, append_assoc, append-nil, ◌≡◌, refl, sym,
  ap, ◌∙◌,
}
use cif_api.Code.{Code, finished, Result, ok, err}
use cif_api.Walk.{
  Flow, continue, code, Item, Packet, Loop, Container, container, unreadable, Containers, nil, cons,
  Event, is_finished, descend, among, between, finish, after_frame, after_block, after_start, as_ok,
  after_packets, handler_result, walk_item, walk_items, walk_packet, walk_packets, walk_loop,
  walk_each, walk_loops, walk_container, walk_frames, walk_blocks, walk, cif_start, cif_end, item,
  packet_start, packet_end, loop_start, loop_end, container_start, container_end,
}

-- A handler that notes each call and always replies with `CIF_TRAVERSE_CONTINUE`.
abbrev pub noted : Event → Option (List Event → Flow × List Event)
noted e = some (λ log. (continue, log ++ (e ∷ [])))

-- The elements of a document in order, each between its start and its end.
unfoldable pub visits_items : List Item → List Event
visits_items [] = []
visits_items (i ∷ is) = item i.name i.as_value ∷ visits_items is

unfoldable pub visits_packets : List Packet → List Event
unfolding visits_items
visits_packets [] = []
visits_packets (p ∷ ps) = packet_start p ∷ (visits_items p ++ (packet_end p ∷ visits_packets ps))

unfoldable pub visits_loops : List Loop → List Event
unfolding visits_packets
visits_loops [] = []
visits_loops (l ∷ ls) =
    loop_start l.loop_num ∷ (visits_packets l.packets ++ (loop_end l.loop_num ∷ visits_loops ls))

-- The loops of a container that can be read, and its events.
abbrev pub loops_of : Result (List Loop) → List Loop
loops_of (ok ls) = ls
loops_of (err c) = []

unfoldable mutual
  unfolding visits_loops

  pub visits : Container → ℕ → List Event
  visits (unreadable name c) depth = []
  visits (container name frames loops) depth =
      container_start depth name
      ∷ (visits_all frames (suc depth)
          ++ (visits_loops (loops_of loops) ++ (container_end depth name ∷ [])))

  pub visits_all : Containers → ℕ → List Event
  visits_all nil depth = []
  visits_all (cons c cs) depth = visits c depth ++ visits_all cs depth

-- Every query on the document succeeds.
abbrev pub IsReadableLoop : Loop → Type 0
IsReadableLoop l = (l.opened ≡ none) × (l.last ≡ finished) × (l.closed ≡ none)

abbrev pub AreReadableLoops : Result (List Loop) → Type 0
AreReadableLoops (ok ls) = All IsReadableLoop ls
AreReadableLoops (err c) = ⊥

unfoldable mutual
  pub IsReadable : Container → Type 0
  IsReadable (unreadable name c) = ⊥
  IsReadable (container name frames loops) = AreReadable frames × AreReadableLoops loops

  pub AreReadable : Containers → Type 0
  AreReadable nil = Unit
  AreReadable (cons c cs) = IsReadable c × AreReadable cs

abbrev Log : Type 0
Log = List Event

append_cons : (log es : Log) (e : Event) → (log ++ (e ∷ [])) ++ es ≡ log ++ (e ∷ es)
append_cons log es e = append_assoc log (e ∷ []) es

walk_items-noted :
    (p : Packet) (is : List Item) (log : Log)
    → walk_items noted p is log ≡ (continue, log ++ (visits_items is ++ (packet_end p ∷ [])))
unfolding walk_items walk_item among handler_result visits_items
walk_items-noted p [] log = refl
walk_items-noted p (i ∷ is) log =
    walk_items-noted p is (log ++ (item i.name i.as_value ∷ []))
    ∙ ap (λ l. (continue, l))
        (append_cons log (visits_items is ++ (packet_end p ∷ [])) (item i.name i.as_value))

walk_packets-noted :
    (ps : List Packet) (last : Code) (log : Log)
    → walk_packets noted ps last log ≡ (code last, log ++ visits_packets ps)
unfolding walk_packets walk_packet descend handler_result visits_packets among
walk_packets-noted [] last log = ap (λ l. (code last, l)) (sym (append-nil log))
walk_packets-noted (p ∷ ps) last log =
    let start : Log = log ++ (packet_start p ∷ []) in
    let mine : Log = visits_items p ++ (packet_end p ∷ []) in
    rw (walk_items-noted p p start, walk_packets-noted ps last (start ++ mine)) (simp append_assoc)

walk_loop-noted :
    (l : Loop) (log : Log)
    → IsReadableLoop l
    → walk_loop noted l log ≡ (continue, log ++ visits_loops (l ∷ []))
unfolding walk_loop descend handler_result after_packets visits_loops
walk_loop-noted l log r =
    let start : Log = log ++ (loop_start l.loop_num ∷ []) in
    let packets : walk_packets noted l.packets l.last start
        ≡ (code finished, start ++ visits_packets l.packets) =
      walk_packets-noted l.packets l.last start
      ∙ ap (λ c. (code c, start ++ visits_packets l.packets)) r.1 in
    rw (r.0, r.2, packets, is_finished) (simp append_assoc)

visits_loops-cons :
    (l : Loop) (ls : List Loop) → visits_loops (l ∷ ls) ≡ visits_loops (l ∷ []) ++ visits_loops ls
unfolding visits_loops
visits_loops-cons l ls = simp append_assoc

walk_each-noted :
    (ls : List Loop) (log : Log)
    → All IsReadableLoop ls
    → walk_each noted ls continue log ≡ (continue, log ++ visits_loops ls)
unfolding walk_each between visits_loops
walk_each-noted [] log r = ap (λ l. (continue, l)) (sym (append-nil log))
walk_each-noted (l ∷ ls) log r =
    rw
      (
        walk_loop-noted l log r.0,
        walk_each-noted ls (log ++ visits_loops (l ∷ [])) r.1,
        visits_loops-cons l ls,
      )
      (simp append_assoc)

walk_loops-noted :
    (loops : Result (List Loop)) (log : Log)
    → AreReadableLoops loops
    → walk_loops noted loops log ≡ (continue, log ++ visits_loops (loops_of loops))
unfolding walk_loops
walk_loops-noted (ok ls) log r = walk_each-noted ls log r
walk_loops-noted (err c) log r = absurd r

mutual
  unfolding walk_container visits IsReadable descend handler_result finish after_frame

  walk_container-noted :
      (c : Container) (depth : ℕ) (log : Log)
      → IsReadable c
      → walk_container noted c depth log ≡ (continue, log ++ visits c depth)
  walk_container-noted (unreadable name c) depth log r = absurd r
  walk_container-noted (container name frames loops) depth log r =
      rw
        (
          walk_frames-noted frames depth _ (log ++ (container_start depth name ∷ [])) r.0,
          walk_loops-noted loops _ r.1,
        )
        (simp append_assoc)

  walk_frames-noted :
      (cs : Containers) (depth : ℕ) (loops : Log → Flow × Log) (log : Log)
      → AreReadable cs
      → walk_frames noted cs depth loops log ≡ loops (log ++ visits_all cs (suc depth))
  walk_frames-noted nil depth loops log r = ap loops (sym (append-nil log))
  walk_frames-noted (cons c cs) depth loops log r =
      rw (walk_container-noted c (suc depth) log r.0) (
        walk_frames-noted cs depth loops (log ++ visits c (suc depth)) r.1
        ∙ ap loops (append_assoc log (visits c (suc depth)) (visits_all cs (suc depth))))

walk_blocks-noted :
    (blocks : Containers) (log : Log)
    → AreReadable blocks
    → walk_blocks noted blocks log ≡ (continue, log ++ (visits_all blocks 0 ++ (cif_end ∷ [])))
unfolding walk_blocks after_block as_ok handler_result visits AreReadable
walk_blocks-noted nil log r = refl
walk_blocks-noted (cons b bs) log r =
    rw (walk_container-noted b 0 log r.0, walk_blocks-noted bs (log ++ visits b 0) r.1)
      (simp append_assoc)

-- A handler that always lets the walk go on is called for every element of a document that can be
-- read, in document order, at the start and at the end of each, and the walk returns `CIF_OK`.
pub walk-visits :
    (blocks : Containers)
    → AreReadable blocks
    → walk noted (ok blocks) [] ≡ (continue, cif_start ∷ (visits_all blocks 0 ++ (cif_end ∷ [])))
unfolding walk after_start handler_result
walk-visits blocks r = walk_blocks-noted blocks (cif_start ∷ []) r
