-- ===== src/Value/Listed/Laws.antt =====
-- The element operations of src/value.c as operations on lists, and their bounds.
use cif_api.Base.{
  ℕ, zero, suc, ◌-◌, ◌≤◌, ◌<◌, false, Option, List, [], ◌∷◌, ◌++◌, ltb, leb, ◌==◌, if◌then◌else◌,
  length, get_or, take, drop, ◌≡◌, refl, sym, ap, ◌∙◌, arith, Bool-cases, inl, inr,
}
use cif_api.Code.{ok-injective, ok}
use cif_api.Array.{set_slot, move_forward, move_back-inserts, move_forward-removes}
use cif_api.Map.{Argument}
use cif_api.Value.{Value, list, unk, Elements, nil, cons, to_list, of_list}
use cif_api.Value.Listed.{
  get_element_at, set_element_at, insert_element_at, remove_element_at, expanded, inserted,
  replacement,
}

pub to_list-of_list : (xs : List Value) → to_list (of_list xs) ≡ xs
unfolding to_list of_list
to_list-of_list [] = refl
to_list-of_list (x ∷ xs) = rw (to_list-of_list xs)

of_list-to_list : (vs : Elements) → of_list (to_list vs) ≡ vs
unfolding to_list of_list
of_list-to_list nil = refl
of_list-to_list (cons v vs) = rw (of_list-to_list vs)

-- Every list with room for its elements has room for one more after the expansion.
pub expanded-room : (size capacity : ℕ) → size ≤ capacity → size < expanded size capacity
expanded-room size capacity h = ground arith

-- Up to the size, an element is inserted before the one that stands at the index, and the array has
-- room for it.
pub insert_element_at-inserts :
    (vs : Elements) (capacity index : ℕ) (element : Option Value)
    → length (to_list vs) ≤ capacity
    → index ≤ length (to_list vs)
    → (insert_element_at (list vs capacity) index element
        ≡ ok (
            list
              (of_list (take index (to_list vs) ++ (inserted element ∷ drop index (to_list vs))))
              (expanded (length (to_list vs)) capacity)))
      × (length (to_list vs) < expanded (length (to_list vs)) capacity)
unfolding insert_element_at
insert_element_at-inserts vs capacity index element h i =
    let within : ltb (length (to_list vs)) index ≡ false = ground arith in
    (
      rw (within, move_back-inserts unk index (inserted element) unk (to_list vs) i),
      expanded-room (length (to_list vs)) capacity h,
    )

remove_slots :
    (slots : List Value) (index : ℕ)
    → index < length slots
    → take (length slots - 1) (move_forward unk (length slots) index (length slots) slots)
      ≡ take index slots ++ drop (suc index) slots
remove_slots [] index h = absurd (omega arith)
remove_slots (x ∷ xs) index h =
    let size : suc (length xs) - 1 ≡ length xs = omega arith in
    rw size (move_forward-removes unk (suc (length xs)) index x xs (omega arith) (omega arith))

-- Below the size, the element at the index is passed back, and the others close up.
pub remove_element_at-removes :
    (vs : Elements) (capacity index : ℕ)
    → index < length (to_list vs)
    → remove_element_at (list vs capacity) index
      ≡ ok (
        get_or (to_list vs) index unk,
        list (of_list (take index (to_list vs) ++ drop (suc index) (to_list vs))) capacity,
      )
unfolding remove_element_at
remove_element_at-removes vs capacity index h =
    let within : leb (length (to_list vs)) index ≡ false = ground arith in
    rw (within, remove_slots (to_list vs) index h)

module _ (x : Value) where
  get_or-inserted :
      (i : ℕ) (xs : List Value) → i ≤ length xs → get_or (take i xs ++ (x ∷ drop i xs)) i unk ≡ x
  get_or-inserted zero xs h = refl
  get_or-inserted (suc i) [] h = absurd (omega arith)
  get_or-inserted (suc i) (y ∷ ys) h = get_or-inserted i ys (omega arith)

  without_inserted :
      (i : ℕ) (xs : List Value)
      → i ≤ length xs
      → take i (take i xs ++ (x ∷ drop i xs)) ++ drop (suc i) (take i xs ++ (x ∷ drop i xs)) ≡ xs
  without_inserted zero xs h = refl
  without_inserted (suc i) [] h = absurd (omega arith)
  without_inserted (suc i) (y ∷ ys) h = ap (◌∷◌ y) (without_inserted i ys (omega arith))

  length-inserted :
      (i : ℕ) (xs : List Value)
      → i ≤ length xs
      → length (take i xs ++ (x ∷ drop i xs)) ≡ suc (length xs)
  length-inserted zero xs h = refl
  length-inserted (suc i) [] h = absurd (omega arith)
  length-inserted (suc i) (y ∷ ys) h = omega (arith, length-inserted i ys (omega arith))

-- Removing what was just inserted passes back a copy of it and leaves the elements as they were.
pub remove_element_at-inserted :
    (vs : Elements) (capacity index : ℕ) (element : Option Value) (r : Value)
    → length (to_list vs) ≤ capacity
    → index ≤ length (to_list vs)
    → insert_element_at (list vs capacity) index element ≡ ok r
    → remove_element_at r index
      ≡ ok (inserted element, list vs (expanded (length (to_list vs)) capacity))
remove_element_at-inserted vs capacity index element r h i e =
    let x = inserted element in
    let ys = take index (to_list vs) ++ (x ∷ drop index (to_list vs)) in
    let g = expanded (length (to_list vs)) capacity in
    let is_list : r ≡ list (of_list ys) g =
      ok-injective (sym e ∙ (insert_element_at-inserts vs capacity index element h i).0) in
    let within : index < length (to_list (of_list ys)) =
      rw (to_list-of_list ys) (omega (arith, length-inserted x index (to_list vs) i)) in
    rw is_list (
      rw
        (
          to_list-of_list ys,
          get_or-inserted x index (to_list vs) i,
          without_inserted x index (to_list vs) i,
          of_list-to_list vs,
        )
        at (remove_element_at-removes (of_list ys) g index within))

length-set_slot : (i : ℕ) (x : Value) (xs : List Value) → length (set_slot unk i x xs) ≡ length xs
length-set_slot i x [] = refl
length-set_slot zero x (y ∷ ys) = refl
length-set_slot (suc i) x (y ∷ ys) = omega (arith, length-set_slot i x ys)

get_or-set_slot :
    (i j : ℕ) (x : Value) (xs : List Value)
    → i < length xs
    → get_or (set_slot unk i x xs) j unk ≡ (if i == j then x else get_or xs j unk)
get_or-set_slot i j x [] h = absurd (omega arith)
get_or-set_slot zero zero x (y ∷ ys) h = refl
get_or-set_slot zero (suc j) x (y ∷ ys) h = ground arith
get_or-set_slot (suc i) zero x (y ∷ ys) h = ground arith
get_or-set_slot (suc i) (suc j) x (y ∷ ys) h =
    ground (arith, get_or-set_slot i j x ys (omega arith))

-- Setting an element changes no other one, and not the number of elements: what is read back at the
-- index is a copy of the value, the element that was there, or an unknown value for NULL.
pub get_element_at-set_element_at :
    (vs : Elements) (capacity index other : ℕ) (element : Argument Value) (r : Value)
    → set_element_at (list vs capacity) index element ≡ ok r
    → get_element_at r other ≡ (
        if index == other
        then ok (replacement (get_or (to_list vs) index unk) element)
        else get_element_at (list vs capacity) other)
unfolding get_element_at set_element_at
get_element_at-set_element_at vs capacity index other element r e =
    elim (Bool-cases (leb (length (to_list vs)) index)) [
      | inl b ↦ absurd (cc (rw b at e))
      | inr b ↦
          let x = replacement (get_or (to_list vs) index unk) element in
          let slots = set_slot unk index x (to_list vs) in
          let is_list : list (of_list slots) capacity ≡ r = ok-injective (rw b at e) in
          rw
            (
              ← is_list,
              to_list-of_list slots,
              length-set_slot index x (to_list vs),
              get_or-set_slot index other x (to_list vs) (ground arith),
            )
            (elim (Bool-cases (index == other)) [
              | inl t ↦
                  let within : leb (length (to_list vs)) other ≡ false = ground arith in
                  rw (t, within)
              | inr t ↦ rw t
            ])
    ]
