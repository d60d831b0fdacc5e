-- ===== src/Array.antt =====
-- The loops of src/value.c that move the elements of a list in its array, and what they amount to.
-- A slot that is read before it is written holds `junk`.
use cif_api.Base.{
  ℕ, zero, suc, ◌+◌, ◌≤◌, true, false, List, [], ◌∷◌, ◌++◌, ltb, if◌then◌else◌, length, get_or,
  take, drop, ◌≡◌, refl, ap, arith, Bool-cases, inl, inr,
}

module _ {A : Type 0} (junk : A) where
  -- `elements[i] = x`
  abbrev pub set_slot : ℕ → A → List A → List A
  set_slot i x [] = []
  set_slot zero x (y ∷ ys) = x ∷ ys
  set_slot (suc i) x (y ∷ ys) = y ∷ set_slot i x ys

  -- "move trailing elements back to make room"; the first argument is `index2`.
  unfoldable pub move_back : ℕ → ℕ → List A → List A
  move_back zero index elements = elements
  move_back (suc i) index elements =
      let rest = move_back i index (set_slot (suc i) (get_or elements i junk) elements) in
      if ltb index (suc i) then rest else elements

  -- "move trailing elements forward to fill in"; the fuel bounds the rounds.
  unfoldable pub move_forward : ℕ → ℕ → ℕ → List A → List A
  move_forward zero index size elements = elements
  move_forward (suc fuel) index size elements =
      let rest =
        move_forward fuel (suc index) size
          (set_slot index (get_or elements (suc index) junk) elements) in
      if ltb (suc index) size then rest else elements

  move_back-cons :
      (i index : ℕ) (x : A) (xs : List A)
      → move_back (suc i) (suc index) (x ∷ xs) ≡ x ∷ move_back i index xs
  unfolding move_back
  move_back-cons zero index x xs = ground arith
  move_back-cons (suc i) index x xs = elim (Bool-cases (ltb index (suc i))) [
    | inl b ↦
        let c : ltb (suc index) (suc (suc i)) ≡ true = ground arith in
        rw (b, c) (move_back-cons i index x (set_slot (suc i) (get_or xs i junk) xs))
    | inr b ↦ let c : ltb (suc index) (suc (suc i)) ≡ false = ground arith in rw (b, c)
  ]

  -- The last round of a loop that goes all the way down.
  move_back-last :
      (i : ℕ) (xs : List A)
      → move_back (suc i) 0 xs
        ≡ set_slot 1 (get_or (move_back (suc i) 1 xs) 0 junk) (move_back (suc i) 1 xs)
  unfolding move_back
  move_back-last zero xs = refl
  move_back-last (suc i) xs =
      let b : ltb 0 (suc (suc i)) ≡ true = ground arith in
      let c : ltb 1 (suc (suc i)) ≡ true = ground arith in
      rw (b, c) (move_back-last i (set_slot (suc (suc i)) (get_or xs (suc i) junk) xs))

  insert_front :
      (x j : A) (xs : List A) → set_slot 0 x (move_back (length xs) 0 (xs ++ (j ∷ []))) ≡ x ∷ xs
  unfolding move_back
  insert_front x j [] = refl
  insert_front x j (y ∷ ys) = rw (
    move_back-last (length ys) (y ∷ (ys ++ (j ∷ []))),
    move_back-cons (length ys) 0 y (ys ++ (j ∷ [])),
    insert_front y j ys,
  )

  -- Moving the elements back and storing one inserts it.
  pub move_back-inserts :
      (index : ℕ) (x j : A) (xs : List A)
      → index ≤ length xs
      → set_slot index x (move_back (length xs) index (xs ++ (j ∷ [])))
        ≡ take index xs ++ (x ∷ drop index xs)
  move_back-inserts zero x j xs h = insert_front x j xs
  move_back-inserts (suc index) x j [] h = absurd (omega arith)
  move_back-inserts (suc index) x j (y ∷ ys) h =
      rw (move_back-cons (length ys) index y (ys ++ (j ∷ [])))
        (ap (◌∷◌ y) (move_back-inserts index x j ys (omega arith)))

  move_forward-cons :
      (fuel index size : ℕ) (x : A) (xs : List A)
      → move_forward fuel (suc index) (suc size) (x ∷ xs) ≡ x ∷ move_forward fuel index size xs
  unfolding move_forward
  move_forward-cons zero index size x xs = refl
  move_forward-cons (suc fuel) index size x xs = elim (Bool-cases (ltb (suc index) size)) [
    | inl b ↦
        let c : ltb (suc (suc index)) (suc size) ≡ true = ground arith in
        rw (b, c)
          (move_forward-cons fuel (suc index) size x
            (set_slot index (get_or xs (suc index) junk) xs))
    | inr b ↦ let c : ltb (suc (suc index)) (suc size) ≡ false = ground arith in rw (b, c)
  ]

  remove_front :
      (fuel : ℕ) (x : A) (xs : List A)
      → length xs ≤ fuel
      → take (length xs) (move_forward fuel 0 (suc (length xs)) (x ∷ xs)) ≡ xs
  unfolding move_forward
  remove_front fuel x [] h = refl
  remove_front zero x (y ∷ ys) h = absurd (omega arith)
  remove_front (suc fuel) x (y ∷ ys) h =
      let c : ltb 1 (suc (suc (length ys))) ≡ true = ground arith in
      rw (c, move_forward-cons fuel 0 (suc (length ys)) y (y ∷ ys))
        (ap (◌∷◌ y) (remove_front fuel y ys (omega arith)))

  -- Moving the elements forward and dropping the last slot removes one.
  pub move_forward-removes :
      (fuel index : ℕ) (x : A) (xs : List A)
      → index ≤ length xs
      → length xs ≤ index + fuel
      → take (length xs) (move_forward fuel index (suc (length xs)) (x ∷ xs))
        ≡ take index (x ∷ xs) ++ drop (suc index) (x ∷ xs)
  move_forward-removes fuel zero x xs h l = remove_front fuel x xs (omega arith)
  move_forward-removes fuel (suc index) x [] h l = absurd (omega arith)
  move_forward-removes fuel (suc index) x (y ∷ ys) h l =
      rw (move_forward-cons fuel index (suc (length ys)) x (y ∷ ys))
        (ap (◌∷◌ x) (move_forward-removes fuel index y ys (omega arith) (omega arith)))
