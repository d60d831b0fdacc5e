-- ===== src/Scanner/Buffer/Room.antt =====
-- What `get_more_chars` of src/parser.c keeps of the buffer, and the room that it makes.
use cif_api.Base.{
  ℕ, zero, suc, ◌+◌, ◌-◌, ◌*◌, ◌≤◌, Bool, [], ◌∷◌, ◌++◌, ltb, leb, ltb→lt, leb→le, UString, length,
  take, drop, length-drop, ◌≡◌, refl, sym, ap, ◌∙◌, arith, Bool-cases, inl, inr,
}
use cif_api.Code.{Result, ok, err, memory_error}
use cif_api.Scanner.Buffer.{Window, moved, make_room, buf_min_fill, buf_size_initial}
use cif_api.Scanner.Buffer.Lines.{take-all}

-- The pointers are in order and inside the buffer, all of whose characters are read, and the buffer
-- has not shrunk.
abbrev pub IsValid : Window → Type 0
IsValid w =
    (w.text_start ≤ w.tvalue_start)
    × (w.tvalue_start ≤ w.next_char)
    × (w.next_char ≤ length w.buffer)
    × (length w.buffer ≤ w.buffer_size)
    × (buf_size_initial ≤ w.buffer_size)

abbrev pub IsExhausted : Window → Type 0
IsExhausted w = w.next_char ≡ length w.buffer

-- The text of the token in progress, with what is buffered behind it
abbrev pub pending : Window → UString
pending w = drop w.text_start w.buffer

-- The offset of the token's value in its text
abbrev pub value_offset : Window → ℕ
value_offset w = w.tvalue_start - w.text_start

-- The same token, in a valid buffer with room for a line.
abbrev pub Roomy : Window → Window → Type 0
Roomy w v =
    IsValid v
    × (length v.buffer + buf_min_fill ≤ v.buffer_size)
    × (pending v ≡ pending w)
    × (value_offset v ≡ value_offset w)
    × (v.next_char - v.text_start ≡ w.next_char - w.text_start)

drop-all : (n : ℕ) (xs : UString) → length xs ≤ n → drop n xs ≡ []
drop-all zero [] h = refl
drop-all zero (x ∷ xs) h = absurd (omega arith)
drop-all (suc n) [] h = refl
drop-all (suc n) (x ∷ xs) h = drop-all n xs (omega arith)

pub drop-append : (n : ℕ) (xs ys : UString) → n ≤ length xs → drop n (xs ++ ys) ≡ drop n xs ++ ys
drop-append zero xs ys h = refl
drop-append (suc n) [] ys h = absurd (omega arith)
drop-append (suc n) (x ∷ xs) ys h = drop-append n xs ys (omega arith)

moved-pending : (size : ℕ) (w : Window) → IsExhausted w → pending (moved size w) ≡ pending w
moved-pending size w e =
    ap (λ k. take k (drop w.text_start w.buffer))
      (omega (arith, e, length-drop w.text_start w.buffer))
    ∙ take-all (drop w.text_start w.buffer)

moved-Roomy :
    (size : ℕ) (w : Window)
    → IsValid w
    → IsExhausted w
    → w.buffer_size ≤ size
    → (w.next_char - w.text_start) + buf_min_fill ≤ size
    → Roomy w (moved size w)
moved-Roomy size w (a, b, c, d, f) e grows fits =
    let same = moved-pending size w e in
    let n : length (pending (moved size w)) ≡ w.next_char - w.text_start =
      ap length same ∙ omega (arith, e, length-drop w.text_start w.buffer) in
    (
      (omega arith, omega arith, omega (arith, n), omega (arith, n), omega arith),
      omega (arith, n),
      same,
      omega arith,
      omega arith,
    )

abbrev pub Made : Window → Result Window → Type 0
Made w (err code) = code ≡ memory_error
Made w (ok v) = Roomy w v

-- What a refill leaves of the token in progress: everything, with what is added behind it.
abbrev pub Refilled : Window → Window → Type 0
Refilled w v =
    IsValid v
    × ((added : UString) × (pending v ≡ pending w ++ added))
    × (value_offset v ≡ value_offset w)
    × (v.next_char - v.text_start ≡ w.next_char - w.text_start)

module _ (allocates : ℕ → Bool) where
  pub make_room-Made : (w : Window) → IsValid w → IsExhausted w → Made w (make_room allocates w)
  unfolding make_room
  make_room-Made w valid e = elim (Bool-cases (leb (length w.buffer) w.text_start)) [
    | inl p ↦ rw p (
        let (a, b, c, d, f) = valid in
        let le = leb→le (length w.buffer) w.text_start p in
        (
          (omega arith, omega arith, omega arith, omega arith, f),
          omega arith,
          sym (drop-all w.text_start w.buffer le),
          omega arith,
          omega arith,
        ))
    | inr p ↦ elim (Bool-cases (ltb w.buffer_size (length w.buffer + buf_min_fill))) [
      | inl q ↦ elim (Bool-cases (ltb ((w.next_char - w.text_start) * 2) w.buffer_size)) [
        | inl r ↦
            rw (p, q, r)
              (moved-Roomy w.buffer_size w valid e (omega arith) (
                let (a, b, c, d, f) = valid in
                let lt = ltb→lt ((w.next_char - w.text_start) * 2) w.buffer_size r in omega arith))
        | inr r ↦ elim (Bool-cases (allocates (w.buffer_size * 2))) [
          | inl t ↦
              rw (p, q, r, t)
                (moved-Roomy (w.buffer_size * 2) w valid e (omega arith)
                  (let (a, b, c, d, f) = valid in omega arith))
          | inr t ↦ rw (p, q, r, t) refl
        ]
      ]
      | inr q ↦ rw (p, q) (let (a, b, c, d, f) = valid in (valid, ground arith, refl, refl, refl))
    ]
  ]
