-- ===== src/Buffer/Growth.antt =====
-- What is written to a buffer (src/value.c) can be read back, while one step of growth suffices.
use cif_api.Base.{
  ℕ, zero, suc, ◌+◌, ◌-◌, ◌*◌, ◌/◌, ◌%◌, ◌≤◌, ◌<◌, true, false, none, some, List, [], ◌∷◌, ◌++◌,
  ltb, leb, ◌==◌, length, take, drop, length-append, length-take, length-drop, ◌≡◌, refl, ap, arith,
  Bool-cases, inl, inr,
}
use cif_api.Code.{ok}
use cif_api.Buffer.{Buf, size_max, proposed, expand, put, buf_write, buf_read}

-- The position is within the bytes, and the limit is their number.
pub record IsSound (buf : Buf) : Type 0 where
  pub within : buf.position ≤ buf.limit
  pub limited : length buf.start ≡ buf.limit

-- Where more than one and a half times the capacity is needed, the loop never ends.
pub expand-none :
    (fuel working_cap needed_cap : ℕ)
    → working_cap * 3 < size_max
    → working_cap * 3 / 2 < needed_cap
    → expand fuel working_cap needed_cap ≡ none
unfolding expand
expand-none zero w n h l = refl
expand-none (suc fuel) w n h l =
    let small : ltb (proposed w n) n ≡ true = ground arith in rw small (expand-none fuel w n h l)

-- Where less is needed, the first round ends it.
expand-some :
    (fuel working_cap needed_cap : ℕ)
    → working_cap * 3 < size_max
    → needed_cap ≤ working_cap * 3 / 2
    → expand (suc fuel) working_cap needed_cap ≡ some (working_cap * 3 / 2)
unfolding expand
expand-some fuel w n h l =
    let large : ltb (proposed w n) n ≡ false = ground arith in
    let same : proposed w n ≡ w * 3 / 2 = ground arith in rw (large, same)

take-append : (xs ys : List ℕ) → take (length xs) (xs ++ ys) ≡ xs
take-append [] ys = refl
take-append (x ∷ xs) ys = ap (◌∷◌ x) (take-append xs ys)

drop-put : (n : ℕ) (xs ys : List ℕ) → n ≤ length xs → drop n (take n xs ++ ys) ≡ ys
drop-put zero xs ys h = refl
drop-put (suc n) [] ys h = absurd (omega arith)
drop-put (suc n) (x ∷ xs) ys h = drop-put n xs ys (omega arith)

put-IsSound : (buf : Buf) (src : List ℕ) → IsSound buf → IsSound (put buf src)
put-IsSound buf src s =
    let position = buf.position + length src in
    record {
      within = ground arith;
      limited = ground (
        arith,
        length-append (take buf.position buf.start) (src ++ drop position buf.start),
        length-append src (drop position buf.start),
        length-take buf.position buf.start,
        length-drop position buf.start,
        s.within,
        s.limited,
      );
    }

written :
    (buf : Buf) (src : List ℕ)
    → IsSound buf
    → take (length src) (drop buf.position (put buf src).start) ≡ src
written buf src s =
    rw
      (drop-put buf.position buf.start (src ++ drop (buf.position + length src) buf.start)
        (omega (arith, s.within, s.limited)))
      (take-append src (drop (buf.position + length src) buf.start))

reads_back :
    (buf : Buf) (src : List ℕ)
    → IsSound buf
    → (buf_read (record (put buf src) { position = buf.position }) (length src)).0 ≡ src
unfolding buf_read
reads_back buf [] s = elim (Bool-cases (leb (put buf []).limit buf.position)) [
  | inl b ↦ rw b refl
  | inr b ↦ rw b refl
]
reads_back buf (c ∷ cs) s =
    let limit = (put buf (c ∷ cs)).limit in
    let ahead : leb limit buf.position ≡ false = ground arith in
    let some_bytes : (suc (length cs) == 0) ≡ false = ground arith in
    let enough : ltb (limit - buf.position) (suc (length cs)) ≡ false = ground arith in
    rw (ahead, some_bytes, enough) (written buf (c ∷ cs) s)

-- A write that needs at most one and a half times the capacity succeeds and keeps the buffer
-- sound, and the bytes written are read back from where they were put.
pub buf_read-buf_write :
    (fuel : ℕ) (buf : Buf) (src : List ℕ)
    → IsSound buf
    → buf.capacity * 3 < size_max
    → buf.position + length src ≤ buf.capacity * 3 / 2
    → (buf_write (suc fuel) buf src ≡ some (ok (put buf src)))
      × IsSound (put buf src)
      × ((buf_read (record (put buf src) { position = buf.position }) (length src)).0 ≡ src)
unfolding buf_write buf_read
buf_read-buf_write fuel buf src s h l =
    let needed : (buf.position + length src) % size_max ≡ buf.position + length src =
      ground arith in
    let no_wrap : ltb (buf.position + length src) buf.position ≡ false = ground arith in
    let writes : buf_write (suc fuel) buf src ≡ some (ok (put buf src)) =
      elim (Bool-cases (ltb buf.capacity (buf.position + length src))) [
        | inl b ↦
            rw (needed, no_wrap, b, expand-some fuel buf.capacity (buf.position + length src) h l)
        | inr b ↦ rw (needed, no_wrap, b)
      ] in
    (writes, put-IsSound buf src s, reads_back buf src s)
