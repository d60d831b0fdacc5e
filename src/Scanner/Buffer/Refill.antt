-- ===== src/Scanner/Buffer/Refill.antt =====
-- What a refill of the scanner's buffer leaves of the token in progress: `get_more_chars` of
-- src/parser.c.
use cif_api.Base.{
  ℕ, zero, ◌+◌, ◌-◌, ◌≤◌, Bool, [], ◌∷◌, ◌++◌, UString, length, length-append, append-nil, ◌≡◌,
  refl, sym, ap, ◌∙◌, arith, Bool-cases, inl, inr,
}
use cif_api.Code.{Result, ok, err}
use cif_api.Scanner.Buffer.{
  Window, make_room, append_chunk, read_more, fill_room, get_more_chars, transferred,
}
use cif_api.Scanner.Buffer.Lines.{length-transferred}
use cif_api.Scanner.Buffer.Room.{
  IsValid, IsExhausted, Roomy, Made, Refilled, pending, make_room-Made, drop-append,
}

-- A chunk that the source gave has room in the buffer.
abbrev Fits : Window → Result UString → Type 0
Fits v (err code) = zero ≤ v.buffer_size
Fits v (ok chunk) = length v.buffer + length chunk ≤ v.buffer_size

append_chunk-Refilled :
    (w v : Window) (chunk : Result UString)
    → Roomy w v
    → Fits v chunk
    → Refilled w (append_chunk chunk v).1
append_chunk-Refilled w v (err code) (valid, room, same, offset, text) fits =
    (valid, ([], same ∙ sym (append-nil (pending w))), offset, text)
append_chunk-Refilled w v (ok []) (valid, room, same, offset, text) fits =
    (valid, ([], same ∙ sym (append-nil (pending w))), offset, text)
append_chunk-Refilled w v (ok (c ∷ cs)) ((a, b, l, d, f), room, same, offset, text) fits =
    let added = transferred (c ∷ cs) in
    let total = length-append v.buffer added in
    (
      (a, b, omega (arith, total, l), omega (arith, total, fits, length-transferred (c ∷ cs)), f),
      (added, drop-append v.text_start v.buffer added (omega arith) ∙ ap (λ k. k ++ added) same),
      offset,
      text,
    )

result-Fits :
    (v : Window) (r : Result UString)
    → length v.buffer ≤ v.buffer_size
    → ((units : UString) → r ≡ ok units → length units ≤ v.buffer_size - length v.buffer)
    → Fits v r
result-Fits v (err code) d h = omega arith
result-Fits v (ok units) d h = omega (arith, h units refl)

module _ {Source : Type 0} (read_func : Source → ℕ → Result UString × Source) where
  -- A character source writes no more than it is asked for.
  abbrev pub IsBounded : Type 0
  IsBounded =
      (source : Source) (n : ℕ) (units : UString)
      → (read_func source n).0 ≡ ok units
      → length units ≤ n

  module _ (bounded : IsBounded) where
    read_more-Fits :
        (source : Source) (v : Window)
        → length v.buffer ≤ v.buffer_size
        → Fits v (read_more read_func source v).0
    read_more-Fits source v d = elim (Bool-cases v.at_eof) [
      | inl b ↦ rw b (omega arith)
      | inr b ↦ rw b (
          result-Fits v (read_func source (v.buffer_size - length v.buffer)).0 d
            (bounded source (v.buffer_size - length v.buffer)))
    ]

    fill_room-Refilled :
        (source : Source) (w : Window) (r : Result Window)
        → IsValid w
        → Made w r
        → Refilled w (fill_room read_func source w r).0.1
    fill_room-Refilled source w (err code) valid made =
        (valid, ([], sym (append-nil (pending w))), refl, refl)
    fill_room-Refilled source w (ok v) valid made =
        let ((a, b, c, d, f), room, same, offset, text) = made in
        append_chunk-Refilled w v (read_more read_func source v).0 made (read_more-Fits source v d)

    -- A refill of a valid buffer all of whose characters are read, whatever the source gives and
    -- whether or not memory can be had, gives a valid buffer, keeps the text of the token in
    -- progress, possibly with more behind it, and keeps the offsets of the token's value and of
    -- the next character in that text.
    pub get_more_chars-Refilled :
        (allocates : ℕ → Bool) (source : Source) (w : Window)
        → IsValid w
        → IsExhausted w
        → Refilled w (get_more_chars read_func allocates source w).0.1
    unfolding get_more_chars
    get_more_chars-Refilled allocates source w valid e =
        fill_room-Refilled source w (make_room allocates w) valid
          (make_room-Made allocates w valid e)
