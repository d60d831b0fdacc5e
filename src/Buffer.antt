-- ===== src/Buffer.antt =====
-- The buffers of src/value.c that values are serialized into: `cif_buf_write` and `cif_buf_read`.
-- Allocations succeed. `start` has the bytes below the limit.
pub mod Growth
use cif_api.Base.{
  ℕ, zero, suc, ◌+◌, ◌-◌, ◌*◌, ◌/◌, ◌%◌, ◌^◌, Bool, true, false, ◌||◌, Option, none, some, List, [],
  ◌∷◌, ◌++◌, ltb, leb, ◌==◌, if◌then◌else◌, length, take, drop,
}
use cif_api.Code.{Result, ok, err, error}

-- `struct write_buffer_s` and `struct read_buffer_s`
pub record Buf : Type 0 where
  pub start : List ℕ
  pub capacity : ℕ
  pub limit : ℕ
  pub position : ℕ

-- `cif_buf_create`
abbrev pub buf_create : ℕ → Buf
buf_create cap = record { start = []; capacity = cap; limit = 0; position = 0 }

-- The values of a `size_t`.
abbrev pub size_max : ℕ
size_max = 2 ^ 64

-- One round of the loop that expands the capacity.
abbrev pub proposed : ℕ → ℕ → ℕ
proposed working_cap needed_cap =
    let cap = (working_cap * 3) % size_max / 2 in if ltb cap working_cap then needed_cap else cap

-- The loop, which tests the same `working_cap` again; `none` where the fuel ends first.
unfoldable pub expand : ℕ → ℕ → ℕ → Option ℕ
expand zero working_cap needed_cap = none
expand (suc fuel) working_cap needed_cap =
    let rest = expand fuel working_cap needed_cap in
    let cap = proposed working_cap needed_cap in if ltb cap needed_cap then rest else some cap

-- `memcpy` to the position, and the new position and limit
abbrev pub put : Buf → List ℕ → Buf
put buf src =
    let position = buf.position + length src in
    record buf {
      start = take buf.position buf.start ++ (src ++ drop position buf.start);
      position = position;
      limit = if ltb buf.limit position then position else buf.limit;
    }

-- `cif_buf_write`; the capacity is not recorded anew.
unfoldable pub buf_write : ℕ → Buf → List ℕ → Option (Result Buf)
unfolding expand
buf_write fuel buf src =
    let needed_cap = (buf.position + length src) % size_max in
    let grown = expand fuel buf.capacity needed_cap in
    if ltb needed_cap buf.position
    then some (err error)
    else (if ltb buf.capacity needed_cap
        then elim grown [ none ↦ none | some cap ↦ some (ok (put buf src)) ]
        else some (ok (put buf src)))

-- `cif_buf_read`: the bytes, and the buffer behind them.
unfoldable pub buf_read : Buf → ℕ → List ℕ × Buf
buf_read buf max =
    let available = buf.limit - buf.position in
    let count = if ltb available max then available else max in
    if leb buf.limit buf.position || max == 0
    then ([], buf)
    else (take count (drop buf.position buf.start), record buf { position = buf.position + count })
