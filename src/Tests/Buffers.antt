-- ===== src/Tests/Buffers.antt =====
-- Concrete buffers for the theorems on src/value.c's `cif_buf_write`.
use cif_api.Base.{none, some, [], ◌∷◌, ◌≡◌, refl, arith}
use cif_api.Code.{ok}
use cif_api.Buffer.{Buf, expand, put, buf_write, buf_read}
use cif_api.Buffer.Growth.{IsSound, expand-none, buf_read-buf_write}

abbrev two_bytes : Buf
two_bytes = record { start = 1 ∷ (2 ∷ []); capacity = 10; limit = 2; position = 1 }

two_bytes-IsSound : IsSound two_bytes
two_bytes-IsSound = record { within = omega arith; limited = refl }

expand-none_example : expand 3 10 100 ≡ none
expand-none_example = expand-none 3 10 100 (omega arith) (omega arith)

buf_read-buf_write_example :
    (buf_write 1 two_bytes (3 ∷ (4 ∷ [])) ≡ some (ok (put two_bytes (3 ∷ (4 ∷ [])))))
    × IsSound (put two_bytes (3 ∷ (4 ∷ [])))
    × ((buf_read (record (put two_bytes (3 ∷ (4 ∷ []))) { position = 1 }) 2).0 ≡ 3 ∷ (4 ∷ []))
buf_read-buf_write_example =
    buf_read-buf_write 0 two_bytes (3 ∷ (4 ∷ [])) two_bytes-IsSound (omega arith) (omega arith)
