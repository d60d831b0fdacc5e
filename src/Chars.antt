-- ===== src/Chars.antt =====
-- The code units that the sources name (src/internal/utils.h).
use cif_api.Base.{ℕ}

abbrev pub nl : ℕ
nl = 0xa

abbrev pub cr : ℕ
cr = 0xd

abbrev pub tab : ℕ
tab = 0x9

abbrev pub vt : ℕ
vt = 0xb

abbrev pub sp : ℕ
sp = 0x20

abbrev pub semi : ℕ
semi = b';'

abbrev pub sq : ℕ
sq = 0x27

abbrev pub dq : ℕ
dq = 0x22

abbrev pub bsl : ℕ
bsl = 0x5c
