-- ===== src/Tests/Columns.antt =====
-- Concrete outputs for the theorems on the column that src/ciffile.c records.
use cif_api.Base.{[], ◌∷◌, refl, arith}
use cif_api.Chars.{nl, sp}
use cif_api.Writer.Columns.{Context, column, is_one_line, IsAligned}
use cif_api.Writer.Columns.Quoted.{write_quoted, write_quoted-IsAligned}

-- A line feed and `_a`
abbrev after_name : Context
after_name = record { output = nl ∷ 95 ∷ 97 ∷ []; last_column = 2 }

after_name-IsAligned : IsAligned after_name
unfolding column
after_name-IsAligned = record { recorded = refl; bounded = omega arith }

write_quoted-IsAligned_example : IsAligned (write_quoted (98 ∷ sp ∷ 99 ∷ []) 39 after_name)
unfolding is_one_line
write_quoted-IsAligned_example =
    write_quoted-IsAligned (98 ∷ sp ∷ 99 ∷ []) 39 after_name after_name-IsAligned refl refl
      (omega arith)
