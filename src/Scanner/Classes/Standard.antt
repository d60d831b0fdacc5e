-- ===== src/Scanner/Classes/Standard.antt =====
-- The line terminators and the white space of a scanner with no characters added by its options
-- (src/parser.c).
use cif_api.Base.{ℕ, false, ◌||◌, [], ◌==◌, ◌≡◌, arith}
use cif_api.Chars.{nl, cr, tab, sp}
use cif_api.Scanner.Classes.{
  Dialect, class_of, letter_class, range_class, table_class, is_eol_class, is_ws_class,
}

-- No option adds white space or line terminators.
abbrev pub standard : ℕ → Dialect
standard version = record { extra_ws = []; extra_eol = []; cif_version = version }

letter_class-neither :
    (c : ℕ) → (is_eol_class (letter_class c) ≡ false) × (is_ws_class (letter_class c) ≡ false)
unfolding letter_class
letter_class-neither c = ground arith

range_class-neither :
    (v c : ℕ)
    → (is_eol_class (range_class (standard v) c) ≡ false)
      × (is_ws_class (range_class (standard v) c) ≡ false)
unfolding range_class
range_class-neither v c = ground arith

table_class-eol : (v c : ℕ) → is_eol_class (table_class (standard v) c) ≡ (c == nl || c == cr)
unfolding table_class
table_class-eol v c = ground (arith, letter_class-neither c, range_class-neither v c)

table_class-ws : (v c : ℕ) → is_ws_class (table_class (standard v) c) ≡ (c == sp || c == tab)
unfolding table_class
table_class-ws v c = ground (arith, letter_class-neither c, range_class-neither v c)

pub class_of-eol : (v c : ℕ) → is_eol_class (class_of (standard v) c) ≡ (c == nl || c == cr)
unfolding class_of
class_of-eol v c = ground (arith, table_class-eol v c)

pub class_of-ws : (v c : ℕ) → is_ws_class (class_of (standard v) c) ≡ (c == sp || c == tab)
unfolding class_of
class_of-ws v c = ground (arith, table_class-ws v c)
