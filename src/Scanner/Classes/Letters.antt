-- ===== src/Scanner/Classes/Letters.antt =====
-- The letters of reserved words and the underscore have classes of their own, whatever the options
-- of the scanner (src/parser.c).
use cif_api.Base.{ℕ, ◌<◌, ◌||◌, ◌==◌, ◌≡◌, refl, arith}
use cif_api.Scanner.Classes.{
  Class, Dialect, class_of, class_code, letter_class, range_class, table_class,
}

range_class-small : (d : Dialect) (c : ℕ) → class_code (range_class d c) < 6
unfolding range_class
range_class-small d c = ground arith

pub underscore_test : (d : Dialect) (c : ℕ) → (class_code (class_of d c) == 6) ≡ (c == b'_')
unfolding class_of table_class letter_class
underscore_test d c = ground (arith, range_class-small d c)

pub letter_a-test :
    (d : Dialect) (c : ℕ) → (class_code (class_of d c) == 18) ≡ (c == b'A' || c == b'a')
unfolding class_of table_class letter_class
letter_a-test d c = ground (arith, range_class-small d c)

pub letter_b-test :
    (d : Dialect) (c : ℕ) → (class_code (class_of d c) == 19) ≡ (c == b'B' || c == b'b')
unfolding class_of table_class letter_class
letter_b-test d c = ground (arith, range_class-small d c)

pub letter_d-test :
    (d : Dialect) (c : ℕ) → (class_code (class_of d c) == 20) ≡ (c == b'D' || c == b'd')
unfolding class_of table_class letter_class
letter_d-test d c = ground (arith, range_class-small d c)

pub letter_e-test :
    (d : Dialect) (c : ℕ) → (class_code (class_of d c) == 21) ≡ (c == b'E' || c == b'e')
unfolding class_of table_class letter_class
letter_e-test d c = ground (arith, range_class-small d c)

pub letter_g-test :
    (d : Dialect) (c : ℕ) → (class_code (class_of d c) == 22) ≡ (c == b'G' || c == b'g')
unfolding class_of table_class letter_class
letter_g-test d c = ground (arith, range_class-small d c)

pub letter_l-test :
    (d : Dialect) (c : ℕ) → (class_code (class_of d c) == 23) ≡ (c == b'L' || c == b'l')
unfolding class_of table_class letter_class
letter_l-test d c = ground (arith, range_class-small d c)

pub letter_o-test :
    (d : Dialect) (c : ℕ) → (class_code (class_of d c) == 24) ≡ (c == b'O' || c == b'o')
unfolding class_of table_class letter_class
letter_o-test d c = ground (arith, range_class-small d c)

pub letter_p-test :
    (d : Dialect) (c : ℕ) → (class_code (class_of d c) == 25) ≡ (c == b'P' || c == b'p')
unfolding class_of table_class letter_class
letter_p-test d c = ground (arith, range_class-small d c)

pub letter_s-test :
    (d : Dialect) (c : ℕ) → (class_code (class_of d c) == 26) ≡ (c == b'S' || c == b's')
unfolding class_of table_class letter_class
letter_s-test d c = ground (arith, range_class-small d c)

pub letter_t-test :
    (d : Dialect) (c : ℕ) → (class_code (class_of d c) == 27) ≡ (c == b'T' || c == b't')
unfolding class_of table_class letter_class
letter_t-test d c = ground (arith, range_class-small d c)

pub letter_v-test :
    (d : Dialect) (c : ℕ) → (class_code (class_of d c) == 28) ≡ (c == b'V' || c == b'v')
unfolding class_of table_class letter_class
letter_v-test d c = ground (arith, range_class-small d c) steps 20000000

pub colon-general : (d : Dialect) → class_of d b':' ≡ Class.general
unfolding class_of table_class
colon-general d = refl
