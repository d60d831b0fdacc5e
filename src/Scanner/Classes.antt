-- ===== src/Scanner/Classes.antt =====
-- The character classes of the scanner: the tables that `INIT_V2_SCANNER` and `SET_V1` of
-- src/parser.c fill, and the lookup `CLASS_OF`.
pub mod Standard
pub mod Letters
use cif_api.Base.{
  ℕ, Bool, true, false, ◌&&◌, ◌||◌, List, [], ◌∷◌, any, ltb, leb, ◌==◌, if◌then◌else◌, UString, ◌≡◌,
  ◌⊎◌, ◌≢◌, inl, inr, arith,
}
use cif_api.Chars.{nl, cr, tab, sp, semi, sq, dq}

pub data Class : Type 0 where
  no_class general ws eol hash underscore quote semicolon obrak cbrak ocurl ccurl dollar : Class
  obrak1 cbrak1 letter_a letter_b letter_d letter_e letter_g letter_l letter_o letter_p : Class
  letter_s letter_t letter_v : Class

-- The numbers of src/internal/ciftypes.h, `NO_CLASS` to `V_CLASS`
abbrev pub class_code : Class → ℕ
class_code no_class = 0
class_code general = 1
class_code ws = 2
class_code eol = 3
class_code hash = 5
class_code underscore = 6
class_code quote = 7
class_code semicolon = 9
class_code obrak = 10
class_code cbrak = 11
class_code ocurl = 12
class_code ccurl = 13
class_code dollar = 15
class_code obrak1 = 16
class_code cbrak1 = 17
class_code letter_a = 18
class_code letter_b = 19
class_code letter_d = 20
class_code letter_e = 21
class_code letter_g = 22
class_code letter_l = 23
class_code letter_o = 24
class_code letter_p = 25
class_code letter_s = 26
class_code letter_t = 27
class_code letter_v = 28

-- `CHAR_TABLE_MAX`
abbrev pub char_table_max : ℕ
char_table_max = 160

-- What a scanner's tables depend on: its options and the CIF version. The scanner is in CIF 1
-- mode (`SET_V1` was applied) exactly when the version is below 2.
pub record Dialect : Type 0 where
  pub extra_ws : List ℕ
  pub extra_eol : List ℕ
  pub cif_version : ℕ

abbrev mem : ℕ → List ℕ → Bool
mem c cs = any (λ x. x == c) cs

-- A letter of a reserved word, in either case; the other general characters.
pub letter_class : ℕ → Class
letter_class c =
    if c == b'A' || c == b'a'
    then letter_a
    else if c == b'B' || c == b'b'
    then letter_b
    else if c == b'D' || c == b'd'
    then letter_d
    else if c == b'E' || c == b'e'
    then letter_e
    else if c == b'G' || c == b'g'
    then letter_g
    else if c == b'L' || c == b'l'
    then letter_l
    else if c == b'O' || c == b'o'
    then letter_o
    else if c == b'P' || c == b'p'
    then letter_p
    else if c == b'S' || c == b's'
    then letter_s
    else if c == b'T' || c == b't'
    then letter_t
    else letter_v

abbrev is_class_letter : ℕ → Bool
is_class_letter c =
    c == b'A'
    || c == b'a'
    || c == b'B'
    || c == b'b'
    || c == b'D'
    || c == b'd'
    || c == b'E'
    || c == b'e'
    || c == b'G'
    || c == b'g'
    || c == b'L'
    || c == b'l'
    || c == b'O'
    || c == b'o'
    || c == b'P'
    || c == b'p'
    || c == b'S'
    || c == b's'
    || c == b'T'
    || c == b't'
    || c == b'V'
    || c == b'v'

-- The ranges, overridden by the caller's white space and then by the caller's line terminators.
pub range_class : Dialect → ℕ → Class
range_class d c =
    if mem c d.extra_eol
    then eol
    else if mem c d.extra_ws
    then ws
    else if leb 32 c && ltb c 127
    then general
    else no_class

-- `char_class[c]`: later assignments override earlier ones, so the table is read from its end.
pub table_class : Dialect → ℕ → Class
unfolding letter_class range_class
table_class d c =
    if c == 0x7f
    then no_class
    else if is_class_letter c
    then letter_class c
    else if c == 0x7d
    then (if ltb d.cif_version 2 then general else ccurl)
    else if c == 0x7b
    then (if ltb d.cif_version 2 then general else ocurl)
    else if c == b'_'
    then underscore
    else if c == 0x5d
    then (if ltb d.cif_version 2 then cbrak1 else cbrak)
    else if c == 0x5b
    then (if ltb d.cif_version 2 then obrak1 else obrak)
    else if c == semi
    then semicolon
    else if c == 0x3a
    then general
    else if c == sq
    then quote
    else if c == b'$'
    then dollar
    else if c == b'#'
    then hash
    else if c == dq
    then quote
    else if c == sp
    then ws
    else if c == cr
    then eol
    else if c == nl
    then eol
    else if c == tab
    then ws
    else range_class d c

-- `CLASS_OF`
unfoldable pub class_of : Dialect → ℕ → Class
unfolding table_class
class_of d c =
    if ltb c char_table_max
    then table_class d c
    else if leb 2 d.cif_version
    then general
    else no_class

-- The two classes that line processing asks for.
abbrev pub is_eol_class : Class → Bool
is_eol_class eol = true
is_eol_class _ = false

abbrev pub is_ws_class : Class → Bool
is_ws_class ws = true
is_ws_class _ = false
