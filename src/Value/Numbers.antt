-- ===== src/Value/Numbers.antt =====
-- The texts of numbers in src/value.c: `cif_value_parse_numb`, which reads one, and
-- `format_text_decimal`, which writes one in decimal notation. An exponent is a natural number of
-- any size, where the source has an `int`.
pub mod Digits
pub mod RoundTrip
pub mod Bounds
use cif_api.Base.{
  ℕ, zero, suc, ◌+◌, ◌-◌, ◌*◌, Bool, true, false, not, ◌&&◌, ◌||◌, Option, none, some, [], ◌∷◌,
  ◌++◌, ltb, leb, ◌==◌, if◌then◌else◌, UString, length, take, drop, line_length,
}
use cif_api.Code.{Result, ok, err, argument_error, invalid_number, ◌>>=◌}
use cif_api.Value.{ℤ, Numb}

abbrev pub point : ℕ
point = b'.'

abbrev pub is_digit : ℕ → Bool
is_digit c = leb b'0' c && leb c b'9'

-- The loop over the digits and one decimal point; the first argument is `num_decimal`. It gives
-- the units that it passes over, and the others.
unfoldable pub scan_digits : Bool → UString → UString × UString
scan_digits seen [] = ([], [])
scan_digits seen (c ∷ cs) =
    let (digits, rest) = scan_digits seen cs in
    let (digits', rest') = scan_digits true cs in
    if is_digit c
    then (c ∷ digits, rest)
    else if c == point && not seen
    then (c ∷ digits', rest')
    else ([], c ∷ cs)

-- The number of units behind the decimal point; none where it is the last one or is missing.
unfoldable pub fraction_size : UString → ℕ
fraction_size [] = 0
fraction_size (c ∷ cs) = if c == point then length cs else fraction_size cs

-- "any leading insignificant zeroes", up to the last unit; a decimal point among them goes as well.
unfoldable pub skip_zeroes : UString → UString
skip_zeroes [] = []
skip_zeroes (c ∷ []) = c ∷ []
skip_zeroes (c ∷ (d ∷ ds)) =
    let rest = skip_zeroes (d ∷ ds) in if c == b'0' || c == point then rest else c ∷ (d ∷ ds)

-- The loop that copies the units, "skipping over the decimal point, if any"
unfoldable pub copy_digits : UString → UString
copy_digits [] = []
copy_digits (c ∷ cs) = if c == point then copy_digits cs else c ∷ copy_digits cs

-- A trailing decimal point is consumed.
unfoldable pub without_trailing_point : UString → UString
without_trailing_point [] = []
without_trailing_point (c ∷ []) = if c == point then [] else c ∷ []
without_trailing_point (c ∷ (d ∷ ds)) = c ∷ without_trailing_point (d ∷ ds)

abbrev sub : ℕ → ℕ → ℤ
sub a b = if leb b a then ℤ.pos (a - b) else ℤ.negsuc (b - a - 1)

-- The value of the exponent's digits
abbrev read_exponent : ℕ → UString → ℕ
read_exponent exponent [] = exponent
read_exponent exponent (c ∷ cs) = read_exponent (exponent * 10 + (c - b'0')) cs

-- The optional exponent, which is subtracted from the scale, and the text behind it.
abbrev exponent_digits : Bool → ℕ → UString → Result (ℤ × UString)
exponent_digits negative fraction text =
    let (digits, rest) = scan_digits true text in
    let exponent = read_exponent 0 digits in
    if length digits == 0
    then err invalid_number
    else ok (if negative then ℤ.pos (fraction + exponent) else sub fraction exponent, rest)

abbrev exponent_sign : ℕ → UString → Result (ℤ × UString)
exponent_sign fraction [] = err invalid_number
exponent_sign fraction (c ∷ cs) =
    if c == b'-'
    then exponent_digits true fraction cs
    else if c == b'+'
    then exponent_digits false fraction cs
    else exponent_digits false fraction (c ∷ cs)

abbrev pub parse_exponent : ℕ → UString → Result (ℤ × UString)
parse_exponent fraction [] = ok (ℤ.pos fraction, [])
parse_exponent fraction (c ∷ cs) =
    if c == b'E' || c == b'e' then exponent_sign fraction cs else ok (ℤ.pos fraction, c ∷ cs)

-- The closing parenthesis behind the digits of the uncertainty, and the end of the text
abbrev pub end_su : UString → UString → Result (Option UString)
end_su digits [] = err invalid_number
end_su digits (c ∷ cs) =
    if length digits == 0 || not (c == b')') || not (length cs == 0)
    then err invalid_number
    else ok (some (skip_zeroes digits))

-- The optional uncertainty; nothing may stand behind it.
abbrev pub parse_su : UString → Result (Option UString)
parse_su [] = ok none
parse_su (c ∷ cs) =
    let (digits, rest) = scan_digits true cs in
    if c == b'(' then end_su digits rest else err invalid_number

-- `cif_value_parse_numb`, behind the sign
abbrev pub parse_unsigned : UString → Bool → UString → Result Numb
parse_unsigned text negative unsigned =
    let (number, behind) = scan_digits false unsigned in
    let digits = without_trailing_point number in
    if length (copy_digits number) == 0
    then err invalid_number
    else parse_exponent (fraction_size digits) behind >>= λ (scale, rest).
        parse_su rest >>= λ su_digits. ok (record {
          quoted = false;
          text = text;
          negative = negative;
          digits = copy_digits (skip_zeroes digits);
          su_digits = su_digits;
          scale = scale;
        })

-- `cif_value_parse_numb`
unfoldable pub parse_numb : UString → Result Numb
parse_numb [] = err invalid_number
parse_numb (c ∷ cs) =
    if c == b'-'
    then parse_unsigned (c ∷ cs) true cs
    else if c == b'+'
    then parse_unsigned (c ∷ cs) false cs
    else parse_unsigned (c ∷ cs) false (c ∷ cs)

-- `WRITE_SU`
abbrev pub write_su : Option UString → UString
write_su none = []
write_su (some su) = b'(' ∷ (su ++ (b')' ∷ []))

unfoldable pub zeroes : ℕ → UString
zeroes zero = []
zeroes (suc n) = b'0' ∷ zeroes n

-- The digits with their decimal point
unfoldable pub place_point : UString → ℕ → UString
place_point digits scale =
    let val_digits = length digits in
    if leb val_digits scale
    then b'0' ∷ (point ∷ (zeroes (scale - val_digits) ++ digits))
    else if ltb 0 scale
    then take (val_digits - scale) digits ++ (point ∷ drop (val_digits - scale) digits)
    else digits

-- `total_chars`
abbrev pub total_chars : Bool → UString → Option UString → ℕ → ℕ
total_chars negative digits su scale =
    let val_digits = length digits in
    (if negative then 1 else 0)
    + (if leb val_digits scale then scale + 1 else val_digits)
    + (if scale == 0 then 0 else 1)
    + elim su [ none ↦ 0 | some s ↦ length s + 2 ]
    + 1

-- `format_text_decimal`, for a scale that is not negative
unfoldable pub format_text_decimal : Bool → UString → Option UString → ℕ → Result UString
format_text_decimal negative digits su scale =
    let unsigned = place_point digits scale ++ write_su su in
    if leb (total_chars negative digits su scale) (line_length + 1)
    then ok (if negative then b'-' ∷ unsigned else unsigned)
    else err argument_error
