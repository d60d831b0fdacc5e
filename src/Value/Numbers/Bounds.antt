-- ===== src/Value/Numbers/Bounds.antt =====
-- The size of the text that `format_text_decimal` of src/value.c writes.
use cif_api.Base.{
  ℕ, ◌+◌, ◌-◌, ◌≤◌, Bool, true, false, Option, none, some, [], ◌∷◌, ◌++◌, ltb, leb, leb→le, ◌==◌,
  if◌then◌else◌, UString, line_length, length, take, drop, length-append, take-append-drop, ◌≡◌,
  refl, ap, arith, Bool-cases, inl, inr,
}
use cif_api.Code.{Code, ok, err, argument_error, ok-injective}
use cif_api.Value.Numbers.{point, write_su, zeroes, place_point, total_chars, format_text_decimal}
use cif_api.Value.Numbers.Digits.{length-zeroes}

length-write_su :
    (su : Option UString) → length (write_su su) ≡ elim su [ none ↦ 0 | some s ↦ length s + 2 ]
length-write_su none = refl
length-write_su (some su) = omega (arith, length-append su (b')' ∷ []))

length-place_point :
    (digits : UString) (scale : ℕ)
    → 1 ≤ length digits
    → length (place_point digits scale)
      ≡ (if leb (length digits) scale then scale + 1 else length digits)
        + (if scale == 0 then 0 else 1)
unfolding place_point
length-place_point digits scale l = elim (Bool-cases (leb (length digits) scale)) [
  | inl b ↦
      let n = scale - length digits in
      let nonzero : (scale == 0) ≡ false = ground arith in
      let le = leb→le (length digits) scale b in
      rw (b, nonzero) (omega (arith, length-append (zeroes n) digits, length-zeroes n))
  | inr b ↦ elim (Bool-cases (ltb 0 scale)) [
    | inl c ↦
        let k = length digits - scale in
        let nonzero : (scale == 0) ≡ false = ground arith in
        rw (b, c, nonzero)
          (omega (
            arith,
            length-append (take k digits) (point ∷ drop k digits),
            length-append (take k digits) (drop k digits),
            ap length (take-append-drop k digits),
          ))
    | inr c ↦ let none : (scale == 0) ≡ true = ground arith in rw (b, c, none) (omega arith)
  ]
]

if_passed :
    (test : Bool) (passed value : UString) (code : Code)
    → (if test then ok passed else err code) ≡ ok value
    → (test ≡ true) × (passed ≡ value)
if_passed true passed value code h = (refl, ok-injective h)
if_passed false passed value code h = cc

length-signed :
    (negative : Bool) (unsigned : UString)
    → length (if negative then b'-' ∷ unsigned else unsigned)
      ≡ (if negative then 1 else 0) + length unsigned
length-signed true unsigned = omega arith
length-signed false unsigned = omega arith

-- For a number with at least one digit, the text in decimal notation and its terminator take
-- exactly the characters that were allocated, and the text fits on a line.
pub format_text_decimal-fits :
    (negative : Bool) (digits : UString) (su : Option UString) (scale : ℕ) (text : UString)
    → 1 ≤ length digits
    → format_text_decimal negative digits su scale ≡ ok text
    → (length text + 1 ≡ total_chars negative digits su scale) × (length text ≤ line_length)
unfolding format_text_decimal
format_text_decimal-fits negative digits su scale text l f =
    let unsigned = place_point digits scale ++ write_su su in
    let written = if negative then b'-' ∷ unsigned else unsigned in
    let fits = leb (total_chars negative digits su scale) (line_length + 1) in
    let (test, same) = if_passed fits written text argument_error f in
    let size : length text + 1 ≡ total_chars negative digits su scale = omega (
      arith,
      ap length same,
      length-signed negative unsigned,
      length-append (place_point digits scale) (write_su su),
      length-write_su su,
      length-place_point digits scale l,
    ) in
    (
      size,
      omega (arith, size, leb→le (total_chars negative digits su scale) (line_length + 1) test),
    )
