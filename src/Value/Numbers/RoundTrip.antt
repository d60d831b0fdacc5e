-- ===== src/Value/Numbers/RoundTrip.antt =====
-- The number that `format_text_decimal` of src/value.c writes is read by `cif_value_parse_numb`.
use cif_api.Base.{
  ℕ, ◌+◌, Bool, true, false, ◌||◌, Option, none, some, [], ◌∷◌, ◌++◌, leb, ◌==◌, if◌then◌else◌,
  UString, line_length, length, subst, append-nil, ◌≡◌, refl, sym, ap, ◌∙◌, arith, Bool-cases, inl,
  inr,
}
use cif_api.Code.{Code, ok, err, argument_error, ok-injective}
use cif_api.Value.{ℤ, Numb}
use cif_api.Value.Numbers.{
  point, is_digit, scan_digits, copy_digits, parse_numb, parse_exponent, parse_unsigned, parse_su,
  write_su, place_point, total_chars, format_text_decimal,
}
use cif_api.Value.Numbers.Digits.{
  AreDigits, IsTrimmed, Reads, scan_digits-append, place_point-Reads,
}

-- The uncertainty, if there is one, is trimmed.
abbrev pub SuIsTrimmed : Option UString → Type 0
SuIsTrimmed su = (digits : UString) → su ≡ some digits → IsTrimmed digits

scan_digits-close :
    (ds : UString) → AreDigits ds → scan_digits true (ds ++ (b')' ∷ [])) ≡ (ds, b')' ∷ [])
unfolding scan_digits
scan_digits-close ds h =
    scan_digits-append true ds (b')' ∷ []) h ∙ ap (λ k. (k, b')' ∷ [])) (append-nil ds)

parse_su-write_su : (su : Option UString) → SuIsTrimmed su → parse_su (write_su su) ≡ ok su
parse_su-write_su none h = refl
parse_su-write_su (some []) h = let (a, l, k) = h [] refl in absurd (omega arith)
parse_su-write_su (some (d ∷ ds)) h =
    let (a, l, k) = h (d ∷ ds) refl in
    let some_digits : (length (d ∷ ds) == 0) ≡ false = ground arith in
    rw (scan_digits-close (d ∷ ds) a, some_digits, k)

parse_exponent-write_su :
    (n : ℕ) (su : Option UString) → parse_exponent n (write_su su) ≡ ok (ℤ.pos n, write_su su)
parse_exponent-write_su n none = refl
parse_exponent-write_su n (some su) = refl

abbrev pub number_of : UString → Bool → UString → Option UString → ℕ → Numb
number_of text negative digits su scale = record {
  quoted = false;
  text = text;
  negative = negative;
  digits = digits;
  su_digits = su;
  scale = ℤ.pos scale;
}

parse_unsigned-Reads :
    (text : UString) (negative : Bool) (number digits : UString) (su : Option UString) (scale : ℕ)
    → Reads number digits scale
    → SuIsTrimmed su
    → parse_unsigned text negative (number ++ write_su su)
      ≡ ok (number_of text negative digits su scale)
parse_unsigned-Reads text negative number digits su scale (s, w, f, c, l) h =
    let some_digits : (length (copy_digits number) == 0) ≡ false = ground arith in
    rw (s su, some_digits, w, f, parse_exponent-write_su scale su, parse_su-write_su su h, c)

other_unit :
    (c : ℕ) (cs number rest : UString)
    → scan_digits false (c ∷ cs) ≡ (c ∷ number, rest)
    → (is_digit c || c == point) ≡ true
unfolding scan_digits
other_unit c cs number rest h = elim (Bool-cases (is_digit c || c == point)) [
  | inl b ↦ b
  | inr b ↦
      let no_digit : is_digit c ≡ false = ground arith in
      let other : (c == point) ≡ false = ground arith in
      let stopped : scan_digits false (c ∷ cs) ≡ ([], c ∷ cs) = rw (no_digit, other) in
      absurd (omega (arith, ap (λ p. length p.0) (sym stopped ∙ h)))
]

parse_numb-unsigned :
    (number digits : UString) (su : Option UString) (scale : ℕ)
    → Reads number digits scale
    → SuIsTrimmed su
    → parse_numb (number ++ write_su su)
      ≡ ok (number_of (number ++ write_su su) false digits su scale)
unfolding parse_numb copy_digits
parse_numb-unsigned [] digits su scale (s, w, f, c, l) h = absurd (omega arith)
parse_numb-unsigned (c ∷ cs) digits su scale reads h =
    let start = other_unit c (cs ++ write_su su) cs (write_su su) (reads.0 su) in
    let minus : (c == b'-') ≡ false = ground arith in
    let plus : (c == b'+') ≡ false = ground arith in
    rw (minus, plus)
      (parse_unsigned-Reads ((c ∷ cs) ++ write_su su) false (c ∷ cs) digits su scale reads h)

abbrev signed : Bool → UString → UString
signed negative unsigned = if negative then b'-' ∷ unsigned else unsigned

parse_numb-signed :
    (negative : Bool) (number digits : UString) (su : Option UString) (scale : ℕ)
    → Reads number digits scale
    → SuIsTrimmed su
    → parse_numb (signed negative (number ++ write_su su))
      ≡ ok (number_of (signed negative (number ++ write_su su)) negative digits su scale)
unfolding parse_numb
parse_numb-signed true number digits su scale reads h =
    parse_unsigned-Reads (b'-' ∷ (number ++ write_su su)) true number digits su scale reads h
parse_numb-signed false number digits su scale reads h =
    parse_numb-unsigned number digits su scale reads h

if_ok :
    (test : Bool) (passed value : UString) (code : Code)
    → (if test then ok passed else err code) ≡ ok value
    → passed ≡ value
if_ok true passed value code h = ok-injective h
if_ok false passed value code h = cc

-- A number in decimal notation whose text is not too long is read with the sign, the digits, the
-- scale and the uncertainty that it was written with, where both strings of digits are not empty
-- and have no insignificant zeroes in front.
pub parse_numb-format_text_decimal :
    (negative : Bool) (digits : UString) (su : Option UString) (scale : ℕ) (text : UString)
    → IsTrimmed digits
    → SuIsTrimmed su
    → format_text_decimal negative digits su scale ≡ ok text
    → parse_numb text ≡ ok (number_of text negative digits su scale)
unfolding format_text_decimal
parse_numb-format_text_decimal negative digits su scale text t h f =
    let number = place_point digits scale in
    let written = signed negative (number ++ write_su su) in
    let fits = leb (total_chars negative digits su scale) (line_length + 1) in
    subst (λ k. parse_numb k ≡ ok (number_of k negative digits su scale))
      (if_ok fits written text argument_error f)
      (parse_numb-signed negative number digits su scale (place_point-Reads digits scale t) h)
