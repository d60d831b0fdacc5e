-- ===== src/Value/Numbers/Digits.antt =====
-- The digits and the decimal point of a number (src/value.c): what the scan, the trimming and the
-- copying make of the digits that `format_text_decimal` places.
use cif_api.Base.{
  ℕ, zero, suc, ◌+◌, ◌-◌, ◌≤◌, Bool, true, false, ◌||◌, Option, none, some, [], ◌∷◌, ◌++◌, ltb, leb,
  ltb→lt, ◌==◌, UString, length, take, drop, All, length-append, length-drop, take-append-drop,
  subst, append_assoc, append-nil, ◌≡◌, refl, sym, ap, ◌∙◌, arith, Bool-cases, inl, inr,
}
use cif_api.Value.Numbers.{
  point, is_digit, scan_digits, fraction_size, skip_zeroes, copy_digits, without_trailing_point,
  write_su, zeroes, place_point,
}

abbrev pub AreDigits : UString → Type 0
AreDigits = All (λ c. is_digit c ≡ true)

-- Digits, at least one, without insignificant zeroes
abbrev pub IsTrimmed : UString → Type 0
IsTrimmed ds = AreDigits ds × (1 ≤ length ds) × (skip_zeroes ds ≡ ds)

no_point : (c : ℕ) → is_digit c ≡ true → (c == point) ≡ false
no_point c h = ground arith

pub scan_digits-append :
    (seen : Bool) (ds rest : UString)
    → AreDigits ds
    → scan_digits seen (ds ++ rest) ≡ (ds ++ (scan_digits seen rest).0, (scan_digits seen rest).1)
unfolding scan_digits
scan_digits-append seen [] rest h = refl
scan_digits-append seen (d ∷ ds) rest (h, hs) =
    rw h (ap (λ p. (d ∷ p.0, p.1)) (scan_digits-append seen ds rest hs))

pub scan_digits-su :
    (seen : Bool) (ds : UString) (su : Option UString)
    → AreDigits ds
    → scan_digits seen (ds ++ write_su su) ≡ (ds, write_su su)
unfolding scan_digits
scan_digits-su seen ds none h = scan_digits-append seen ds [] h ∙ ap (λ k. (k, [])) (append-nil ds)
scan_digits-su seen ds (some su) h =
    scan_digits-append seen ds (write_su (some su)) h
    ∙ ap (λ k. (k, write_su (some su))) (append-nil ds)

copy_digits-digits : (ds : UString) → AreDigits ds → copy_digits ds ≡ ds
unfolding copy_digits
copy_digits-digits [] h = refl
copy_digits-digits (d ∷ ds) (h, hs) = rw (no_point d h) (ap (◌∷◌ d) (copy_digits-digits ds hs))

copy_digits-point :
    (ds fs : UString) → AreDigits ds → AreDigits fs → copy_digits (ds ++ (point ∷ fs)) ≡ ds ++ fs
unfolding copy_digits
copy_digits-point [] fs h g = copy_digits-digits fs g
copy_digits-point (d ∷ ds) fs (h, hs) g =
    rw (no_point d h) (ap (◌∷◌ d) (copy_digits-point ds fs hs g))

fraction_size-digits : (ds : UString) → AreDigits ds → fraction_size ds ≡ 0
unfolding fraction_size
fraction_size-digits [] h = refl
fraction_size-digits (d ∷ ds) (h, hs) = rw (no_point d h) (fraction_size-digits ds hs)

fraction_size-point :
    (ds fs : UString) → AreDigits ds → fraction_size (ds ++ (point ∷ fs)) ≡ length fs
unfolding fraction_size
fraction_size-point [] fs h = refl
fraction_size-point (d ∷ ds) fs (h, hs) = rw (no_point d h) (fraction_size-point ds fs hs)

keeps-digits :
    (d : ℕ) (ds : UString) → AreDigits (d ∷ ds) → without_trailing_point (d ∷ ds) ≡ d ∷ ds
unfolding without_trailing_point
keeps-digits d [] (h, hs) = rw (no_point d h)
keeps-digits d (e ∷ ds) (h, hs) = ap (◌∷◌ d) (keeps-digits e ds hs)

keeps-append :
    (xs : UString) (d : ℕ) (ds : UString)
    → AreDigits (d ∷ ds)
    → without_trailing_point (xs ++ (d ∷ ds)) ≡ xs ++ (d ∷ ds)
unfolding without_trailing_point
keeps-append [] d ds h = keeps-digits d ds h
keeps-append (x ∷ []) d ds h = ap (◌∷◌ x) (keeps-digits d ds h)
keeps-append (x ∷ (y ∷ xs)) d ds h = ap (◌∷◌ x) (keeps-append (y ∷ xs) d ds h)

length-skip_zeroes : (ds : UString) → length (skip_zeroes ds) ≤ length ds
unfolding skip_zeroes
length-skip_zeroes [] = omega arith
length-skip_zeroes (c ∷ []) = omega arith
length-skip_zeroes (c ∷ (d ∷ ds)) = elim (Bool-cases (c == b'0' || c == point)) [
  | inl b ↦ rw b (omega (arith, length-skip_zeroes (d ∷ ds)))
  | inr b ↦ rw b (omega arith)
]

skip_first :
    (c : ℕ) (xs : UString)
    → (c == b'0' || c == point) ≡ true
    → 1 ≤ length xs
    → skip_zeroes (c ∷ xs) ≡ skip_zeroes xs
unfolding skip_zeroes
skip_first c [] b h = absurd (omega arith)
skip_first c (d ∷ ds) b h = rw b

keep_first :
    (c : ℕ) (xs : UString) → (c == b'0' || c == point) ≡ false → skip_zeroes (c ∷ xs) ≡ c ∷ xs
unfolding skip_zeroes
keep_first c [] b = refl
keep_first c (d ∷ ds) b = rw b

first_kept :
    (c : ℕ) (xs : UString)
    → 1 ≤ length xs
    → skip_zeroes (c ∷ xs) ≡ c ∷ xs
    → (c == b'0' || c == point) ≡ false
first_kept c xs l h = elim (Bool-cases (c == b'0' || c == point)) [
  | inl b ↦
      let e : skip_zeroes xs ≡ c ∷ xs = sym (skip_first c xs b l) ∙ h in
      absurd (omega (arith, ap length e, length-skip_zeroes xs))
  | inr b ↦ b
]

skip_zeroes-zeroes :
    (n d : ℕ) (ds : UString) → skip_zeroes (zeroes n ++ (d ∷ ds)) ≡ skip_zeroes (d ∷ ds)
unfolding skip_zeroes zeroes
skip_zeroes-zeroes zero d ds = refl
skip_zeroes-zeroes (suc zero) d ds = refl
skip_zeroes-zeroes (suc (suc n)) d ds = skip_zeroes-zeroes (suc n) d ds

zeroes-AreDigits : (n : ℕ) (ds : UString) → AreDigits ds → AreDigits (zeroes n ++ ds)
unfolding zeroes
zeroes-AreDigits zero ds h = h
zeroes-AreDigits (suc n) ds h = (refl, zeroes-AreDigits n ds h)

pub length-zeroes : (n : ℕ) → length (zeroes n) ≡ n
unfolding zeroes
length-zeroes zero = refl
length-zeroes (suc n) = ap suc (length-zeroes n)

AreDigits-append : (ws fs : UString) → AreDigits (ws ++ fs) → AreDigits ws × AreDigits fs
AreDigits-append [] fs h = (tt, h)
AreDigits-append (w ∷ ws) fs (h, hs) = let (a, b) = AreDigits-append ws fs hs in ((h, a), b)

-- The units of a number that are read as the digits and the scale
abbrev pub Reads : UString → UString → ℕ → Type 0
Reads number digits scale =
    ((su : Option UString) → scan_digits false (number ++ write_su su) ≡ (number, write_su su))
    × (without_trailing_point number ≡ number)
    × (fraction_size number ≡ scale)
    × (copy_digits (skip_zeroes number) ≡ digits)
    × (1 ≤ length (copy_digits number))

whole-Reads : (digits : UString) → IsTrimmed digits → Reads digits digits 0
whole-Reads [] (h, l, k) = absurd (omega arith)
whole-Reads (d ∷ ds) (h, l, k) = (
  (λ su. scan_digits-su false (d ∷ ds) su h),
  keeps-digits d ds h,
  fraction_size-digits (d ∷ ds) h,
  ap copy_digits k ∙ copy_digits-digits (d ∷ ds) h,
  rw (copy_digits-digits (d ∷ ds) h) (omega arith),
)

small-Reads :
    (n : ℕ) (digits : UString)
    → IsTrimmed digits
    → Reads (b'0' ∷ (point ∷ (zeroes n ++ digits))) digits (n + length digits)
unfolding scan_digits fraction_size copy_digits
small-Reads n [] (h, l, k) = absurd (omega arith)
small-Reads n (d ∷ ds) (h, l, k) =
    let all = zeroes-AreDigits n (d ∷ ds) h in
    let size = length-append (zeroes n) (d ∷ ds) in
    (
      (λ su.
          ap (λ p. (b'0' ∷ (point ∷ p.0), p.1))
            (scan_digits-su true (zeroes n ++ (d ∷ ds)) su all)),
      keeps-append (b'0' ∷ (point ∷ zeroes n)) d ds h,
      omega (arith, size, length-zeroes n),
      ap copy_digits (
            skip_first b'0' (point ∷ (zeroes n ++ (d ∷ ds))) refl (omega arith)
            ∙ skip_first point (zeroes n ++ (d ∷ ds)) refl (omega (arith, size))
            ∙ skip_zeroes-zeroes n d ds
            ∙ k)
          ∙ copy_digits-digits (d ∷ ds) h,
      omega arith,
    )

mixed-Reads :
    (ws fs : UString)
    → 1 ≤ length ws
    → 1 ≤ length fs
    → IsTrimmed (ws ++ fs)
    → Reads (ws ++ (point ∷ fs)) (ws ++ fs) (length fs)
unfolding scan_digits
mixed-Reads [] fs a b t = absurd (omega arith)
mixed-Reads (w ∷ ws) [] a b t = absurd (omega arith)
mixed-Reads (w ∷ ws) (f ∷ fs) a b (h, l, k) =
    let (hw, hf) = AreDigits-append (w ∷ ws) (f ∷ fs) h in
    let first = first_kept w (ws ++ (f ∷ fs)) (omega (arith, length-append ws (f ∷ fs))) k in
    let copied = copy_digits-point (w ∷ ws) (f ∷ fs) hw hf in
    (
      (λ su.
          ap (scan_digits false) (append_assoc (w ∷ ws) (point ∷ (f ∷ fs)) (write_su su))
          ∙ scan_digits-append false (w ∷ ws) (point ∷ ((f ∷ fs) ++ write_su su)) hw
          ∙ ap (λ p. ((w ∷ ws) ++ (point ∷ p.0), p.1)) (scan_digits-su true (f ∷ fs) su hf)),
      ap without_trailing_point (sym (append_assoc (w ∷ ws) (point ∷ []) (f ∷ fs)))
          ∙ keeps-append ((w ∷ ws) ++ (point ∷ [])) f fs hf
          ∙ append_assoc (w ∷ ws) (point ∷ []) (f ∷ fs),
      fraction_size-point (w ∷ ws) (f ∷ fs) hw,
      ap copy_digits (keep_first w (ws ++ (point ∷ (f ∷ fs))) first) ∙ copied,
      rw copied (omega arith),
    )

pub place_point-Reads :
    (digits : UString) (scale : ℕ)
    → IsTrimmed digits
    → Reads (place_point digits scale) digits scale
unfolding place_point
place_point-Reads digits scale t = elim (Bool-cases (leb (length digits) scale)) [
  | inl b ↦
      let n = scale - length digits in
      let same : n + length digits ≡ scale = ground arith in
      rw b
        (subst (Reads (b'0' ∷ (point ∷ (zeroes n ++ digits))) digits) same (small-Reads n digits t))
  | inr b ↦ elim (Bool-cases (ltb 0 scale)) [
    | inl c ↦
        let k = length digits - scale in
        let whole = take-append-drop k digits in
        let fraction : length (drop k digits) ≡ scale = ground (arith, length-drop k digits) in
        let size : 1 ≤ length (take k digits) =
          ground
            (arith, fraction, length-append (take k digits) (drop k digits), ap length whole) in
        let more : 1 ≤ length (drop k digits) = omega (arith, fraction, ltb→lt 0 scale c) in
        let number = take k digits ++ (point ∷ drop k digits) in
        let reads =
          mixed-Reads (take k digits) (drop k digits) size more (subst IsTrimmed (sym whole) t) in
        rw (b, c)
          (subst (Reads number digits) fraction
            (subst (λ ds. Reads number ds (length (drop k digits))) whole reads))
    | inr c ↦
        let same : 0 ≡ scale = ground arith in
        rw (b, c) (subst (Reads digits digits) same (whole-Reads digits t))
  ]
]
