-- ===== src/Writer/Fold/Positive.antt =====
-- When `fold_line` (src/ciffile.c) finds a place to fold.
use cif_api.Base.{
  ℕ, zero, suc, ◌+◌, ◌-◌, ◌*◌, ◌≤◌, ◌<◌, Bool, true, false, not, ◌||◌, Option, none, some, [], ◌∷◌,
  ◌==◌, if◌then◌else◌, UString, length, drop, get_or, ◌⊎◌, inl, inr, ◌≡◌, ◌≢◌, refl, arith, All,
  Bool-cases, Option-cases, sym, subst,
}
use cif_api.Chars.{semi}
use cif_api.Writer.Fold.{
  is_blank, is_fold_point, low_scan, end_scan, choose, high_scan, near_scan, fallback, fold_line,
}

low_scan-le :
    (n len : ℕ) (rest : UString) (low : Option ℕ) (k : ℕ)
    → low_scan n len rest low ≡ inl k
    → len ≤ k
unfolding low_scan
low_scan-le zero len rest low k h = cc
low_scan-le (suc n) len [] low k h = ground arith
low_scan-le (suc n) len (c ∷ cs) low k h =
    omega (arith, low_scan-le n (len + 1) cs (if is_blank c then some len else low) k h)

-- The line's end is not before its first character.
low_scan-pos :
    (target c : ℕ) (cs : UString) (k : ℕ) → low_scan (target + 1) 0 (c ∷ cs) none ≡ inl k → 0 < k
low_scan-pos target c cs k h =
    let one_more : target + 1 ≡ suc target = omega arith in
    low_scan-le target (0 + 1) cs (if is_blank c then some 0 else none) k
      (unfold low_scan in rw one_more at h)

end_scan-le : (n len : ℕ) (rest : UString) (k : ℕ) → end_scan n len rest ≡ some k → len ≤ k
unfolding end_scan
end_scan-le zero len rest k h = cc
end_scan-le (suc n) len [] k h = ground arith
end_scan-le (suc n) len (c ∷ cs) k h = omega (arith, end_scan-le n (len + 1) cs k h)

choose-pos :
    (target window high : ℕ) (low : Option ℕ)
    → window < target
    → 0 < high
    → 0 < choose target window high low
unfolding choose
choose-pos target window high none w h = h
choose-pos target window high (some low) w h = ground arith

fold_choice-pos :
    (e : Option ℕ) (chosen len : ℕ)
    → 0 < chosen
    → ((k : ℕ) → e ≡ some k → len ≤ k)
    → 0 < len
    → 0 < (elim e as (λ _. ℕ) [ none ↦ chosen | some l ↦ l ])
fold_choice-pos none chosen len h k p = h
fold_choice-pos (some l) chosen len h k p = omega (arith, k l refl)

high_scan-pos :
    (n len : ℕ) (rest : UString) (target window : ℕ) (low : Option ℕ) (k : ℕ)
    → window < target
    → 0 < len
    → high_scan n len rest target window low ≡ some k
    → 0 < k
unfolding high_scan
high_scan-pos zero len rest target window low k w p h = cc
high_scan-pos (suc n) len [] target window low k w p h = ground arith
high_scan-pos (suc n) len (c ∷ cs) target window low k w p h = elim (Bool-cases (is_blank c)) [
  | inl b ↦ ground (
    arith,
    rw b at h,
    fold_choice-pos (end_scan n (len + 1) cs) (choose target window len low) len
        (choose-pos target window len low w p)
        (λ j e. omega (arith, end_scan-le n (len + 1) cs j e)) p,
  )
  | inr b ↦ high_scan-pos n (len + 1) cs target window low k w (omega arith) (rw b at h)
]

-- No semicolon keeps a line from being folded: there is none, or every line takes the prefix.
abbrev pub FreeOfSemi : Bool → UString → Type 0
FreeOfSemi for_prefix line = (for_prefix ≡ true) ⊎ All (λ c. c ≢ semi) line

get_or-ne : (line : UString) (i : ℕ) → All (λ c. c ≢ semi) line → get_or line i 0 ≢ semi
get_or-ne [] i h = λ e. omega arith
get_or-ne (c ∷ cs) zero h = h.0
get_or-ne (c ∷ cs) (suc i) h = get_or-ne cs i h.1

no_semi :
    (for_prefix : Bool) (line : UString) (i : ℕ)
    → FreeOfSemi for_prefix line
    → (not (get_or line i 0 == semi) || for_prefix) ≡ true
no_semi for_prefix line i (inl p) = ground arith
no_semi for_prefix line i (inr n) = ground (arith, get_or-ne line i n)

-- Of two neighbouring places one does not split a surrogate pair.
fold_point_near :
    (for_prefix : Bool) (line : UString) (i : ℕ)
    → FreeOfSemi for_prefix line
    → is_fold_point line for_prefix i ≡ false
    → is_fold_point line for_prefix (i + 1) ≡ true
fold_point_near for_prefix line i f h =
    let back : i + 1 - 1 ≡ i = omega arith in
    rw back (ground (arith, no_semi for_prefix line i f, no_semi for_prefix line (i + 1) f))

near_scan-found :
    (for_prefix : Bool) (line : UString) (target n : ℕ)
    → FreeOfSemi for_prefix line
    → 0 < target
    → (k : ℕ) × (near_scan line for_prefix (suc (suc n)) 0 target ≡ inl k) × (0 < k)
unfolding near_scan
near_scan-found for_prefix line target n f p =
    let at_zero : target - 0 ≡ target = omega arith in
    elim (Bool-cases (is_fold_point line for_prefix target)) [
      | inl b ↦ (target, rw (at_zero, b), p)
      | inr b ↦
          (target + 1, rw at_zero (rw (b, fold_point_near for_prefix line target f b)), omega arith)
    ]

fallback-pos :
    (line : UString) (target w : ℕ) (for_prefix : Bool)
    → FreeOfSemi for_prefix line
    → 0 < target
    → 0 < fallback line target (suc w) for_prefix
unfolding fallback
fallback-pos line target w for_prefix f p =
    let (k, e, q) = near_scan-found for_prefix line target (2 * w + 1) f p in
    let rounds : 2 * suc w + 1 ≡ suc (suc (2 * w + 1)) = omega arith in
    let found : near_scan line for_prefix (2 * suc w + 1) 0 target ≡ inl k =
      subst (λ (r : ℕ). near_scan line for_prefix r 0 target ≡ inl k) (sym rounds) e in
    rw (found, fallback, near_scan) q

after_low :
    (line : UString) (target w : ℕ) (for_prefix : Bool) (low : Option ℕ)
    → FreeOfSemi for_prefix line
    → suc w < target
    → 0
      < (elim (high_scan (suc w) (target + 1) (drop (target + 1) line) target (suc w) low)
          as (λ _. ℕ) [ some len ↦ len | none ↦ fallback line target (suc w) for_prefix ])
after_low line target w for_prefix low f p =
    elim (Option-cases
      (high_scan (suc w) (target + 1) (drop (target + 1) line) target (suc w) low)) [
        | inl e ↦ rw e (fallback-pos line target w for_prefix f (omega arith))
        | inr (k, e) ↦ rw e (
            high_scan-pos (suc w) (target + 1) (drop (target + 1) line) target (suc w) low k p
              (omega arith) e)
      ]

fold_line-ahead :
    (c : ℕ) (cs : UString) (do_fold : Bool) (target w : ℕ) (for_prefix : Bool)
    → FreeOfSemi for_prefix (c ∷ cs)
    → suc w < target
    → 0 < fold_line (c ∷ cs) do_fold target (suc w) for_prefix
unfolding fold_line
fold_line-ahead c cs false target w for_prefix f p = omega arith
fold_line-ahead c cs true target w for_prefix f p = go (low_scan (target + 1) 0 (c ∷ cs) none) refl
  where
    go :
        (r : ℕ ⊎ Option ℕ)
        → low_scan (target + 1) 0 (c ∷ cs) none ≡ r
        → 0 < (elim r as (λ _. ℕ) [
          | inl len ↦ len
          | inr low ↦
              elim (high_scan
                (suc w)
                (target + 1)
                (drop (target + 1) (c ∷ cs))
                target
                (suc w)
                low) [ some len ↦ len | none ↦ fallback (c ∷ cs) target (suc w) for_prefix ]
        ])
    go (inl len) e = low_scan-pos target c cs len e
    go (inr low) e = after_low (c ∷ cs) target w for_prefix low f p

-- A line that is not empty and holds no semicolon, or has any characters and is to take the prefix,
-- is cut behind its first character at the earliest, if the window is narrower than the target
-- length and not 0; a line that is not to be folded is taken whole.
pub fold_line-pos :
    (c : ℕ) (cs : UString) (do_fold : Bool) (target w : ℕ) (for_prefix : Bool)
    → FreeOfSemi for_prefix (c ∷ cs)
    → suc w < target
    → (0 < fold_line (c ∷ cs) do_fold target (suc w) for_prefix)
      × (fold_line (c ∷ cs) false target (suc w) for_prefix ≡ length (c ∷ cs))
fold_line-pos c cs do_fold target w for_prefix f p =
    (fold_line-ahead c cs do_fold target w for_prefix f p, (unfold fold_line in refl))
