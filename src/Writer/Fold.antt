-- ===== src/Writer/Fold.antt =====
-- `fold_line` of src/ciffile.c: where to fold a line of a text block. The result is the length of
-- the first segment in code units, 0 where the source returns 0. A `for` loop over offsets runs on
-- the rounds that are left, and on what is left of the line.
pub mod Positive
use cif_api.Base.{
  ℕ, zero, suc, ◌+◌, ◌-◌, ◌*◌, ◌/◌, ◌%◌, Bool, true, false, not, ◌&&◌, ◌||◌, Option, none, some,
  List, [], ◌∷◌, ltb, leb, ◌==◌, if◌then◌else◌, UString, length, drop, get_or, ◌⊎◌, inl, inr,
}
use cif_api.Chars.{tab, sp, semi}

abbrev is_blank : ℕ → Bool
is_blank c = c == sp || c == tab

-- `IS_SURROGATE_PAIR`
abbrev is_surrogate_pair : ℕ → ℕ → Bool
is_surrogate_pair u v = leb 0xdc00 v && leb v 0xdfff && leb 0xd800 u && ltb u 0xdc00

-- The condition on a fold at `len` in the fallback scans.
abbrev pub is_fold_point : UString → Bool → ℕ → Bool
is_fold_point line for_prefix len =
    (not (get_or line len 0 == semi) || for_prefix)
    && not (is_surrogate_pair (get_or line (len - 1) 0) (get_or line len 0))

-- `for (len = 0; len <= target_length; len += 1)`: the line's end, or the best boundary below.
low_scan : ℕ → ℕ → UString → Option ℕ → ℕ ⊎ Option ℕ
low_scan zero len rest low = inr low
low_scan (suc n) len [] low = inl len
low_scan (suc n) len (c ∷ cs) low = low_scan n (len + 1) cs (if is_blank c then some len else low)

-- `while (++len <= target_length + window)`: the line's end, if it is within the window.
end_scan : ℕ → ℕ → UString → Option ℕ
end_scan zero len rest = none
end_scan (suc n) len [] = some len
end_scan (suc n) len (c ∷ cs) = end_scan n (len + 1) cs

-- "choose a folding point inside the window"
choose : ℕ → ℕ → ℕ → Option ℕ → ℕ
choose target window high none = high
choose target window high (some low) =
    if ltb low (target - window) then high else if ltb ((high + low) / 2) target then high else low

-- `for (; len <= target_length + window; len += 1)`
high_scan : ℕ → ℕ → UString → ℕ → ℕ → Option ℕ → Option ℕ
unfolding end_scan choose
high_scan zero len rest target window low = none
high_scan (suc n) len [] target window low = some len
high_scan (suc n) len (c ∷ cs) target window low =
    let more = high_scan n (len + 1) cs target window low in
    let fold : ℕ = elim (end_scan n (len + 1) cs) [
      | none ↦ choose target window len low
      | some l ↦ l
    ] in
    if is_blank c then some fold else more

module _ (line : UString) (for_prefix : Bool) where
  -- `for (counter = 0; counter <= 2 * window; counter += 1)`, over the rounds left: a fold point
  -- near the target, or the offset that the scan has come to.
  near_scan : ℕ → ℕ → ℕ → ℕ ⊎ ℕ
  near_scan zero counter len = inr len
  near_scan (suc n) counter len =
      let here = if counter % 2 == 1 then len + counter else len - counter in
      let more = near_scan n (counter + 1) here in
      if is_fold_point line for_prefix here then inl here else more

  -- `while (--len > 0)`
  down_scan : ℕ → Option ℕ
  down_scan zero = none
  down_scan (suc zero) = none
  down_scan (suc (suc n)) =
      let more = down_scan (suc n) in
      if is_fold_point line for_prefix (suc n) then some (suc n) else more

  -- `for (len = target_length + window + 1; line[len] != 0; len += 1)`; 0 if there is no fold point
  up_scan : ℕ → UString → ℕ
  up_scan len [] = 0
  up_scan len (c ∷ cs) =
      let more = up_scan (len + 1) cs in if is_fold_point line for_prefix len then len else more

-- The scans after the window holds no boundary.
fallback : UString → ℕ → ℕ → Bool → ℕ
unfolding near_scan down_scan up_scan
fallback line target window for_prefix =
    elim (near_scan line for_prefix (2 * window + 1) 0 target) [
      | inl len ↦ len
      | inr last ↦ elim (down_scan line for_prefix last) [
        | some len ↦ len
        | none ↦ up_scan line for_prefix (target + window + 1) (drop (target + window + 1) line)
      ]
    ]

-- `fold_line`
unfoldable pub fold_line : UString → Bool → ℕ → ℕ → Bool → ℕ
unfolding low_scan high_scan fallback
fold_line line do_fold target window for_prefix =
    let folded : ℕ = elim (low_scan (target + 1) 0 line none) [
      | inl len ↦ len
      | inr low ↦ elim (high_scan window (target + 1) (drop (target + 1) line) target window low) [
        | some len ↦ len
        | none ↦ fallback line target window for_prefix
      ]
    ] in
    if not do_fold then length line else folded
