-- ===== src/Analysis/Counts.antt =====
-- The counters of `cif_analyze_string` (src/utils.c) count what they are named for.
use cif_api.Base.{
  ℕ, ◌+◌, ◌<◌, ◌&&◌, ◌||◌, [], ◌∷◌, ltb, ◌==◌, if◌then◌else◌, UString, length, get_or, ◌≡◌, refl,
  ap, ◌∙◌, arith, Bool-cases, inl, inr,
}
use cif_api.Chars.{nl, cr, semi}
use cif_api.Analysis.{
  State, start, counted, remember_semis, track_trailing_ws, measure_line, end_line, classify, step,
  scan, last_line, num_lines,
}

-- How often a character occurs.
unfoldable pub count : ℕ → UString → ℕ
count c [] = 0
count c (d ∷ ds) = (if c == d then 1 else 0) + count c ds

measure_line-kept :
    (st : State) → ((measure_line st).counts ≡ st.counts) × ((measure_line st).len ≡ st.len)
measure_line-kept st = elim (Bool-cases (st.counts nl + st.counts cr == 1)) [
  | inl b ↦ rw b (refl, refl)
  | inr b ↦ elim (Bool-cases (ltb st.max_line st.this_line)) [
    | inl d ↦ rw (b, d) (refl, refl)
    | inr d ↦ rw (b, d) (refl, refl)
  ]
]

end_line-kept :
    (str : UString) (st : State)
    → ((end_line str st).counts ≡ st.counts) × ((end_line str st).len ≡ st.len)
unfolding end_line
end_line-kept str st = measure_line-kept _

-- Only the count before the switch and the increment behind it touch the counters.
classify-kept :
    (str : UString) (ch : ℕ) (st : State)
    → ((classify str ch st).counts ≡ st.counts) × ((classify str ch st).len ≡ st.len)
unfolding classify
classify-kept str ch st = elim (Bool-cases (ch == cr && (get_or str (st.len + 1) 0 == nl))) [
  | inl b ↦ rw b (refl, refl)
  | inr b ↦ elim (Bool-cases (ch == cr || ch == nl)) [
    | inl d ↦ rw (b, d) (end_line-kept str st)
    | inr d ↦ elim (Bool-cases (ch == semi)) [
      | inl e ↦ rw (b, d, e) (refl, refl)
      | inr e ↦ rw (b, d, e) (refl, refl)
    ]
  ]
]

step-counts :
    (str : UString) (ch c : ℕ) (st : State)
    → c < 127
    → (step str ch st).counts c ≡ (if c == ch then 1 else 0) + st.counts c
unfolding step
step-counts str ch c st h =
    ap (λ (f : ℕ → ℕ). f c) (classify-kept str ch (counted ch st)).0 ∙ ground arith

pub step-len : (str : UString) (ch : ℕ) (st : State) → (step str ch st).len ≡ st.len + 1
unfolding step
step-len str ch st = ap (λ n. n + 1) (classify-kept str ch (counted ch st)).1

scan-counts :
    (str cs : UString) (c : ℕ) (st : State)
    → c < 127
    → (scan str cs st).counts c ≡ count c cs + st.counts c
unfolding scan count
scan-counts str [] c st h = omega arith
scan-counts str (d ∷ ds) c st h =
    omega (arith, scan-counts str ds c (step str d st) h, step-counts str d c st h)

scan-len : (str cs : UString) (st : State) → (scan str cs st).len ≡ length cs + st.len
unfolding scan
scan-len str [] st = omega arith
scan-len str (d ∷ ds) st = omega (arith, scan-len str ds (step str d st), step-len str d st)

last_line-kept :
    (str : UString) (st : State)
    → ((last_line str st).counts ≡ st.counts) × ((last_line str st).len ≡ st.len)
unfolding last_line
last_line-kept str st = elim (Bool-cases (num_lines st == 1)) [
  | inl b ↦ rw b (refl, refl)
  | inr b ↦
      elim (Bool-cases (
        ltb (track_trailing_ws str (remember_semis st)).max_line
          (track_trailing_ws str (remember_semis st)).this_line)) [
            | inl d ↦ rw (b, d) (refl, refl)
            | inr d ↦ rw (b, d) (refl, refl)
          ]
]

-- The state behind the loop.
unfoldable pub final : UString → State
unfolding last_line scan
final str = last_line str (scan str str start)

pub final-counts : (str : UString) (c : ℕ) → c < 127 → (final str).counts c ≡ count c str
unfolding final last_line count
final-counts str c h =
    ap (λ (f : ℕ → ℕ). f c) (last_line-kept str (scan str str start)).0
    ∙ omega (arith, scan-counts str str c start h)

pub final-len : (str : UString) → (final str).len ≡ length str
unfolding final last_line
final-len str = (last_line-kept str (scan str str start)).1 ∙ omega (arith, scan-len str str start)
