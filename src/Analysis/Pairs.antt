-- ===== src/Analysis/Pairs.antt =====
-- The lines that `cif_analyze_string` (src/utils.c) counts: a carriage return and a line feed that
-- follows it are one terminator.
use cif_api.Base.{
  drop, ◌≤◌, ℕ, zero, suc, ◌+◌, ◌<◌, true, ◌&&◌, ◌||◌, [], ◌∷◌, ltb, ◌==◌, if◌then◌else◌, UString,
  get_or, ◌≡◌, refl, ◌∙◌, arith, Bool-cases, inl, inr,
}
use cif_api.Chars.{nl, cr, semi}
use cif_api.Analysis.{
  State, start, counted, remember_semis, track_trailing_ws, measure_line, end_line, classify, step,
  scan, last_line, num_lines,
}
use cif_api.Analysis.Counts.{count, step-len, final, final-counts}

-- Carriage returns that a line feed follows.
pub pairs : UString → ℕ
pairs [] = 0
pairs (c ∷ cs) = (if c == cr && (get_or cs 0 0 == nl) then 1 else 0) + pairs cs

drop-next :
    (n : ℕ) (str : UString) (c : ℕ) (cs : UString)
    → drop n str ≡ c ∷ cs
    → (drop (suc n) str ≡ cs) × (get_or str (suc n) 0 ≡ get_or cs 0 0)
drop-next zero [] c cs h = cc
drop-next zero (d ∷ ds) c cs h = let same : ds ≡ cs = cc in rw same (refl, refl)
drop-next (suc n) [] c cs h = cc
drop-next (suc n) (d ∷ ds) c cs h = drop-next n ds c cs h

measure_line-crlf : (st : State) → (measure_line st).crlf_count ≡ st.crlf_count
measure_line-crlf st = elim (Bool-cases (st.counts nl + st.counts cr == 1)) [
  | inl b ↦ rw b refl
  | inr b ↦ elim (Bool-cases (ltb st.max_line st.this_line)) [
    | inl d ↦ rw (b, d) refl
    | inr d ↦ rw (b, d) refl
  ]
]

end_line-crlf : (str : UString) (st : State) → (end_line str st).crlf_count ≡ st.crlf_count
unfolding end_line
end_line-crlf str st = measure_line-crlf (
    track_trailing_ws str
      (record st { has_nl_semi = st.has_nl_semi || (get_or str (st.len + 1) 0 == semi) }))

classify-crlf :
    (str : UString) (ch : ℕ) (st : State)
    → (classify str ch st).crlf_count
      ≡ (if ch == cr && (get_or str (st.len + 1) 0 == nl) then 1 else 0) + st.crlf_count
unfolding classify
classify-crlf str ch st = elim (Bool-cases (ch == cr && (get_or str (st.len + 1) 0 == nl))) [
  | inl b ↦ rw b (omega arith)
  | inr b ↦ elim (Bool-cases (ch == cr || ch == nl)) [
    | inl d ↦ rw (b, d) (omega (arith, end_line-crlf str st))
    | inr d ↦ elim (Bool-cases (ch == semi)) [
      | inl e ↦ rw (b, d, e) (omega arith)
      | inr e ↦ rw (b, d, e) (omega arith)
    ]
  ]
]

step-crlf :
    (str : UString) (ch : ℕ) (cs : UString) (st : State)
    → get_or str (suc st.len) 0 ≡ get_or cs 0 0
    → (step str ch st).crlf_count
      ≡ (if ch == cr && (get_or cs 0 0 == nl) then 1 else 0) + st.crlf_count
unfolding step
step-crlf str ch cs st h =
    let next : st.len + 1 ≡ suc st.len = omega arith in
    rw (← h, ← next) (classify-crlf str ch (counted ch st))

scan-crlf :
    (str cs : UString) (st : State)
    → drop st.len str ≡ cs
    → (scan str cs st).crlf_count ≡ pairs cs + st.crlf_count
unfolding scan pairs
scan-crlf str [] st h = omega arith
scan-crlf str (d ∷ ds) st h =
    let (rest, next) = drop-next st.len str d ds h in
    let moved : (step str d st).len ≡ suc st.len = omega (arith, step-len str d st) in
    omega (arith, scan-crlf str ds (step str d st) (rw moved rest), step-crlf str d ds st next)

last_line-crlf : (str : UString) (st : State) → (last_line str st).crlf_count ≡ st.crlf_count
unfolding last_line
last_line-crlf str st = elim (Bool-cases (num_lines st == 1)) [
  | inl b ↦ rw b refl
  | inr b ↦
      elim (Bool-cases (
        ltb (track_trailing_ws str (remember_semis st)).max_line
          (track_trailing_ws str (remember_semis st)).this_line)) [
            | inl d ↦ rw (b, d) refl
            | inr d ↦ rw (b, d) refl
          ]
]

pub final-crlf : (str : UString) → (final str).crlf_count ≡ pairs str
unfolding final
final-crlf str =
    last_line-crlf str (scan str str start) ∙ omega (arith, scan-crlf str str start refl)

head_count : (c : ℕ) (cs : UString) → (get_or cs 0 0 == c) ≡ true → 0 < c → 0 < count c cs
unfolding count
head_count c [] h p = absurd (ground arith)
head_count c (d ∷ ds) h p = ground arith

-- Every pair has its own line feed, and its own carriage return.
pub pairs-le :
    (cs : UString)
    → (pairs cs + (if get_or cs 0 0 == nl then 1 else 0) ≤ count nl cs) × (pairs cs ≤ count cr cs)
unfolding pairs count
pairs-le [] = (ground arith, omega arith)
pairs-le (c ∷ cs) = ground (arith, pairs-le cs)

-- The lines are counted right where it matters: a string of one line has no line terminator.
pub num_lines-one :
    (str : UString) → num_lines (final str) ≡ 1 → (count nl str ≡ 0) × (count cr str ≡ 0)
unfolding num_lines
num_lines-one str h =
    let a = final-counts str nl (omega arith) in
    let b = final-counts str cr (omega arith) in
    let c = final-crlf str in
    let d = pairs-le str in (omega (arith, d.0, d.1), omega (arith, d.0, d.1))
