-- ===== src/Scanner/Buffer/Lines.antt =====
-- What `get_more_chars` of src/parser.c makes of the line terminators of one chunk.
use cif_api.Base.{
  ℕ, zero, suc, ◌+◌, ◌-◌, ◌≤◌, Bool, false, ◌&&◌, ◌||◌, [], ◌∷◌, ◌++◌, ◌==◌, if◌then◌else◌, UString,
  length, take, drop, length-append, length-drop, append_assoc, append-nil, ◌≡◌, refl, sym, ap, ◌∙◌,
  arith, Bool-cases, inl, inr,
}
use cif_api.Chars.{nl, cr}
use cif_api.Scanner.Buffer.{is_nl_next, convert_lines, convert_first, transferred}

-- Each CR LF and each other CR becomes one LF.
unfoldable pub normalize : UString → UString
normalize [] = []
normalize (c ∷ rest) =
    if c == cr
    then (if is_nl_next rest then normalize rest else nl ∷ normalize rest)
    else c ∷ normalize rest

unfoldable pub has_pair : UString → Bool
has_pair [] = false
has_pair (c ∷ rest) = (c == cr && is_nl_next rest) || has_pair rest

pub length-normalize :
    (units : UString) → length (normalize units) + (if has_pair units then 1 else 0) ≤ length units
unfolding normalize has_pair
length-normalize [] = omega arith
length-normalize (c ∷ rest) =
    let ih = length-normalize rest in
    elim (Bool-cases (c == cr)) [
      | inl b ↦ elim (Bool-cases (is_nl_next rest)) [
        | inl d ↦
            rw (b, d)
              (elim (Bool-cases (has_pair rest)) [ inl e ↦ ground arith | inr e ↦ ground arith ])
        | inr d ↦ rw (b, d) (omega (arith, ih))
      ]
      | inr b ↦ rw b (omega (arith, ih))
    ]

one_cell : (n : ℕ) (cells : UString) → length cells ≡ suc n → (c : ℕ) × (take 1 cells ≡ c ∷ [])
one_cell n [] h = absurd (omega arith)
one_cell n (c ∷ cells) h = (c, refl)

take-past : (xs ys : UString) (n m : ℕ) → m ≡ length xs + n → take m (xs ++ ys) ≡ xs ++ take n ys
take-past [] ys n m h = ap (λ k. take k ys) (omega arith)
take-past (x ∷ xs) ys n zero h = absurd (omega arith)
take-past (x ∷ xs) ys n (suc m) h = ap (◌∷◌ x) (take-past xs ys n m (omega arith))

pub take-all : (xs : UString) → take (length xs) xs ≡ xs
take-all [] = refl
take-all (x ∷ xs) = ap (◌∷◌ x) (take-all xs)

abbrev below : UString × ℕ → UString
below (cells, nread) = take nread cells

-- The unit that stays behind the last line
abbrev Surplus : UString → UString → UString → UString → Type 0
Surplus cells done line rest = (c : ℕ) × (cells ≡ done ++ (line ++ (normalize rest ++ (c ∷ []))))

-- One unit more in the line is one fewer in the rest.
in_line :
    {cells : UString} (done line rest : UString) (c : ℕ)
    → Surplus cells done (line ++ (c ∷ [])) rest
    → (x : ℕ) × (cells ≡ done ++ (line ++ (c ∷ (normalize rest ++ (x ∷ [])))))
in_line done line rest c (x, e) =
    (x, e ∙ ap (◌++◌ done) (append_assoc line (c ∷ []) (normalize rest ++ (x ∷ []))))

convert_lines-Surplus :
    (done gap line rest : UString) (n nread : ℕ)
    → length gap ≡ suc n
    → nread ≡ length done + (length line + suc (length rest))
    → Surplus (below (convert_lines done gap line rest nread)) done line rest
unfolding convert_lines normalize
convert_lines-Surplus done gap line [] n nread g h =
    let left = drop (length line) (gap ++ line) in
    let size : length left ≡ suc n =
      omega (arith, g, length-drop (length line) (gap ++ line), length-append gap line) in
    let (c, one) = one_cell n left size in
    (
      c,
      take-past done (line ++ left) (length line + 1) nread (omega arith)
          ∙ ap (◌++◌ done) (take-past line left 1 (length line + 1) refl ∙ ap (◌++◌ line) one),
    )
convert_lines-Surplus done gap line (c ∷ rest) n nread g h = elim (Bool-cases (c == cr)) [
  | inl b ↦ elim (Bool-cases (is_nl_next rest)) [
    | inl d ↦
        rw (b, d)
          (let left = drop (length line) (gap ++ line) in
            let size : length (left ++ (c ∷ [])) ≡ suc (suc n) = omega (
              arith,
              g,
              length-drop (length line) (gap ++ line),
              length-append gap line,
              length-append left (c ∷ []),
            ) in
            let (x, e) =
              convert_lines-Surplus (done ++ line) (left ++ (c ∷ [])) [] rest (suc n) (nread - 1)
                size (omega (arith, length-append done line)) in
            (x, e ∙ append_assoc done line (normalize rest ++ (x ∷ []))))
    | inr d ↦
        rw (b, d)
          (in_line done line rest nl (
            convert_lines-Surplus done gap (line ++ (nl ∷ [])) rest n nread g
              (omega (arith, length-append line (nl ∷ [])))))
  ]
  | inr b ↦ rw b (
      in_line done line rest c (
        convert_lines-Surplus done gap (line ++ (c ∷ [])) rest n nread g
          (omega (arith, length-append line (c ∷ [])))))
]

-- The first loop leaves its bare CRs converted; from the first CR LF on, the second loop goes on.
abbrev Converted : UString → UString → UString → Type 0
Converted cells done rest =
    (extra : UString) × (cells ≡ done ++ (normalize rest ++ extra))
    × (length extra ≡ (if has_pair rest then 1 else 0))

convert_first-Converted :
    (done rest : UString) (nread : ℕ)
    → nread ≡ length done + length rest
    → Converted (below (convert_first done rest nread)) done rest
unfolding convert_first normalize has_pair
convert_first-Converted done [] nread h =
    ([], ap (λ k. take k done) (omega arith) ∙ take-all done ∙ sym (append-nil done), refl)
convert_first-Converted done (c ∷ rest) nread h = elim (Bool-cases (c == cr)) [
  | inl b ↦ elim (Bool-cases (is_nl_next rest)) [
    | inl d ↦
        rw (b, d)
          (let (x, e) = convert_lines-Surplus done (c ∷ []) [] rest 0 nread refl (omega arith) in
            ((x ∷ []), e, refl))
    | inr d ↦
        rw (b, d)
          (let (extra, e, l) =
              convert_first-Converted (done ++ (nl ∷ [])) rest nread
                (omega (arith, length-append done (nl ∷ []))) in
            (extra, e ∙ append_assoc done (nl ∷ []) (normalize rest ++ extra), l))
  ]
  | inr b ↦ rw b (
      let (extra, e, l) =
        convert_first-Converted (done ++ (c ∷ [])) rest nread
          (omega (arith, length-append done (c ∷ []))) in
      (extra, e ∙ append_assoc done (c ∷ []) (normalize rest ++ extra), l))
]

-- A chunk comes into the buffer with its line terminators normalized, and with one unit more behind
-- it exactly when there is a CR LF in it.
pub transferred-normalize :
    (chunk : UString)
    → (extra : UString) × (transferred chunk ≡ normalize chunk ++ extra)
      × (length extra ≡ (if has_pair chunk then 1 else 0))
transferred-normalize chunk = convert_first-Converted [] chunk (length chunk) (omega arith)

-- No chunk grows.
pub length-transferred : (chunk : UString) → length (transferred chunk) ≤ length chunk
length-transferred chunk =
    let (extra, e, l) = transferred-normalize chunk in
    rw e (omega (arith, length-append (normalize chunk) extra, length-normalize chunk, l))
