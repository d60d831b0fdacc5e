-- ===== src/Analysis/Delimiters.antt =====
-- `cif_analyze_string` of src/utils.c: the delimiters of words and quoted strings that it
-- recommends, and the lines that it counts.
use cif_api.Base.{
  ℕ, ◌+◌, ◌-◌, ◌<◌, Bool, true, false, not, ◌&&◌, ◌||◌, Option, none, some, [], ◌∷◌, ltb, ltb→lt,
  leb, ◌==◌, ==_iff, if◌then◌else◌, UString, length, get_or, any, ◌≡◌, ◌≢◌, ◌⊎◌, refl, arith,
  Bool-cases, inl, inr, All,
}
use cif_api.Chars.{nl, cr, tab, sp, semi, sq, dq}
use cif_api.Icu.{Icu}
use cif_api.Reserved.{is_reserved_string}
use cif_api.Analysis.{
  num_lines, apos3, quot3, text_delim, fits_unquoted, triple, single, inline_delim, analyze_string,
}
use cif_api.Analysis.Counts.{count, final, final-counts, final-len}
use cif_api.Analysis.Pairs.{pairs, final-crlf, pairs-le, num_lines-one}

-- No character of the string is in the set.
abbrev pub Avoids : UString → UString → Type 0
Avoids set str = All (λ c. any (◌==◌ c) set ≡ false) str

avoids_head :
    (set : UString) (d : ℕ) (ds : UString)
    → All (λ c. count c (d ∷ ds) ≡ 0) set
    → (any (◌==◌ d) set ≡ false) × All (λ c. count c ds ≡ 0) set
unfolding count
avoids_head [] d ds h = (refl, tt)
avoids_head (c ∷ set) d ds h =
    let rest = avoids_head set d ds h.1 in
    let differs : (d == c) ≡ false = ground arith in (rw (differs, rest.0), (omega arith, rest.1))

-- Characters that are counted and found missing are avoided.
Avoids-counted : (set str : UString) → All (λ c. count c str ≡ 0) set → Avoids set str
Avoids-counted set [] h = tt
Avoids-counted set (d ∷ ds) h = let a = avoids_head set d ds h in (a.0, Avoids-counted set ds a.1)

-- What may not stand in a string without delimiters, and what may not start one.
abbrev pub separating : UString
separating = sp ∷ tab ∷ b'[' ∷ b']' ∷ b'{' ∷ b'}' ∷ nl ∷ cr ∷ []

abbrev pub starting : UString
starting = sq ∷ dq ∷ b'#' ∷ b'$' ∷ b'_' ∷ semi ∷ []

-- The parts of the condition for a string without delimiters.
record Facts (l z s d h m u e r : Bool) : Type 0 where
  some_length : l ≡ true
  some_counted : z ≡ true
  not_sq : s ≡ false
  not_dq : d ≡ false
  not_hash : h ≡ false
  not_dollar : m ≡ false
  not_under : u ≡ false
  not_semi : e ≡ false
  not_reserved : r ≡ false

all_true :
    (l z s d h m u e w r : Bool)
    → (l && z && not s && not d && not h && not m && not u && not e && w && not r) ≡ true
    → Facts l z s d h m u e r
all_true true true false false false false false false true false p = record {
  some_length = refl;
  some_counted = refl;
  not_sq = refl;
  not_dq = refl;
  not_hash = refl;
  not_dollar = refl;
  not_under = refl;
  not_semi = refl;
  not_reserved = refl;
}
all_true l z s d h m u e w r p = cc

module _ (icu : Icu) where
  -- A string that the delimiters delimit: an unquoted word, a line without the quotation mark, or
  -- a text without the three quotation marks that does not end with one; of a block nothing is
  -- asked.
  pub data Delimits (str : UString) (delim : UString) : Type 0 where
    bare :
        delim ≡ []
        → 0 < length str
        → Avoids separating str
        → any (◌==◌ (get_or str 0 0)) starting ≡ false
        → is_reserved_string str ≡ false
        → Delimits str delim
    quoted :
        (q : ℕ)
        → (q ≡ sq) ⊎ (q ≡ dq)
        → delim ≡ q ∷ []
        → Avoids (q ∷ nl ∷ cr ∷ []) str
        → Delimits str delim
    tripled :
        (q : ℕ)
        → (q ≡ sq) ⊎ (q ≡ dq)
        → delim ≡ q ∷ q ∷ q ∷ []
        → icu.strstr str (q ∷ q ∷ q ∷ []) ≡ false
        → get_or str (length str - 1) 0 ≢ q
        → Delimits str delim
    block : delim ≡ text_delim → Delimits str delim

  -- The same of delimiters that are found, or not.
  Chosen : UString → Option UString → Type 0
  Chosen str none = Unit
  Chosen str (some delim) = Delimits str delim

  if-Chosen :
      (b : Bool) (str : UString) (x y : Option UString)
      → (b ≡ true → Chosen str x)
      → (b ≡ false → Chosen str y)
      → Chosen str (if b then x else y)
  if-Chosen true str x y p q = p refl
  if-Chosen false str x y p q = q refl

  tripled_found :
      (str : UString) (q : ℕ)
      → (q ≡ sq) ⊎ (q ≡ dq)
      → (not (get_or str ((final str).len - 1) 0 == q) && not (icu.strstr str (q ∷ q ∷ q ∷ [])))
        ≡ true
      → Delimits str (q ∷ q ∷ q ∷ [])
  tripled_found str q side h =
      let absent : icu.strstr str (q ∷ q ∷ q ∷ []) ≡ false = ground arith in
      let apart : (get_or str ((final str).len - 1) 0 == q) ≡ false = ground arith in
      tripled q side refl absent
        (λ e. cc ((==_iff (get_or str (length str - 1) 0) q).1 e, rw (final-len str) at apart))

  triple-Chosen : (str : UString) → Chosen str (triple icu str (final str))
  unfolding triple Chosen
  triple-Chosen str =
      if-Chosen (not (get_or str ((final str).len - 1) 0 == sq) && not (icu.strstr str apos3)) str
        (some apos3)
        (if not (get_or str ((final str).len - 1) 0 == dq) && not (icu.strstr str quot3)
          then some quot3
          else none)
        (λ h. tripled_found str sq (inl refl) h)
        (λ _.
          if-Chosen (not (get_or str ((final str).len - 1) 0 == dq) && not (icu.strstr str quot3))
            str (some quot3) none (λ h. tripled_found str dq (inr refl) h) (λ _. tt))

  fits_unquoted-Delimits :
      (str : UString)
      → num_lines (final str) ≡ 1
      → fits_unquoted str (final str) ≡ true
      → Delimits str []
  unfolding fits_unquoted
  fits_unquoted-Delimits str one h =
      let st = final str in
      let first = get_or str 0 0 in
      let f =
        all_true (ltb 0 st.len)
          (st.counts sp
              + st.counts tab
              + st.counts b'['
              + st.counts b']'
              + st.counts b'{'
              + st.counts b'}'
            == 0)
          (first == sq) (first == dq) (first == b'#') (first == b'$') (first == b'_')
          (first == semi) (ltb 1 st.len || (not (first == b'?') && not (first == b'.')))
          (is_reserved_string str) h in
      let none_of : st.counts sp
            + st.counts tab
            + st.counts b'['
            + st.counts b']'
            + st.counts b'{'
            + st.counts b'}'
          ≡ 0 =
        (==_iff _ 0).0 f.some_counted in
      let some_length : 0 < st.len = ltb→lt 0 st.len f.some_length in
      let eol = num_lines-one str one in
      bare refl (rw (final-len str) at some_length)
        (Avoids-counted separating str (
          omega (arith, final-counts str sp (omega arith)),
          (
            omega (arith, final-counts str tab (omega arith)),
            (
              omega (arith, final-counts str b'[' (omega arith)),
              (
                omega (arith, final-counts str b']' (omega arith)),
                (
                  omega (arith, final-counts str b'{' (omega arith)),
                  (omega (arith, final-counts str b'}' (omega arith)), (eol.0, (eol.1, tt))),
                ),
              ),
            ),
          ),
        ))
        (rw (f.not_sq, f.not_dq, f.not_hash, f.not_dollar, f.not_under, f.not_semi)) f.not_reserved

  quoted_found :
      (str : UString) (q : ℕ)
      → (q ≡ sq) ⊎ (q ≡ dq)
      → q < 127
      → num_lines (final str) ≡ 1
      → ((final str).counts q == 0) ≡ true
      → Delimits str (q ∷ [])
  quoted_found str q side h one z =
      let none_of : (final str).counts q ≡ 0 = ground arith in
      let eol = num_lines-one str one in
      quoted q side refl (
        Avoids-counted (q ∷ nl ∷ cr ∷ []) str
          (omega (arith, final-counts str q h), (eol.0, (eol.1, tt))))

  single-Chosen :
      (str : UString) (limit : ℕ)
      → num_lines (final str) ≡ 1
      → Chosen str (single icu limit (final str))
  unfolding single Chosen
  single-Chosen str limit one =
      if-Chosen (leb ((final str).max_line + 2) limit) str
        (if (final str).counts sq == 0
          then some (sq ∷ [])
          else (if (final str).counts dq == 0 then some (dq ∷ []) else none))
        none
        (λ _.
          if-Chosen ((final str).counts sq == 0) str (some (sq ∷ []))
            (if (final str).counts dq == 0 then some (dq ∷ []) else none)
            (λ h. quoted_found str sq (inl refl) (omega arith) one h)
            (λ _.
              if-Chosen ((final str).counts dq == 0) str (some (dq ∷ [])) none
                (λ h. quoted_found str dq (inr refl) (omega arith) one h) (λ _. tt)))
        (λ _. tt)

  or_triple :
      (str : UString) (b : Bool) (found : Option UString)
      → Chosen str found
      → Chosen str (elim found [
        | some delim ↦ some delim
        | none ↦ if b then triple icu str (final str) else none
      ])
  unfolding Chosen
  or_triple str b none c =
      if-Chosen b str (triple icu str (final str)) none (λ _. triple-Chosen str) (λ _. tt)
  or_triple str b (some delim) c = c

  inline_delim-Chosen :
      (str : UString) (allow_unquoted allow_triple_quoted : Bool) (limit : ℕ)
      → Chosen str (inline_delim icu str allow_unquoted allow_triple_quoted limit (final str))
  unfolding inline_delim Chosen
  inline_delim-Chosen str unq trip limit = elim (Bool-cases (leb (final str).max_line limit)) [
    | inr b ↦ rw b tt
    | inl b ↦ elim (Bool-cases (num_lines (final str) == 1)) [
      | inl one ↦
          let is_one : num_lines (final str) ≡ 1 = (==_iff (num_lines (final str)) 1).0 one in
          elim (Bool-cases (unq && fits_unquoted str (final str))) [
            | inl u ↦ rw (b, one, u) (fits_unquoted-Delimits str is_one (ground arith))
            | inr u ↦
                rw (b, one, u)
                  (or_triple str (trip && leb ((final str).max_line + 6) limit)
                    (single icu limit (final str)) (single-Chosen str limit is_one))
          ]
      | inr one ↦
          rw (b, one)
            (if-Chosen
              (trip
                && ltb ((final str).this_line + 3) limit
                && ltb ((final str).first_line + 3) limit)
              str (triple icu str (final str)) none (λ _. triple-Chosen str) (λ _. tt))
    ]
  ]

  by-Chosen :
      (str : UString) (found : Option UString)
      → Chosen str found
      → Delimits str (elim found [ some delim ↦ delim | none ↦ text_delim ])
  unfolding Chosen
  by-Chosen str none c = block refl
  by-Chosen str (some delim) c = c

  -- Delimiters that the analysis recommends, other than those of a text block, delimit the string.
  pub analyze_string-Delimits :
      (str : UString) (allow_unquoted allow_triple_quoted : Bool) (limit : ℕ)
      → Delimits str (analyze_string icu str allow_unquoted allow_triple_quoted limit).delim
  unfolding analyze_string final
  analyze_string-Delimits str unq trip limit =
      by-Chosen str (inline_delim icu str unq trip limit (final str))
        (inline_delim-Chosen str unq trip limit)

  -- The analysis reports the length of the string, and the number of its lines, where a carriage
  -- return and a line feed end one line together.
  pub analyze_string-lines :
      (str : UString) (allow_unquoted allow_triple_quoted : Bool) (limit : ℕ)
      → ((analyze_string icu str allow_unquoted allow_triple_quoted limit).len ≡ length str)
        × ((analyze_string icu str allow_unquoted allow_triple_quoted limit).lines + pairs str
            ≡ 1 + count nl str + count cr str)
  unfolding analyze_string final num_lines
  analyze_string-lines str unq trip limit = (
    final-len str,
    omega (
      arith,
      final-counts str nl (omega arith),
      final-counts str cr (omega arith),
      final-crlf str,
      (pairs-le str).1,
    ),
  )
