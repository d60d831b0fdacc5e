-- ===== src/Parser/Steps/Progress.antt =====
-- What the switches of src/parser.c do with a token leaves no more input than there was.
use cif_api.Base.{
  ℕ, ◌+◌, ◌-◌, ◌≤◌, ◌<◌, true, Option-cases, [], ◌∷◌, ◌++◌, UString, length, ltb, ◌==◌, take, drop,
  get_or, equals, length-append, length-drop, ◌≡◌, ◌≢◌, refl, sym, ap, subst, arith, inl, inr,
}
use mathlib.Core.List.{reverse, reverse-append}
use cif_api.Code.{
  Code, Result, ok, err, argument_error, missing_space, missing_delim, missing_key, missing_value,
  misquoted_key, null_key, unquoted_key, invalid_bare_value, ◌>>=◌,
}
use cif_api.Icu.{Icu}
use cif_api.Value.{Value, char}
use cif_api.Value.Quoting.{unk_string, na_string}
use cif_api.Scanner.Classes.{Dialect}
use cif_api.Scanner.State.{Scanner, Callback, TokenType, raise, text_of, fault}
use cif_api.Scanner.Decode.{Protocols}
use cif_api.Scanner.Tokens.{tvalue}
use cif_api.Scanner.Tokens.Scans.{length-behind}
use cif_api.Scanner.Tokens.Progress.{Fitting}
use cif_api.Scanner.Yields.{Yields, yields, stops, Yields-split, Yields->>=, Yields-then}
use cif_api.Parser.Steps.{
  ValueStep, open_list, open_table, whole, ListStep, element, closed, KeyStep, keyed, dropped,
  stray, finished, key_colon, raise_at, push_colon, list_step, unquoted_key_step, bare_key_step,
  key_step, has_value, or_quoted, value_step,
}

-- The kind of token that a colon leaves when it is pushed back
abbrev pub IsDelimited : TokenType → Type 0
IsDelimited TokenType.tvalue = Unit
IsDelimited TokenType.qvalue = Unit
IsDelimited _ = ⊥

-- A kind of token that may be handed out, at the length of its text
abbrev pub Usable : TokenType → ℕ → Type 0
Usable t n = (t ≢ TokenType.error) × Fitting t n

pub delimited-Usable : (t : TokenType) (n : ℕ) → IsDelimited t → Usable t n
delimited-Usable TokenType.tvalue n h = (cc, tt)
delimited-Usable TokenType.qvalue n h = (cc, tt)
delimited-Usable TokenType.block_head n h = absurd h
delimited-Usable TokenType.frame_head n h = absurd h
delimited-Usable TokenType.frame_term n h = absurd h
delimited-Usable TokenType.loopkw n h = absurd h
delimited-Usable TokenType.name n h = absurd h
delimited-Usable TokenType.otable n h = absurd h
delimited-Usable TokenType.ctable n h = absurd h
delimited-Usable TokenType.olist n h = absurd h
delimited-Usable TokenType.clist n h = absurd h
delimited-Usable TokenType.key n h = absurd h
delimited-Usable TokenType.tkey n h = absurd h
delimited-Usable TokenType.value n h = absurd h
delimited-Usable TokenType.end n h = absurd h
delimited-Usable TokenType.error n h = absurd h

pub Usable-subst : {t u : TokenType} {m n : ℕ} → t ≡ u → m ≡ n → Usable t m → Usable u n
Usable-subst {t} {n = n} e f h = subst (λ x. Usable x n) e (subst (Usable t) f h)

-- A scanner that is between tokens, or holds one that may be used
abbrev pub Ready : Scanner → Type 0
Ready s = 0 < length s.back → Usable s.ttype (length s.back)

-- Ready, with at most `n` code units of the token and of the input
abbrev pub Holds : ℕ → Scanner → UString → Type 0
Holds n s cs = Ready s × (length s.back + length cs ≤ n)

-- Between tokens
abbrev Between : Scanner → Type 0
Between s = s.back ≡ []

abbrev pub ValueHolds : ValueStep → Type 0
ValueHolds (open_list s) = Between s
ValueHolds (open_table s) = Between s
ValueHolds (whole v s) = Between s

abbrev pub ListHolds : ℕ → ListStep → Type 0
ListHolds n (element s cs) = Holds n s cs
ListHolds n (closed s cs) = Holds n s cs

-- Behind a key there is less than before.
abbrev pub KeyHolds : ℕ → KeyStep → Type 0
KeyHolds n (keyed k s cs) = Between s × (length cs < n)
KeyHolds n (dropped s cs) = Between s × (length cs < n)
KeyHolds n (stray s cs) = Holds n s cs
KeyHolds n (finished s cs) = Holds n s cs

length-reverse : (b : UString) → length (reverse b) ≡ length b
length-reverse [] = refl
length-reverse (c ∷ cs) = omega (
  arith,
  ap length (reverse-append (c ∷ []) cs),
  length-append (reverse cs) (c ∷ []),
  length-reverse cs,
)

-- The token and its kind are those before the call.
abbrev pub Kept : Scanner → Scanner → Type 0
Kept s t = (t.back ≡ s.back) × (t.ttype ≡ s.ttype)

module _ (callback : Callback) where
  pub raise-Kept :
      (code : Code) (column : ℕ) (text : UString) (s : Scanner)
      → Yields (Kept s) (raise callback code column text s)
  raise-Kept code column text s =
      elim (Option-cases (callback (fault code s.line column text ∷ s.reports))) [
        | inl e ↦ rw (e, raise) (yields (refl, refl))
        | inr (stop, e) ↦ rw (e, raise) stops
      ]

  Kept-Holds : (n : ℕ) (s t : Scanner) (cs : UString) → Kept s t → Holds n s cs → Holds n t cs
  Kept-Holds n s t cs (b, k) (r, l) = (
    λ h. Usable-subst (sym k) (sym (ap length b)) (r (omega (arith, ap length b))),
    omega (arith, ap length b),
  )

  push_colon-Holds :
      (alt : TokenType) (n : ℕ) (s : Scanner) (cs : UString)
      → IsDelimited alt
      → 0 < length s.back
      → Holds n s cs
      → Yields (ListHolds n) (push_colon callback alt s cs)
  unfolding push_colon
  push_colon-Holds alt n s cs a f (r, l) =
      Yields->>= (raise-Kept missing_space (s.column - s.tvalue_length) (tvalue s) s) λ t (b, k).
        yields ((λ _. delimited-Usable alt _ a), omega (arith, length-behind t.back, ap length b))

  pub list_step-Holds :
      (t : TokenType) (n : ℕ) (s : Scanner) (cs : UString)
      → (t ≢ TokenType.end → 0 < length s.back)
      → Holds n s cs
      → Yields (ListHolds n) (list_step callback t s cs)
  unfolding list_step
  list_step-Holds TokenType.tkey n s cs f h = push_colon-Holds TokenType.tvalue n s cs tt (f (cc)) h
  list_step-Holds TokenType.key n s cs f h = push_colon-Holds TokenType.qvalue n s cs tt (f (cc)) h
  list_step-Holds TokenType.olist n s cs f h = yields h
  list_step-Holds TokenType.otable n s cs f h = yields h
  list_step-Holds TokenType.tvalue n s cs f h = yields h
  list_step-Holds TokenType.qvalue n s cs f h = yields h
  list_step-Holds TokenType.value n s cs f h = yields h
  list_step-Holds TokenType.clist n s cs f h =
      yields (λ l. absurd (omega arith), omega (arith, h.1))
  list_step-Holds _ n s cs f h =
      Yields->>= (raise-Kept missing_delim (s.column - s.tvalue_length) (tvalue s) s)
        λ t k. yields (Kept-Holds n s t cs k h)

  pub has_value-Holds :
      (t : TokenType) (n : ℕ) (s : Scanner) (cs : UString)
      → Holds n s cs
      → Yields (λ r. Holds n (r.1) cs) (has_value callback t s)
  unfolding has_value
  has_value-Holds TokenType.olist n s cs h = yields h
  has_value-Holds TokenType.otable n s cs h = yields h
  has_value-Holds TokenType.tvalue n s cs h = yields h
  has_value-Holds TokenType.qvalue n s cs h = yields h
  has_value-Holds TokenType.value n s cs h = yields h
  has_value-Holds _ n s cs h =
      Yields->>= (raise-Kept missing_value (s.column - s.tvalue_length) (tvalue s) s)
        λ t k. yields (Kept-Holds n s t cs k h)

  -- What is trimmed off a token goes back to the input.
  trim-shorter :
      (n i : ℕ) (s : Scanner) (cs : UString)
      → 0 < length s.back
      → length s.back + length cs ≤ n
      → length (drop (i + 1) (text_of s) ++ cs) < n
  trim-shorter n i s cs f l = omega (
    arith,
    length-append (drop (i + 1) (text_of s)) cs,
    length-drop (i + 1) (text_of s),
    length-reverse s.back,
  )

  unquoted_key_step-Holds :
      (n : ℕ) (s : Scanner) (cs : UString)
      → 0 < length s.back
      → length s.back + length cs ≤ n
      → Yields (KeyHolds n) (unquoted_key_step callback s cs)
  unfolding unquoted_key_step
  unquoted_key_step-Holds n s cs f l = elim (Option-cases (key_colon (tvalue s))) [
    | inl e ↦
        rw (e, unquoted_key_step)
          (Yields-then (raise_at callback missing_key s) λ t. yields (refl, omega arith))
    | inr (i, e) ↦
        rw (e, unquoted_key_step)
          (Yields->>= (raise-Kept unquoted_key (s.column - s.tvalue_length) (tvalue s) s)
            λ t (b, k). yields (
              refl,
              trim-shorter n i t cs (omega (arith, ap length b)) (omega (arith, ap length b)),
            ))
  ]

  bare_key_step-Holds :
      (n : ℕ) (s : Scanner) (cs : UString)
      → 0 < length s.back
      → length s.back + length cs ≤ n
      → Yields (KeyHolds n) (bare_key_step callback s cs)
  unfolding bare_key_step
  bare_key_step-Holds n s cs f l =
      Yields-split (get_or (tvalue s) 0 0 == b':')
        (λ _. Yields->>= (raise-Kept null_key (s.column - s.tvalue_length) (tvalue s) s) λ t (b, k).
          Yields-split (ltb 1 t.tvalue_length)
            (λ _. yields (
              refl,
              trim-shorter n 0 t cs (omega (arith, ap length b)) (omega (arith, ap length b)),
            ))
            (λ _. yields (refl, omega arith)))
        (λ _. unquoted_key_step-Holds n s cs f l)

  stray-Holds :
      (n : ℕ) (s : Scanner) (cs : UString)
      → Holds n s cs
      → Yields (KeyHolds n) (raise_at callback missing_key s >>= λ t. ok (stray t cs))
  stray-Holds n s cs h =
      Yields->>= (raise-Kept missing_key (s.column - s.tvalue_length) (tvalue s) s)
        λ t k. yields (Kept-Holds n s t cs k h)

  module _ (d : Dialect) (p : Protocols) where
    pub key_step-Holds :
        (t : TokenType) (n : ℕ) (s : Scanner) (cs : UString)
        → (t ≢ TokenType.end → 0 < length s.back)
        → Holds n s cs
        → Yields (KeyHolds n) (key_step callback d p t s cs)
    unfolding key_step
    key_step-Holds TokenType.value n s cs f h = bare_key_step-Holds n s cs (f (cc)) (h.1)
    key_step-Holds TokenType.key n s cs f h = yields (refl, omega (arith, f (cc), h.1))
    key_step-Holds TokenType.tkey n s cs f h =
        Yields-then (raise_at callback misquoted_key s)
          λ t. yields (refl, omega (arith, f (cc), h.1))
    key_step-Holds TokenType.qvalue n s cs f h = stray-Holds n s cs h
    key_step-Holds TokenType.tvalue n s cs f h = stray-Holds n s cs h
    key_step-Holds TokenType.olist n s cs f h = stray-Holds n s cs h
    key_step-Holds TokenType.otable n s cs f h = stray-Holds n s cs h
    key_step-Holds TokenType.ctable n s cs f h =
        yields (λ l. absurd (omega arith), omega (arith, h.1))
    key_step-Holds _ n s cs f h =
        Yields->>= (raise-Kept missing_delim (s.column - s.tvalue_length) [] s)
          λ t k. yields (Kept-Holds n s t cs k h)

    module _ (icu : Icu) where
      or_quoted-Holds :
          (r : Result Value) (v : Value) (s : Scanner)
          → Yields ValueHolds (or_quoted callback d p icu r v s)
      unfolding or_quoted
      or_quoted-Holds (ok v) w s = yields refl
      or_quoted-Holds (err argument_error) w s =
          Yields-then (raise callback invalid_bare_value s.column (take 1 (tvalue s)) s)
            λ t. yields refl
      or_quoted-Holds (err _) w s = stops

      pub value_step-Holds :
          (t : TokenType) (s : Scanner) → Yields ValueHolds (value_step callback d p icu t s)
      unfolding value_step
      value_step-Holds TokenType.olist s = yields refl
      value_step-Holds TokenType.otable s = yields refl
      value_step-Holds TokenType.tvalue s = yields refl
      value_step-Holds TokenType.qvalue s = yields refl
      value_step-Holds TokenType.value s =
          Yields-split (equals (tvalue s) unk_string) (λ _. yields refl)
            λ _.
              Yields-split (equals (tvalue s) na_string) (λ _. yields refl)
                λ _. or_quoted-Holds _ (char (tvalue s) true) s
      value_step-Holds _ s = stops
