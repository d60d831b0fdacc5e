-- ===== src/Parser/Values/Total.antt =====
-- The parse of a value (src/parser.c) ends, whatever the input is and however the error callback
-- recovers from its errors.
use cif_api.Base.{
  ℕ, zero, suc, ◌+◌, ◌*◌, ◌≤◌, ◌<◌, Bool, true, false, Option, none, some, [], UString, length, ◌≡◌,
  ◌≢◌, ◌⊎◌, ap, arith, inl, inr,
}
use cif_api.Code.{Result, ok, err}
use cif_api.Icu.{Icu}
use cif_api.Hash.{Uthash}
use cif_api.Value.{Value, list_init, table_init}
use cif_api.Scanner.Classes.{Dialect}
use cif_api.Scanner.State.{Scanner, Callback, TokenType, metaclass_of, general_meta}
use cif_api.Scanner.Units.{replacement}
use cif_api.Scanner.Decode.{Protocols}
use cif_api.Scanner.Tokens.{next_token}
use cif_api.Scanner.Tokens.Progress.{next_token-Advances, Advances}
use cif_api.Scanner.Yields.{Yields, yields, stops}
use cif_api.Parser.Run.{Run, Ends, ended, Ends->>=, Ends-ne-none, Ends-value}
use cif_api.Parser.Steps.{
  ValueStep, open_list, open_table, whole, ListStep, element, closed, KeyStep, keyed, dropped,
  stray, finished, value_step,
}
use cif_api.Parser.Steps.Progress.{
  Ready, Holds, ValueHolds, ListHolds, KeyHolds, list_step-Holds, has_value-Holds, key_step-Holds,
  value_step-Holds,
}
use cif_api.Parser.Values.{
  Parsed, parse_value, parse_list, parse_table, parse_entry, set_unless_null, append_element,
  after_value, after_list, after_key, after_test,
}

-- What is left behind a value is shorter than `n`; behind a list or a table, not longer.
abbrev pub Shorter : ℕ → Parsed → Type 0
Shorter n (v, s, cs) = Ready s × (length s.back + length cs < n)

abbrev NotLonger : ℕ → Parsed → Type 0
NotLonger n (v, s, cs) = Holds n s cs

-- Any result of a part that does not touch the input
settled {ℓ} : {A : Type ℓ} (r : Result A) → Yields (λ _. Unit {0}) r
settled (ok a) = yields tt
settled (err code) = stops

module _ (icu : Icu) (hash : Uthash Value) (callback : Callback) (d : Dialect) (p : Protocols)
    (free : metaclass_of d (replacement d) ≡ general_meta) where
  -- The next token of a state that holds at most `n`
  abbrev pub TokenHolds : ℕ → Scanner × UString → Type 0
  TokenHolds n (t, rest) =
      Holds n t rest × (((t.ttype ≡ TokenType.end) × (rest ≡ [])) ⊎ (0 < length t.back))

  pub token-Holds :
      (n : ℕ) (s : Scanner) (cs : UString)
      → Holds n s cs
      → Yields (TokenHolds n) (next_token callback d s cs)
  token-Holds n s cs (r, l) = weaken (next_token-Advances callback d free s cs r)
    where
      weaken :
          {x : Result (Scanner × UString)}
          → Yields (Advances callback d free (length s.back + length cs)) x
          → Yields (TokenHolds n) x
      weaken (yields (q, k, e, x)) = yields (((λ _. (q, x)), omega arith), e)
      weaken stops = stops

  pub filled :
      (t : Scanner) {left : UString}
      → ((t.ttype ≡ TokenType.end) × (left ≡ [])) ⊎ (0 < length t.back)
      → (t.ttype ≢ TokenType.end → 0 < length t.back)
  filled t (inl (e, _)) k = absurd (k e)
  filled t (inr f) k = f

  -- A step of `parse_value`: its token is not the end, and was consumed.
  abbrev Stepped : Scanner → ValueStep → Type 0
  Stepped t step = ValueHolds step × (0 < length t.back)

  value-Stepped :
      (t : Scanner) {left : UString}
      → ((t.ttype ≡ TokenType.end) × (left ≡ [])) ⊎ (0 < length t.back)
      → Yields (Stepped t) (value_step callback d p icu t.ttype t)
  unfolding value_step
  value-Stepped t (inl (e, _)) = rw (e, value_step) stops
  value-Stepped t (inr f) = Yields->>=-same (value_step-Holds callback d p icu t.ttype t)
    where
      Yields->>=-same : {x : Result ValueStep} → Yields ValueHolds x → Yields (Stepped t) x
      Yields->>=-same (yields h) = yields (h, f)
      Yields->>=-same stops = stops

  pub Between-Ready : (s : Scanner) → s.back ≡ [] → Ready s
  Between-Ready s e h = absurd (omega (arith, ap length e))

  Ends-longer : (m n : ℕ) {r : Run Parsed} → m ≤ n → Ends (NotLonger m) r → Ends (NotLonger n) r
  Ends-longer m n h (ended (yields (r, l))) = ended (yields (r, omega arith))
  Ends-longer m n h (ended stops) = ended stops

  Ends-last : {m n : ℕ} {r : Run Parsed} → m < n → Ends (NotLonger m) r → Ends (Shorter n) r
  Ends-last h (ended (yields (r, l))) = ended (yields (r, omega arith))
  Ends-last h (ended stops) = ended stops

  -- The calls for the parts end.
  abbrev pub ValueEnds : ℕ → (Scanner → UString → Run Parsed) → Type 0
  ValueEnds n f = (s : Scanner) (cs : UString) → Holds n s cs → Ends (Shorter n) (f s cs)

  abbrev MoreEnds : ℕ → (Value → Scanner → UString → Run Parsed) → Type 0
  MoreEnds n f =
      (m : ℕ) (v : Value) (s : Scanner) (cs : UString)
      → m < n
      → Holds m s cs
      → Ends (NotLonger m) (f v s cs)

  more-Shorter :
      (n : ℕ) (f : Value → Scanner → UString → Run Parsed) (v w : Value) (t : Scanner)
      (left : UString)
      → MoreEnds n f
      → Shorter n (w, t, left)
      → Ends (NotLonger n) (f v t left)
  more-Shorter n f v w t left more (r, l) =
      Ends-longer (length t.back + length left) n (omega arith)
        (more (length t.back + length left) v t left (omega arith) (r, omega arith))

  more-Between :
      (n : ℕ) (f : Value → Scanner → UString → Run Parsed) (v : Value) (t : Scanner)
      (left : UString)
      → MoreEnds n f
      → t.back ≡ []
      → length left < n
      → Ends (Shorter n) (f v t left)
  more-Between n f v t left more e l =
      Ends-last {m = length left} {n = n} l
        (more (length left) v t left l (Between-Ready t e, omega (arith, ap length e)))

  after_value-Ends :
      (n : ℕ) (f g : Value → Scanner → UString → Run Parsed) (t : Scanner) (rest : UString)
      (step : ValueStep)
      → MoreEnds n f
      → MoreEnds n g
      → length t.back + length rest ≤ n
      → Stepped t step
      → Ends (Shorter n) (after_value icu hash callback d p f g rest step)
  after_value-Ends n f g t rest (open_list u) hf hg l (k, m) =
      more-Between n f list_init u rest hf k (omega arith)
  after_value-Ends n f g t rest (open_table u) hf hg l (k, m) =
      more-Between n g table_init u rest hg k (omega arith)
  after_value-Ends n f g t rest (whole v u) hf hg l (k, m) =
      ended (yields (Between-Ready u k, omega (arith, ap length k)))

  after_list-Ends :
      (n : ℕ) (f : Scanner → UString → Run Parsed) (g : Value → Scanner → UString → Run Parsed)
      (lst : Value) (step : ListStep)
      → ValueEnds n f
      → MoreEnds n g
      → ListHolds n step
      → Ends (NotLonger n) (after_list icu hash callback d p f g lst step)
  after_list-Ends n f g lst (element u more) hf hg m =
      Ends->>= (hf u more m) λ (v, t, left) k. more-Shorter n g (append_element lst v) v t left hg k
  after_list-Ends n f g lst (closed u more) hf hg m = ended (yields m)

  after_key-Ends :
      (n : ℕ) (f : Scanner → UString → Run Parsed) (g : Value → Scanner → UString → Run Parsed)
      (e : Option UString → Value → Scanner → UString → Run Parsed) (tab : Value) (step : KeyStep)
      → ValueEnds n f
      → MoreEnds n g
      → ((key : Option UString) → MoreEnds n (e key))
      → KeyHolds n step
      → Ends (NotLonger n) (after_key icu hash callback d p f g e tab step)
  after_key-Ends n f g e tab (keyed key u more) hf hg he m =
      Ends-longer (length more) n (omega (arith, m.1)) (
        he key (length more) tab u more (m.1)
          (Between-Ready u (m.0), omega (arith, ap length (m.0))))
  after_key-Ends n f g e tab (dropped u more) hf hg he m =
      Ends-longer (length more) n (omega (arith, m.1))
        (hg (length more) tab u more (m.1) (Between-Ready u (m.0), omega (arith, ap length (m.0))))
  after_key-Ends n f g e tab (stray u more) hf hg he m =
      Ends->>= (hf u more m) λ (v, t, left) k. more-Shorter n g tab v t left hg k
  after_key-Ends n f g e tab (finished u more) hf hg he m = ended (yields m)

  after_test-Ends :
      (n : ℕ) (f : Scanner → UString → Run Parsed) (g : Value → Scanner → UString → Run Parsed)
      (key : Option UString) (tab : Value) (rest : UString) (b : Bool) (u : Scanner)
      → ValueEnds n f
      → MoreEnds (suc n) g
      → Holds n u rest
      → Ends (NotLonger n) (after_test icu hash callback d p f g key tab rest (b, u))
  after_test-Ends n f g key tab rest false u hf hg m = hg n tab u rest (omega arith) m
  after_test-Ends n f g key tab rest true u hf hg m = Ends->>= (hf u rest m) λ (v, t, left) (r, l).
      Ends->>= (ended (settled (set_unless_null icu hash callback d p key tab (some v)))) λ tab₂ _.
        Ends-longer (length t.back + length left) n (omega arith)
          (hg (length t.back + length left) tab₂ t left (omega arith) (r, omega arith))

  mutual
    unfolding parse_value parse_list parse_table parse_entry

    pub parse_value-Ends :
        (fuel n : ℕ) → 3 * n + 1 ≤ fuel → ValueEnds n (parse_value icu hash callback d p fuel)
    parse_value-Ends zero n f s cs h = absurd (omega arith)
    parse_value-Ends (suc fuel) n f s cs h =
        Ends->>= (ended (token-Holds n s cs h)) λ (t, rest) ((r, l), e).
          Ends->>= (ended (value-Stepped t e)) λ step k.
            after_value-Ends n _ _ t rest step (parse_list-Ends fuel n (omega arith))
              (parse_table-Ends fuel n (omega arith)) l k

    parse_list-Ends :
        (fuel n : ℕ) → 3 * n ≤ suc fuel → MoreEnds n (parse_list icu hash callback d p fuel)
    parse_list-Ends zero n f m lst s cs l h = absurd (omega arith)
    parse_list-Ends (suc fuel) n f m lst s cs l h =
        Ends->>= (ended (token-Holds m s cs h)) λ (t, rest) (k, e).
          Ends->>= (ended (list_step-Holds callback t.ttype m t rest (filled t e) k)) λ step q.
            after_list-Ends m _ _ lst step (parse_value-Ends fuel m (omega arith))
              (parse_list-Ends fuel m (omega arith)) q

    parse_table-Ends :
        (fuel n : ℕ) → 3 * n ≤ suc fuel → MoreEnds n (parse_table icu hash callback d p fuel)
    parse_table-Ends zero n f m tab s cs l h = absurd (omega arith)
    parse_table-Ends (suc fuel) n f m tab s cs l h =
        Ends->>= (ended (token-Holds m s cs h)) λ (t, rest) (k, e).
          Ends->>= (ended (key_step-Holds callback d p t.ttype m t rest (filled t e) k)) λ step q.
            after_key-Ends m _ _ _ tab step (parse_value-Ends fuel m (omega arith))
              (parse_table-Ends fuel m (omega arith))
              (λ key. parse_entry-Ends fuel m key (omega arith)) q

    parse_entry-Ends :
        (fuel n : ℕ) (key : Option UString)
        → 3 * n ≤ fuel
        → MoreEnds n (parse_entry icu hash callback d p fuel key)
    parse_entry-Ends zero n key f m tab s cs l h = absurd (omega arith)
    parse_entry-Ends (suc fuel) n key f m tab s cs l h =
        Ends->>= (ended (settled (set_unless_null icu hash callback d p key tab none))) λ tab₁ _.
          Ends->>= (ended (token-Holds m s cs h)) λ (t, rest) (k, e).
            Ends->>= (ended (has_value-Holds callback t.ttype m t rest k)) λ (present, u) q.
              after_test-Ends m _ _ key tab₁ rest present u (parse_value-Ends fuel m (omega arith))
                (parse_table-Ends fuel (suc m) (omega arith)) q

-- Where the caller's options do not make the replacement character white space: from a state between
-- tokens, the parse of a value returns, with a value and less input than before or with an error
-- code, whatever the input and the recoveries of the error callback are; fuel of three for each code
-- unit of the input, and one, is enough.
pub parse_value_total :
    (icu : Icu) (hash : Uthash Value) (callback : Callback) (d : Dialect) (p : Protocols)
    (s : Scanner) (cs : UString)
    → metaclass_of d (replacement d) ≡ general_meta
    → s.back ≡ []
    → (parse_value icu hash callback d p (3 * length cs + 1) s cs ≢ none)
      × ((v : Value) (t : Scanner) (rest : UString)
          → parse_value icu hash callback d p (3 * length cs + 1) s cs ≡ some (ok (v, t, rest))
          → length t.back + length rest < length cs)
parse_value_total icu hash callback d p s cs free start =
    let ends =
      parse_value-Ends icu hash callback d p free (3 * length cs + 1) (length cs) (omega arith) s cs
        (Between-Ready icu hash callback d p free s start, omega (arith, ap length start)) in
    (Ends-ne-none ends, λ v t rest e. (Ends-value ends e).1)
