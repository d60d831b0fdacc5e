-- ===== src/Parser/Settles/Values.antt =====
-- The next token, and the call of `parse_value`, in src/parser.c: what they leave of the input.
use cif_api.Base.{
  ℕ, ◌+◌, ◌-◌, ◌*◌, ◌<◌, false, some, [], ◌∷◌, UString, length, ◌≡◌, ◌⊎◌, refl, ◌∙◌, arith, inl,
  inr,
}
use cif_api.Code.{Result, missing_space}
use cif_api.Icu.{Icu}
use cif_api.Hash.{Uthash}
use cif_api.Value.{Value}
use cif_api.Scanner.Classes.{Dialect}
use cif_api.Scanner.State.{Scanner, Callback, TokenType, raise, metaclass_of, general_meta}
use cif_api.Scanner.Units.{replacement}
use cif_api.Scanner.Decode.{Protocols}
use cif_api.Scanner.Tokens.{next_token, is_empty}
use cif_api.Scanner.Tokens.Scans.{length-behind}
use cif_api.Scanner.Yields.{Yields, yields, stops}
use cif_api.Parser.Run.{Run, Ends, ended}
use cif_api.Parser.Steps.Progress.{IsDelimited, delimited-Usable}
use cif_api.Parser.Values.{Parsed}
use cif_api.Parser.Values.Total.{TokenHolds, token-Holds, Shorter, parse_value-Ends}
use cif_api.Parser.Storage.{Storage, Handlers}
use cif_api.Parser.World.{
  World, going, ◌>>◌, follow, of_result, act, set_input, next, raise_colon, push_back_colon,
}
use cif_api.Parser.Items.{parsed, a_value}
use cif_api.Parser.Settles.{
  Settles, settled, halts, Keeps, Less, Same, Filled, Keeps-Same, Filled-Same, Settles-follow,
  Settles-weaken, act-Same,
}

-- The tokens with which a value starts
abbrev pub StartsValue : TokenType → Type 0
StartsValue TokenType.tkey = Unit
StartsValue TokenType.key = Unit
StartsValue TokenType.olist = Unit
StartsValue TokenType.otable = Unit
StartsValue TokenType.tvalue = Unit
StartsValue TokenType.qvalue = Unit
StartsValue TokenType.value = Unit
StartsValue _ = ⊥

not_empty : (b : UString) → 0 < length b → is_empty b ≡ false
not_empty [] h = absurd (omega arith)
not_empty (c ∷ cs) h = refl

module _ {Store Container Loop : Type 0} (storage : Storage Store Container Loop)
    (handlers : Handlers Store Container Loop) (icu : Icu) (hash : Uthash Value)
    (callback : Callback) (d : Dialect) (p : Protocols)
    (free : metaclass_of d (replacement d) ≡ general_meta) where
  -- A world with its next token
  abbrev pub Tokened : ℕ → World Store → Type 0
  Tokened n w = Keeps n w × ((w.scanner.ttype ≡ TokenType.end) ⊎ Filled w)

  -- At the end of the input, or before a token
  abbrev pub Ended : ℕ → World Store → Type 0
  Ended n w = Keeps n w × (((w.scanner.ttype ≡ TokenType.end) × (w.input ≡ [])) ⊎ Filled w)

  pub Tokened-Same : (n : ℕ) (w v : World Store) → Same w v → Tokened n w → Tokened n v
  Tokened-Same n w v s (k, inl e) = (Keeps-Same n w v s k, inl (s.1 ∙ e))
  Tokened-Same n w v s (k, inr f) = (Keeps-Same n w v s k, inr (Filled-Same w v s f))

  pub next-Ended :
      (n : ℕ) (w : World Store) → Keeps n w → Settles (λ _ v. Ended n v) (next callback d w)
  next-Ended n w h = taken (token-Holds icu hash callback d p free n w.scanner w.input h)
    where
      taken :
          {r : Result (Scanner × UString)}
          → Yields (TokenHolds icu hash callback d p free n) r
          → Settles (λ _ v. Ended n v) (follow set_input (of_result r w))
      taken (yields h) = settled h
      taken stops = halts

  pub next-Tokened :
      (n : ℕ) (w : World Store) → Keeps n w → Settles (λ _ v. Tokened n v) (next callback d w)
  next-Tokened n w h = Settles-weaken (next-Ended n w h) λ _ v (k, e). (k, either e)
    where
      either : {A B C : Type 0} → (A × B) ⊎ C → A ⊎ C
      either (inl (a, b)) = inl a
      either (inr c) = inr c

  -- A token that is ready stays.
  pub next-Filled : (w : World Store) → Filled w → next callback d w ≡ some (going tt w)
  unfolding next_token
  next-Filled w f = rw (not_empty w.scanner.back f)

  pub a_value-Less :
      (n : ℕ) (w : World Store)
      → Keeps n w
      → Settles (λ _ v. Less n v) (a_value storage handlers icu hash callback d p w)
  a_value-Less n w (r, l) =
      let m = length w.scanner.back + length w.input in
      taken (
        parse_value-Ends icu hash callback d p free (3 * m + 1) m (omega arith) w.scanner w.input
          (r, omega arith))
    where
      taken :
          {o : Run Parsed}
          → Ends (Shorter (length w.scanner.back + length w.input)) o
          → Settles (λ _ v. Less n v) (parsed storage handlers icu hash callback d p o w)
      taken (ended (yields (q, k))) = settled (q, omega arith)
      taken (ended stops) = halts

  push_back_colon-Keeps :
      (n : ℕ) (alt : TokenType) (w : World Store)
      → IsDelimited alt
      → Filled w
      → Keeps n w
      → Settles (λ _ v. Keeps n v) (push_back_colon callback d alt w)
  push_back_colon-Keeps n alt w a f (r, l) =
      settled ((λ _. delimited-Usable alt _ a), omega (arith, length-behind w.scanner.back))

  -- A colon that is reported and pushed back
  pub colon-Keeps :
      (n : ℕ) (alt : TokenType) (column : Scanner → ℕ) (text : Scanner → UString) (w : World Store)
      → IsDelimited alt
      → Filled w
      → Keeps n w
      → Settles
          (λ _ v. Keeps n v)
          ((act (λ s. raise callback missing_space (column s) (text s) s)
              >> push_back_colon callback d alt)
            w)
  colon-Keeps n alt column text w a f k =
      Settles-follow _ (act-Same callback missing_space column text w)
        λ _ v s. push_back_colon-Keeps n alt v a (Filled-Same w v s f) (Keeps-Same n w v s k)

  -- A value behind it
  pub colon_value-Less :
      (n : ℕ) (alt : TokenType) (w : World Store)
      → IsDelimited alt
      → Filled w
      → Keeps n w
      → Settles
          (λ _ v. Less n v)
          ((raise_colon callback d
              >> push_back_colon callback d alt
              >> a_value storage handlers icu hash callback d p)
            w)
  colon_value-Less n alt w a f k =
      Settles-follow _ (colon-Keeps n alt (λ s. s.column - 1) (λ s. []) w a f k)
        λ _ v h. a_value-Less n v h
