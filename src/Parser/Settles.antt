-- ===== src/Parser/Settles.antt =====
-- The rules by which the parser of src/parser.c is shown to end: a step stops, or goes on in a world
-- of which something is known.
pub mod Values
pub mod Items
pub mod Rows
pub mod Packets
pub mod Loops
pub mod Frames
pub mod Strays
pub mod Switch
pub mod Containers
pub mod Heads
pub mod Blocks
pub mod Total
use cif_api.Base.{
  ℕ, ◌+◌, ◌-◌, ◌≤◌, ◌<◌, Bool, true, false, Option, none, some, [], ◌∷◌, UString, length, ltb,
  if◌then◌else◌, ◌≡◌, ◌≢◌, ◌⊎◌, refl, sym, ap, ◌∙◌, subst, arith, inl, inr, Option-cases,
}
use cif_api.Code.{Code, Result, ok, err}
use cif_api.Walk.{Flow}
use cif_api.Scanner.State.{Scanner, Callback, TokenType, raise, consume_token}
use cif_api.Scanner.Yields.{Yields, yields, stops}
use cif_api.Parser.Steps.Progress.{Ready, Usable-subst, Holds, Kept, raise-Kept}
use cif_api.Parser.World.{
  World, Stop, Outcome, halted, going, Step, follow, halt, of_result, of_code, act, set_scanner,
  directed, look, update, deeper, is_skipping,
}

pub data Settles {Store A : Type 0} (P : A → World Store → Type 0)
    : Option (Outcome Store A) → Type 0 where
  settled : {a : A} {w : World Store} → P a w → Settles P (some (going a w))
  halts : {s : Stop} {st : Store} → Settles P (some (halted s st))

pub deeper-Kept : (s : Scanner) → Kept s (deeper s)
deeper-Kept s = kept (is_skipping s)
  where
    kept : (b : Bool) → Kept s (if b then record s { skip_depth = s.skip_depth + 1 } else s)
    kept true = (refl, refl)
    kept false = (refl, refl)

module _ {Store : Type 0} where
  -- At most `n` code units of the token and of the input
  abbrev pub Keeps : ℕ → World Store → Type 0
  Keeps n w = Holds n w.scanner w.input

  -- Fewer than `n`
  abbrev pub Less : ℕ → World Store → Type 0
  Less n w = Ready w.scanner × (length w.scanner.back + length w.input < n)

  -- The same token and the same input
  abbrev pub Same : World Store → World Store → Type 0
  Same w v =
      (v.scanner.back ≡ w.scanner.back) × (v.scanner.ttype ≡ w.scanner.ttype) × (v.input ≡ w.input)

  -- There is a token.
  abbrev pub Filled : World Store → Type 0
  Filled w = 0 < length w.scanner.back

  Ready-Same : (w v : World Store) → Same w v → Ready w.scanner → Ready v.scanner
  Ready-Same w v (b, t, i) r h =
      Usable-subst (sym t) (sym (ap length b)) (r (omega (arith, ap length b)))

  pub Keeps-Same : (n : ℕ) (w v : World Store) → Same w v → Keeps n w → Keeps n v
  Keeps-Same n w v (b, t, i) (r, l) =
      (Ready-Same w v (b, t, i) r, omega (arith, ap length b, ap length i))

  pub Less-Same : (n : ℕ) (w v : World Store) → Same w v → Less n w → Less n v
  Less-Same n w v (b, t, i) (r, l) =
      (Ready-Same w v (b, t, i) r, omega (arith, ap length b, ap length i))

  pub Same-trans : (u v w : World Store) → Same u v → Same v w → Same u w
  Same-trans u v w (a, b, c) (a', b', c') = (a' ∙ a, b' ∙ b, c' ∙ c)

  pub Keeps-Less : (n : ℕ) (w : World Store) → Less n w → Keeps n w
  Keeps-Less n w (r, l) = (r, omega arith)

  pub Keeps-below : (n : ℕ) (w : World Store) → Less n w → Keeps (n - 1) w
  Keeps-below n w (r, l) = (r, omega arith)

  pub Filled-Same : (w v : World Store) → Same w v → Filled w → Filled v
  Filled-Same w v (b, t, i) f = omega (arith, ap length b)

  pub consumed-Less :
      (n : ℕ) (w : World Store)
      → Filled w
      → Keeps n w
      → Less n (record w { scanner = consume_token w.scanner })
  consumed-Less n w f (r, l) = ((λ h. absurd (omega arith)), omega arith)

  -- What holds of the measure at a bound holds at a larger one.
  pub Less-le : (m n : ℕ) (w : World Store) → m ≤ n → Less m w → Less n w
  Less-le m n w h (r, l) = (r, omega arith)

  pub Settles-follow :
      {A B : Type 0} {P : A → World Store → Type 0} {Q : B → World Store → Type 0}
      {o : Option (Outcome Store A)} (f : A → Step Store B)
      → Settles P o
      → ((a : A) (w : World Store) → P a w → Settles Q (f a w))
      → Settles Q (follow f o)
  Settles-follow f (settled {a} {w} h) k = k a w h
  Settles-follow f halts k = halts

  pub Settles-weaken :
      {A : Type 0} {P Q : A → World Store → Type 0} {o : Option (Outcome Store A)}
      → Settles P o
      → ((a : A) (w : World Store) → P a w → Q a w)
      → Settles Q o
  Settles-weaken (settled {a} {w} h) k = settled (k a w h)
  Settles-weaken halts k = halts

  -- A step that looks at the scanner
  pub Settles-look :
      {A B : Type 0} {P : World Store → Type 0} {Q : B → World Store → Type 0}
      {o : Option (Outcome Store A)} (f : Scanner → Step Store B)
      → Settles (λ _ v. P v) o
      → ((v : World Store) → P v → Settles Q (f v.scanner v))
      → Settles Q (follow f (follow (λ _. look) o))
  Settles-look f (settled {a} {w} h) k = k w h
  Settles-look f halts k = halts

  -- A step that changes the scanner
  pub Settles-update :
      {A : Type 0} {P Q : World Store → Type 0} {o : Option (Outcome Store A)}
      (g : Scanner → Scanner)
      → Settles (λ _ v. P v) o
      → ((v : World Store) → P v → Q (record v { scanner = g v.scanner }))
      → Settles (λ _ v. Q v) (follow (λ _. update g) o)
  Settles-update g (settled {a} {w} h) k = settled (k w h)
  Settles-update g halts k = halts

  pub deeper-Same : (w : World Store) → Same w (record w { scanner = deeper w.scanner })
  deeper-Same w = let (b, t) = deeper-Kept w.scanner in (b, t, refl)

  pub Settles-split :
      {A : Type 0} {P : A → World Store → Type 0} (b : Bool) (x y : Step Store A) (w : World Store)
      → Settles P (x w)
      → Settles P (y w)
      → Settles P ((if b then x else y) w)
  Settles-split true x y w hx hy = hx
  Settles-split false x y w hx hy = hy

  pub Settles-directed :
      {A : Type 0} {P : A → World Store → Type 0} (flow : Flow) (go current siblings : Step Store A)
      (w : World Store)
      → Settles P (go w)
      → Settles P (current w)
      → Settles P (siblings w)
      → Settles P (directed flow go current siblings w)
  Settles-directed Flow.continue go current siblings w a b c = a
  Settles-directed Flow.skip_current go current siblings w a b c = b
  Settles-directed Flow.skip_siblings go current siblings w a b c = c
  Settles-directed Flow.stop go current siblings w a b c = halts
  Settles-directed (Flow.code e) go current siblings w a b c = halts

  pub of_code-Same :
      (code : Option Code) (w : World Store) → Settles (λ _ v. Same w v) (of_code code w)
  of_code-Same none w = settled (refl, refl, refl)
  of_code-Same (some code) w = halts

  pub of_result-Same :
      {A : Type 0} (r : Result A) (w : World Store) → Settles (λ _ v. Same w v) (of_result r w)
  of_result-Same (ok a) w = settled (refl, refl, refl)
  of_result-Same (err code) w = halts

  set_scanner-Same :
      (w : World Store) (r : Result Scanner)
      → Yields (Kept w.scanner) r
      → Settles (λ _ v. Same w v) (follow set_scanner (of_result r w))
  set_scanner-Same w (ok s) (yields (b, t)) = settled (b, t, refl)
  set_scanner-Same w (err code) stops = halts

  pub act-Same :
      (callback : Callback) (code : Code) (column : Scanner → ℕ) (text : Scanner → UString)
      (w : World Store)
      → Settles (λ _ v. Same w v) (act (λ s. raise callback code (column s) (text s) s) w)
  act-Same callback code column text w =
      set_scanner-Same w (raise callback code (column w.scanner) (text w.scanner) w.scanner)
        (raise-Kept callback code (column w.scanner) (text w.scanner) w.scanner)
