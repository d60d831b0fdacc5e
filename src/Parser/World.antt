-- ===== src/Parser/World.antt =====
-- The steps of the parser of src/parser.c above its values: what they change, and how they end. The
-- functions return an `int`: 0 to go on; a negative code where a handler ends the traversal; an error
-- code. In the last two cases nothing is called any more on the way out.
use cif_api.Base.{ℕ, ◌+◌, ◌-◌, Bool, Option, none, some, List, [], ◌∷◌, UString, ltb, if◌then◌else◌}
use cif_api.Code.{Code, Result, ok, err, missing_space}
use cif_api.Walk.{Flow}
use cif_api.Scanner.Classes.{Dialect}
use cif_api.Scanner.State.{Scanner, Callback, Report, TokenType, raise, notify, behind}
use cif_api.Scanner.Tokens.{next_token, tvalue}

pub record World (Store : Type 0) : Type 0 where
  pub scanner : Scanner
  -- The input behind `next_char`
  pub input : UString
  pub store : Store

-- The end of the parse by a handler (`CIF_TRAVERSE_END`), or by an error.
pub data Stop : Type 0 where
  ended : Stop
  failed : Code → Stop

-- A step that stops leaves what was stored.
pub data Outcome (Store A : Type 0) : Type 0 where
  halted : Stop → Store → Outcome Store A
  going : A → World Store → Outcome Store A

-- `none` where the fuel of the model has run out
abbrev pub Step : Type 0 → Type 0 → Type 0
Step Store A = World Store → Option (Outcome Store A)

-- "if (scanner->skip_depth > 0)"
abbrev pub is_skipping : Scanner → Bool
is_skipping s = ltb 0 s.skip_depth

-- The depth goes up, and down, unless it is 0.
abbrev pub deeper : Scanner → Scanner
deeper s = if is_skipping s then record s { skip_depth = s.skip_depth + 1 } else s

abbrev pub higher : Scanner → Scanner
higher s = record s { skip_depth = s.skip_depth - 1 }

module _ {Store : Type 0} where
  abbrev pub follow :
      {A B : Type 0} → (A → Step Store B) → Option (Outcome Store A) → Option (Outcome Store B)
  follow f none = none
  follow f (some (halted s st)) = some (halted s st)
  follow f (some (going a w)) = f a w

  infixl 5 ◌>>=◌ ◌>>◌
  abbrev pub ◌>>=◌ : {A B : Type 0} → Step Store A → (A → Step Store B) → Step Store B
  ◌>>=◌ m f w = follow f (m w)

  abbrev pub ◌>>◌ : {A B : Type 0} → Step Store A → Step Store B → Step Store B
  m >> k = m >>= λ _. k

  abbrev pub pure : {A : Type 0} → A → Step Store A
  pure a w = some (going a w)

  -- The fuel has run out.
  abbrev pub exhausted : {A : Type 0} → Step Store A
  exhausted w = none

  abbrev pub halt : {A : Type 0} → Stop → Step Store A
  halt s w = some (halted s w.store)

  abbrev pub of_result : {A : Type 0} → Result A → Step Store A
  of_result (ok a) = pure a
  of_result (err code) = halt (failed code)

  -- `if (result != CIF_OK)`, at a code that is `none` for `CIF_OK`
  abbrev pub of_code : Option Code → Step Store (Unit {0})
  of_code none = pure tt
  of_code (some code) = halt (failed code)

  abbrev pub look : Step Store Scanner
  look w = some (going w.scanner w)

  abbrev pub update : (Scanner → Scanner) → Step Store (Unit {0})
  update f w = some (going tt (record w { scanner = f w.scanner }))

  abbrev pub set_scanner : Scanner → Step Store (Unit {0})
  set_scanner s w = some (going tt (record w { scanner = s }))

  abbrev pub set_input : Scanner × UString → Step Store (Unit {0})
  set_input (s, cs) w = some (going tt (record w { scanner = s; input = cs }))

  abbrev pub act : (Scanner → Result Scanner) → Step Store (Unit {0})
  act f w = follow set_scanner (of_result (f w.scanner) w)

  -- A call of the storage
  abbrev pub ask : {A : Type 0} → (Store → A × Store) → Step Store A
  ask f w = let (a, st) = f w.store in some (going a (record w { store = st }))

  -- A call of a handler
  abbrev pub call : {A : Type 0} → (List Report → Store → A × Store) → Step Store A
  call f w = ask (f w.scanner.reports) w

  abbrev pub set_skip : ℕ → Step Store (Unit {0})
  set_skip n = update λ s. record s { skip_depth = n }

  -- The switch over the result of a handler, by what the handler's two kinds of skipping do; any
  -- other code is returned.
  abbrev pub directed :
      {A : Type 0} → Flow → Step Store A → Step Store A → Step Store A → Step Store A
  directed Flow.continue go current siblings = go
  directed Flow.skip_current go current siblings = current
  directed Flow.skip_siblings go current siblings = siblings
  directed Flow.stop go current siblings = halt ended
  directed (Flow.code c) go current siblings = halt (failed c)

  module _ (callback : Callback) (d : Dialect) where
    abbrev pub next : Step Store (Unit {0})
    next w = follow set_input (of_result (next_token callback d w.scanner w.input) w)

    -- A call of `error_callback` at the token
    abbrev pub raise_token : Code → Step Store (Unit {0})
    raise_token code = act λ s. raise callback code (s.column - s.tvalue_length) (tvalue s) s

    -- "missing whitespace", at the colon behind a quoted value
    abbrev pub raise_colon : Step Store (Unit {0})
    raise_colon = act λ s. raise callback missing_space (s.column - 1) [] s

    -- "recover by pushing back the colon"
    abbrev pub push_back_colon : TokenType → Step Store (Unit {0})
    push_back_colon alt w = some (
        going tt (record w {
          scanner = notify [] (record w.scanner { back = behind w.scanner.back; ttype = alt });
          input = b':' ∷ w.input;
        }))
