-- ===== src/Parser/Run.antt =====
-- A run of the recursive functions of src/parser.c: `none` where the fuel of the model has run out,
-- which enough fuel excludes, and otherwise the result of the code.
use cif_api.Base.{◌≡◌, ◌≢◌, Option, none, some}
use cif_api.Code.{Result, ok, err}
use cif_api.Scanner.Yields.{Yields, yields, stops, Yields-value}

abbrev pub Run {ℓ} : Type ℓ → Type ℓ
Run A = Option (Result A)

module _ {ℓ κ} {A : Type ℓ} {B : Type κ} where
  infixl 5 ◌>>=◌
  abbrev pub ◌>>=◌ : Run A → (A → Run B) → Run B
  none >>= next = none
  some (err code) >>= next = some (err code)
  some (ok a) >>= next = next a

-- The run ends, and what it returns has the property.
pub data Ends {ℓ κ} {A : Type ℓ} (P : A → Type κ) : Run A → Type (ℓ ⊔ κ) where
  ended : {r : Result A} → Yields P r → Ends P (some r)

module _ {ℓ κ} {A : Type ℓ} {P : A → Type κ} where
  pub Ends-ne-none : {r : Run A} → Ends P r → r ≢ none
  Ends-ne-none (ended h) = cc

  pub Ends-value : {r : Run A} {a : A} → Ends P r → r ≡ some (ok a) → P a
  Ends-value (ended h) e = Yields-value h (cc)

  pub Ends->>= {ℓ' κ'} :
      {B : Type ℓ'} {Q : B → Type κ'} {r : Run A} {f : A → Run B}
      → Ends P r
      → ((a : A) → P a → Ends Q (f a))
      → Ends Q (r >>= f)
  Ends->>= (ended (yields {a} h)) k = k a h
  Ends->>= (ended stops) k = ended stops
