-- ===== src/Scanner/Yields.antt =====
-- What a call returns if it succeeds: the rules by which the scans of src/parser.c are verified.
use cif_api.Base.{subst, ◌≡◌, Bool, true, false, Option-cases, inl, inr, if◌then◌else◌, refl}
use cif_api.Code.{Code, Result, ok, err, ◌>>=◌}
use cif_api.Scanner.State.{
  Scanner, Metaclass, no_meta, general_meta, ws_meta, open_meta, close_meta,
}
use cif_api.Scanner.Runs.{at_end, meta_switch}

pub data Yields {ℓ κ} {A : Type ℓ} (P : A → Type κ) : Result A → Type (ℓ ⊔ κ) where
  yields : {a : A} → P a → Yields P (ok a)
  stops : {code : Code} → Yields P (err code)

-- The metaclasses of the characters that go on with a value without delimiters.
abbrev pub passes : Metaclass → Bool
passes general_meta = true
passes no_meta = true
passes _ = false

module _ {ℓ κ} {A : Type ℓ} {P : A → Type κ} where
  pub Yields-value : {r : Result A} {a : A} → Yields P r → r ≡ ok a → P a
  Yields-value (yields h) e = subst P (cc) h
  Yields-value stops e = cc

  pub Yields-split :
      (b : Bool) {x y : Result A}
      → (b ≡ true → Yields P x)
      → (b ≡ false → Yields P y)
      → Yields P (if b then x else y)
  Yields-split true hx hy = hx refl
  Yields-split false hx hy = hy refl

  pub Yields->>= {ℓ' κ'} :
      {B : Type ℓ'} {Q : B → Type κ'} {r : Result A} {f : A → Result B}
      → Yields P r
      → ((a : A) → P a → Yields Q (f a))
      → Yields Q (r >>= f)
  Yields->>= (yields {a} h) k = k a h
  Yields->>= stops k = stops

  -- Where nothing needs to be known of the first part
  pub Yields-then {ℓ'} :
      {B : Type ℓ'} (r : Result B) {f : B → Result A}
      → ((b : B) → Yields P (f b))
      → Yields P (r >>= f)
  Yields-then (ok b) k = k b
  Yields-then (err code) k = stops

  pub Yields-at_end : (s : Scanner) {r : Result A} → Yields P r → Yields P (at_end s r)
  Yields-at_end s h = elim (Option-cases s.input_error) [
    | inl e ↦ rw e h
    | inr (code, e) ↦ rw e stops
  ]

  pub Yields-meta_switch :
      (m : Metaclass) {general opening closing white other : Result A}
      → Yields P general
      → Yields P opening
      → Yields P closing
      → Yields P white
      → Yields P other
      → Yields P (meta_switch m general opening closing white other)
  Yields-meta_switch general_meta a b c d e = a
  Yields-meta_switch open_meta a b c d e = b
  Yields-meta_switch close_meta a b c d e = c
  Yields-meta_switch ws_meta a b c d e = d
  Yields-meta_switch no_meta a b c d e = e

  pub Yields-passes :
      (m : Metaclass) (opening closing white : Result A) {general other : Result A}
      → passes m ≡ true
      → Yields P general
      → Yields P other
      → Yields P (meta_switch m general opening closing white other)
  Yields-passes general_meta x y z h a e = a
  Yields-passes no_meta x y z h a e = e
  Yields-passes open_meta x y z h a e = cc
  Yields-passes close_meta x y z h a e = cc
  Yields-passes ws_meta x y z h a e = cc
