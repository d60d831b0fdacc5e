-- ===== src/Parser/Settles/Heads.antt =====
-- The switch of `parse_cif` in src/parser.c: a block comes, or the input is at its end.
use cif_api.Base.{
  ℕ, zero, suc, ◌-◌, ◌<◌, Bool, true, false, Option, none, some, [], UString, length, ◌≡◌, ◌⊎◌,
  refl, ap, ◌∙◌, subst, arith, inl, inr,
}
use cif_api.Icu.{Icu}
use cif_api.Hash.{Uthash}
use cif_api.Value.{Value, ℤ}
use cif_api.Scanner.Classes.{Dialect}
use cif_api.Scanner.State.{Callback, TokenType, metaclass_of, general_meta}
use cif_api.Scanner.Units.{replacement}
use cif_api.Scanner.Decode.{Protocols}
use cif_api.Scanner.Tokens.{tvalue}
use cif_api.Parser.Storage.{Storage, Handlers}
use cif_api.Parser.World.{World}
use cif_api.Parser.Settles.{
  Settles, settled, halts, Keeps, Less, Same, Filled, Keeps-Same, Filled-Same, Settles-follow,
  Settles-weaken, Settles-split, of_result-Same, consumed-Less, act-Same, Same-trans,
}
use cif_api.Code.{invalid_blockcode, dup_blockcode, no_block_header, Result, ok, err}
use cif_api.Parser.Blocks.{made_block, open_block, anonymous_block, stores, block_step}
use cif_api.Parser.Settles.Frames.{Closes}
use cif_api.Scanner.Tokens.Progress.{Fitting}
use cif_api.Parser.Steps.Progress.{Ready}

zero_or_more : (n : ℕ) → (0 < n) ⊎ (n ≡ 0)
zero_or_more zero = inr refl
zero_or_more (suc n) = inl (omega arith)

module _ {Store Container Loop : Type 0} (storage : Storage Store Container Loop)
    (handlers : Handlers Store Container Loop) (icu : Icu) (hash : Uthash Value)
    (callback : Callback) (d : Dialect) (p : Protocols) (unset : ℕ → Bool) (max_frame_depth : ℤ)
    (has_cif : Bool) (free : metaclass_of d (replacement d) ≡ general_meta) where
  made_block-Same :
      (code : UString) (r : Result Container) (w : World Store)
      → Settles
          (λ _ v. Same w v)
          (made_block storage handlers icu hash callback d p unset max_frame_depth has_cif code r w)
  unfolding made_block
  made_block-Same code (ok block) w = settled (refl, refl, refl)
  made_block-Same code (err dup_blockcode) w =
      Settles-follow _ (act-Same callback dup_blockcode (λ s. s.column - s.tvalue_length) tvalue w)
        λ _ v s.
          let (r, st) = storage.get_block code v.store in
          Settles-weaken (of_result-Same r (record v { store = st })) λ _ u t. Same-trans w v u s t
  made_block-Same code (err _) w = halts

  open_block-Same :
      (code : UString) (r : Result Container) (w : World Store)
      → Settles
          (λ _ v. Same w v)
          (open_block storage handlers icu hash callback d p unset max_frame_depth has_cif code r w)
  unfolding open_block
  open_block-Same code (err invalid_blockcode) w =
      Settles-follow _
        (act-Same callback invalid_blockcode (λ s. s.column - s.tvalue_length) tvalue w)
        λ _ v s.
          let (r, st) = storage.create_block code true v.store in
          Settles-weaken (made_block-Same code r (record v { store = st }))
            λ _ u t. Same-trans w v u s t
  open_block-Same code (ok block) w = made_block-Same code (ok block) w
  open_block-Same code (err dup_blockcode) w = made_block-Same code (err dup_blockcode) w
  open_block-Same code (err _) w = halts

  anonymous_block-Same :
      (r : Result Container) (w : World Store)
      → Settles
          (λ _ v. Same w v)
          (anonymous_block storage handlers icu hash callback d p unset max_frame_depth has_cif r w)
  unfolding anonymous_block
  anonymous_block-Same (ok block) w = settled (refl, refl, refl)
  anonymous_block-Same (err dup_blockcode) w =
      let (r, st) = storage.get_block [] w.store in
      Settles-weaken (of_result-Same r (record w { store = st })) λ _ u t. t
  anonymous_block-Same (err _) w = halts

  -- Behind a token: at the end; or behind the head of a block; or before a token that a block consumes
  abbrev pub BlockHolds : ℕ → Option (Option Container) → World Store → Type 0
  BlockHolds n none v = Keeps 0 v
  BlockHolds n (some block) v =
      Less n v ⊎ (Keeps n v × Filled v × (Closes true v.scanner.ttype → ⊥))

  headed-Holds :
      (n : ℕ) (w : World Store)
      → Filled w
      → Keeps n w
      → Settles (BlockHolds n) (
          block_step storage handlers icu hash callback d p unset max_frame_depth has_cif
            TokenType.block_head w)
  unfolding block_step
  headed-Holds n w f k =
      let (r, st) = storage.create_block (tvalue w.scanner) false w.store in
      Settles-follow {P = λ _ v. Same w v} _
        (Settles-split
          (stores storage handlers icu hash callback d p unset max_frame_depth has_cif w.scanner) _
          _ w
          (Settles-follow _ (open_block-Same (tvalue w.scanner) r (record w { store = st }))
            λ block v s. settled s)
          (settled (refl, refl, refl)))
        λ block v s. settled (inl (consumed-Less n v (Filled-Same w v s f) (Keeps-Same n w v s k)))

  -- Content without the head of a block
  headless-Holds :
      (n : ℕ) (w : World Store)
      → Filled w
      → Keeps n w
      → (Closes true w.scanner.ttype → ⊥)
      → Settles (BlockHolds n) (
          block_step storage handlers icu hash callback d p unset max_frame_depth has_cif
            TokenType.name w)
  unfolding block_step
  headless-Holds n w f k c =
      Settles-follow {P = λ _ v. Same w v} _
        (Settles-follow {Q = λ _ v. Same w v} _
          (act-Same callback no_block_header (λ s. s.column - s.tvalue_length) tvalue w)
          λ _ v s. settled s)
        λ sc v s.
          let (r, st) = storage.create_block [] true v.store in
          Settles-follow {P = λ _ u. Same w u} _
            (Settles-split
              (stores storage handlers icu hash callback d p unset max_frame_depth has_cif sc) _ _ v
              (Settles-follow _ (anonymous_block-Same r (record v { store = st }))
                λ block u t. settled (Same-trans w v u s t))
              (settled s))
            λ block u t. settled (
              inr (Keeps-Same n w u t k, Filled-Same w u t f, λ x. c (subst (Closes true) (t.1) x)))

  -- The end has no text.
  not-Filled : (w : World Store) → Ready w.scanner → w.scanner.ttype ≡ TokenType.end → Filled w → ⊥
  not-Filled w q e f =
      let none_left = subst (λ t. Fitting t (length w.scanner.back)) e ((q f).1) in
      omega (arith, none_left)

  at_end :
      (w : World Store)
      → Ready w.scanner
      → w.scanner.ttype ≡ TokenType.end
      → w.input ≡ []
      → Keeps 0 w
  at_end w q e r = elim (zero_or_more (length w.scanner.back)) [
    | inl f ↦ absurd (not-Filled w q e f)
    | inr z ↦ (q, omega (arith, ap length r))
  ]

  pub block_step-Holds :
      (t : TokenType) (n : ℕ) (w : World Store)
      → w.scanner.ttype ≡ t
      → ((t ≡ TokenType.end) × (w.input ≡ [])) ⊎ Filled w
      → Keeps n w
      → Settles
          (BlockHolds n)
          (block_step storage handlers icu hash callback d p unset max_frame_depth has_cif t w)
  unfolding block_step
  block_step-Holds t n w e (inl (i, r)) (q, l) = rw i (settled (at_end w q (e ∙ i) r))
  block_step-Holds TokenType.block_head n w e (inr f) k = headed-Holds n w f k
  block_step-Holds TokenType.end n w e (inr f) (q, l) = absurd (not-Filled w q e f)
  block_step-Holds _ n w e (inr f) k = headless-Holds n w f k λ x. absurd (subst (Closes true) e x)
