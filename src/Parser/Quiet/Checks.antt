-- ===== src/Parser/Quiet/Checks.antt =====
-- `parse_cif` of src/parser.c without a CIF to store in: "a syntax-only check is performed, but nothing
-- is stored".
use cif_api.Base.{
  Option-cases, inl, inr, ℕ, zero, suc, ◌+◌, Bool, true, false, Option, none, some, [], length, ◌≡◌,
  subst,
}
use cif_api.Code.{no_block_header}
use cif_api.Icu.{Icu}
use cif_api.Hash.{Uthash}
use cif_api.Value.{Value, ℤ}
use cif_api.Scanner.Classes.{Dialect}
use cif_api.Scanner.State.{Scanner, Callback, TokenType, consume_token}
use cif_api.Scanner.Decode.{Protocols}
use cif_api.Parser.Storage.{Storage, Handlers}
use cif_api.Parser.World.{
  World, ended, failed, Outcome, halted, going, Step, follow, pure, look, higher, raise_token,
}
use cif_api.Parser.Quiet.{
  IsReading, Returns, Quiet-given, Unchanged, Quiet, Quiet->>=, pure-Quiet, exhausted-Quiet,
  look-Quiet, update-Quiet, Quiet-directed, call-Quiet, next-Quiet, raise_token-Quiet,
}
use cif_api.Scanner.State.{metaclass_of, general_meta}
use cif_api.Scanner.Units.{replacement}
use cif_api.Parser.Blocks.{block_step, with_block, cif_loop, parse_cif, result_of}
use cif_api.Parser.Settles.Total.{parse_cif_total}
use cif_api.Parser.Quiet.{Returns-follow}
use cif_api.Parser.Quiet.Containers.{parse_container-Quiet}

module _ {Store Container Loop : Type 0} (storage : Storage Store Container Loop)
    (handlers : Handlers Store Container Loop) (icu : Icu) (hash : Uthash Value)
    (callback : Callback) (d : Dialect) (p : Protocols) (unset : ℕ → Bool) (max_frame_depth : ℤ)
    (reads : IsReading handlers) where
  -- Blocks without a handle
  abbrev Unbacked : Option (Option Container) → Type 0
  Unbacked (some (some block)) = ⊥
  Unbacked _ = Unit

  headless-Quiet :
      Quiet (
        block_step storage handlers icu hash callback d p unset max_frame_depth false
          TokenType.name)
  unfolding block_step
  headless-Quiet =
      Quiet->>= (Quiet->>= (raise_token-Quiet callback d no_block_header) λ _. look-Quiet)
        λ s. Quiet->>= (pure-Quiet none) λ block. pure-Quiet (some block)

  block_step-Quiet :
      (t : TokenType)
      → Quiet (block_step storage handlers icu hash callback d p unset max_frame_depth false t)
  unfolding block_step
  block_step-Quiet TokenType.block_head = Quiet->>= look-Quiet λ s.
      Quiet->>= (pure-Quiet none)
        λ block. Quiet->>= (update-Quiet consume_token) λ _. pure-Quiet (some block)
  block_step-Quiet TokenType.end = pure-Quiet none
  block_step-Quiet _ = headless-Quiet

  headless-Unbacked :
      (w : World Store)
      → Returns Unbacked (
          block_step storage handlers icu hash callback d p unset max_frame_depth false
            TokenType.name w)
  unfolding block_step
  headless-Unbacked w =
      Returns-follow {Store = Store} {A = Scanner} Unbacked (λ s. pure (some none))
        (follow (λ _. look) (raise_token callback d no_block_header w)) λ s v. tt

  block_step-Unbacked :
      (t : TokenType) (w : World Store)
      → Returns Unbacked
          (block_step storage handlers icu hash callback d p unset max_frame_depth false t w)
  unfolding block_step
  block_step-Unbacked TokenType.block_head w = tt
  block_step-Unbacked TokenType.end w = tt
  block_step-Unbacked _ w = headless-Unbacked w

  with_block-Quiet :
      (rest : Option Container → Step Store (Unit {0})) (o : Option (Option Container))
      → Unbacked o
      → Quiet (rest none)
      → Quiet (with_block storage handlers icu hash callback d p unset max_frame_depth false rest o)
  with_block-Quiet rest none u q = pure-Quiet tt
  with_block-Quiet rest (some none) u q = q
  with_block-Quiet rest (some (some block)) u q = absurd u

  cif_loop-Quiet :
      (fuel : ℕ)
      → Quiet (cif_loop storage handlers icu hash callback d p unset max_frame_depth false fuel)
  unfolding cif_loop
  cif_loop-Quiet zero = exhausted-Quiet
  cif_loop-Quiet (suc fuel) = Quiet->>= (Quiet->>= (next-Quiet callback d) λ _. look-Quiet) λ s.
      Quiet-given {P = Unbacked} _ (block_step-Quiet s.ttype) (block_step-Unbacked s.ttype) λ o u.
        with_block-Quiet _ o u (
          Quiet->>=
            (parse_container-Quiet storage handlers icu hash callback d p unset max_frame_depth
              reads fuel true)
            λ _. cif_loop-Quiet fuel)

  parse_cif-Quiet :
      (fuel : ℕ)
      → Quiet (parse_cif storage handlers icu hash callback d p unset max_frame_depth false fuel)
  unfolding parse_cif
  parse_cif-Quiet fuel = Quiet->>= (call-Quiet handlers.cif_start reads.cif_start_reads) λ flow.
      Quiet->>=
        (Quiet->>=
          (Quiet->>=
            (Quiet->>=
              (Quiet-directed flow (pure-Quiet tt) (update-Quiet λ s. record s { skip_depth = 1 })
                (update-Quiet λ s. record s { skip_depth = 1 }))
              λ _. cif_loop-Quiet fuel)
            λ _. update-Quiet higher)
          λ _. call-Quiet handlers.cif_end reads.cif_end_reads)
        λ flow. Quiet-directed flow (pure-Quiet tt) (pure-Quiet tt) (pure-Quiet tt)

  result_of-Unchanged :
      (st : Store) (o : Outcome Store (Unit {0}))
      → Unchanged st (some o)
      → (result_of storage handlers icu hash callback d p unset max_frame_depth false o).1 ≡ st
  result_of-Unchanged st (halted ended st') u = u
  result_of-Unchanged st (halted (failed code) st') u = u
  result_of-Unchanged st (going a w) u = u

-- Where the caller's options do not make the replacement character white space, and the handlers only
-- look at what is stored: without a CIF to store in, from a state between tokens, `parse_cif` returns,
-- and leaves the storage as it was, whatever the input, the answers of the handlers and the recoveries
-- of the error callback are, and also where it ends with an error.
pub parse_cif-unstored :
    {Store Container Loop : Type 0} (storage : Storage Store Container Loop)
    (handlers : Handlers Store Container Loop) (icu : Icu) (hash : Uthash Value)
    (callback : Callback) (d : Dialect) (p : Protocols) (unset : ℕ → Bool) (max_frame_depth : ℤ)
    (w : World Store)
    → IsReading handlers
    → metaclass_of d (replacement d) ≡ general_meta
    → w.scanner.back ≡ []
    → (o : Outcome Store (Unit {0})) × (parse_cif storage handlers icu hash callback d p unset
          max_frame_depth false
          (length w.input + 2)
          w
        ≡ some o)
      × ((result_of storage handlers icu hash callback d p unset max_frame_depth false o).1
          ≡ w.store)
parse_cif-unstored storage handlers icu hash callback d p unset max_frame_depth w reads free start =
    let fuel = length w.input + 2 in
    elim (Option-cases
      (parse_cif storage handlers icu hash callback d p unset max_frame_depth false fuel w)) [
        | inl e ↦ absurd (
            (parse_cif_total storage handlers icu hash callback d p unset max_frame_depth false w
                free start).0
              e)
        | inr (o, e) ↦ (
          o,
          e,
          result_of-Unchanged storage handlers icu hash callback d p unset max_frame_depth reads
              w.store o
              (subst (Unchanged w.store) e (
                (parse_cif-Quiet storage handlers icu hash callback d p unset max_frame_depth reads
                    fuel).unchanged
                  w)),
        )
      ]
