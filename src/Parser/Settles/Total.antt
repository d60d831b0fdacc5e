-- ===== src/Parser/Settles/Total.antt =====
-- `parse_cif` of src/parser.c returns, and leaves nothing unread where nothing ended it.
use cif_api.Base.{ℕ, ◌+◌, Bool, Option, none, some, [], length, ◌≡◌, ◌≢◌, ap, subst, arith}
use cif_api.Icu.{Icu}
use cif_api.Hash.{Uthash}
use cif_api.Value.{Value, ℤ}
use cif_api.Scanner.Classes.{Dialect}
use cif_api.Scanner.State.{Callback, metaclass_of, general_meta}
use cif_api.Scanner.Units.{replacement}
use cif_api.Scanner.Decode.{Protocols}
use cif_api.Parser.Storage.{Storage, Handlers}
use cif_api.Parser.World.{World, Outcome, going}
use cif_api.Parser.Settles.{Settles, settled, halts, Keeps}
use cif_api.Parser.Blocks.{parse_cif}
use cif_api.Parser.Settles.Blocks.{parse_cif-Consumes}

module _ {Store : Type 0} where
  Settles-ne-none :
      {B : Type 0} {P : B → World Store → Type 0} {o : Option (Outcome Store B)}
      → Settles P o
      → o ≢ none
  Settles-ne-none (settled h) = cc
  Settles-ne-none halts = cc

  all_read : (v : World Store) → Keeps 0 v → length v.scanner.back + length v.input ≡ 0
  all_read v (q, l) = omega arith

  -- What is known where the parse was not ended
  abbrev Reached : (World Store → Type 0) → Option (Outcome Store (Unit {0})) → Type 0
  Reached P (some (going a w)) = P w
  Reached P _ = Unit

  Settles-Reached :
      {P : World Store → Type 0} {o : Option (Outcome Store (Unit {0}))}
      → Settles (λ _ v. P v) o
      → Reached P o
  Settles-Reached (settled h) = h
  Settles-Reached halts = tt

-- Where the caller's options do not make the replacement character white space: from a state between
-- tokens, `parse_cif` returns, whatever the input, the storage, the handlers and the recoveries of the
-- error callback are; fuel of one for each code unit of the input, and two, is enough. Where neither
-- an error nor a handler ended the parse, no input and no token is left.
pub parse_cif_total :
    {Store Container Loop : Type 0} (storage : Storage Store Container Loop)
    (handlers : Handlers Store Container Loop) (icu : Icu) (hash : Uthash Value)
    (callback : Callback) (d : Dialect) (p : Protocols) (unset : ℕ → Bool) (max_frame_depth : ℤ)
    (has_cif : Bool) (w : World Store)
    → metaclass_of d (replacement d) ≡ general_meta
    → w.scanner.back ≡ []
    → (parse_cif storage handlers icu hash callback d p unset max_frame_depth has_cif
          (length w.input + 2)
          w
        ≢ none)
      × ((v : World Store)
          → parse_cif storage handlers icu hash callback d p unset max_frame_depth has_cif
              (length w.input + 2)
              w
            ≡ some (going tt v)
          → length v.scanner.back + length v.input ≡ 0)
parse_cif_total storage handlers icu hash callback d p unset max_frame_depth has_cif w free start =
    let ends =
      parse_cif-Consumes storage handlers icu hash callback d p unset max_frame_depth has_cif free
        (length w.input + 2) (length w.input) w (omega arith)
        ((λ h. absurd (omega (arith, ap length start))), omega (arith, ap length start)) in
    (Settles-ne-none ends, λ v e. all_read v (subst (Reached (Keeps 0)) e (Settles-Reached ends)))
