-- ===== src/Parser/Quiet/Loops.antt =====
-- Loops in src/parser.c that are not stored leave the storage as it is.
use cif_api.Base.{
  Bool-cases, inl, inr, ℕ, zero, suc, ◌-◌, Bool, Option, none, some, List, [], ◌∷◌, UString,
  if◌then◌else◌, ◌≡◌, refl, sym, subst,
}
use cif_api.Code.{null_loop}
use cif_api.Icu.{Icu}
use cif_api.Hash.{Uthash}
use cif_api.Value.{Value}
use cif_api.Walk.{Flow}
use cif_api.Scanner.Classes.{Dialect}
use cif_api.Scanner.State.{Callback, raise, consume_token}
use cif_api.Scanner.Tokens.{tvalue}
use cif_api.Scanner.Decode.{Protocols}
use cif_api.Parser.Storage.{Storage, Handlers}
use cif_api.Parser.World.{World, ended, ◌>>◌, pure, is_skipping, deeper, higher}
use cif_api.Parser.Quiet.{
  IsReading, Returns, Quiet-given, Quiet, Quiet->>=, Quiet-if, pure-Quiet, halt-Quiet,
  exhausted-Quiet, look-Quiet, update-Quiet, act-Quiet, call-Quiet, next-Quiet,
}
use cif_api.Parser.Packets.{kept_names, parse_loop_packets}
use cif_api.Parser.Loops.{
  is_name, tell_name, parse_loop_header, start_loop, open_loop, end_loop, loop_body, parse_loop,
}
use cif_api.Parser.Quiet.Packets.{parse_loop_packets-Quiet, skipped}

module _ {Store Container Loop : Type 0} (storage : Storage Store Container Loop)
    (handlers : Handlers Store Container Loop) (icu : Icu) (hash : Uthash Value)
    (callback : Callback) (d : Dialect) (p : Protocols) (unset : ℕ → Bool)
    (reads : IsReading handlers) where
  parse_loop_header-Quiet :
      (fuel : ℕ) → Quiet (parse_loop_header storage handlers icu hash callback d p unset fuel none)
  unfolding parse_loop_header
  parse_loop_header-Quiet zero = exhausted-Quiet
  parse_loop_header-Quiet (suc fuel) =
      Quiet->>= (Quiet->>= (next-Quiet callback d) λ _. look-Quiet) λ s.
        Quiet-if (is_name s.ttype)
          (Quiet->>=
            (Quiet->>= (update-Quiet λ t. if is_skipping t then t else tell_name t)
              λ _. pure-Quiet (some (tvalue s)))
            λ name.
              Quiet->>= (Quiet->>= (update-Quiet consume_token) λ _. parse_loop_header-Quiet fuel)
                λ names. pure-Quiet (name ∷ names))
          (pure-Quiet [])

  start_loop-Quiet :
      (names : List UString) (r : Flow × Option UString)
      → Quiet (start_loop storage handlers icu hash callback d p unset none names r)
  unfolding start_loop
  start_loop-Quiet names (Flow.continue, category) = pure-Quiet none
  start_loop-Quiet names (Flow.skip_current, category) =
      Quiet->>= (update-Quiet λ s. record s { skip_depth = 1 }) λ _. pure-Quiet none
  start_loop-Quiet names (Flow.skip_siblings, category) =
      Quiet->>= (update-Quiet λ s. record s { skip_depth = 2 }) λ _. pure-Quiet none
  start_loop-Quiet names (Flow.stop, category) = halt-Quiet ended
  start_loop-Quiet names (Flow.code c, category) = pure-Quiet none

  open_loop-Quiet :
      (names : List UString)
      → Quiet (open_loop storage handlers icu hash callback d p unset none names)
  open_loop-Quiet names = Quiet->>= look-Quiet λ s. Quiet-if (is_skipping s) (pure-Quiet none) (
      Quiet->>= (call-Quiet (handlers.loop_start none names) (reads.loop_start_reads none names))
        (start_loop-Quiet names))

  -- Without a container there is no loop.
  abbrev NoLoop : Option Loop → Type 0
  NoLoop loop = loop ≡ none

  start_loop-NoLoop :
      (names : List UString) (r : Flow × Option UString) (w : World Store)
      → Returns NoLoop (start_loop storage handlers icu hash callback d p unset none names r w)
  unfolding start_loop
  start_loop-NoLoop names (Flow.continue, category) w = refl
  start_loop-NoLoop names (Flow.skip_current, category) w = refl
  start_loop-NoLoop names (Flow.skip_siblings, category) w = refl
  start_loop-NoLoop names (Flow.stop, category) w = tt
  start_loop-NoLoop names (Flow.code c, category) w = refl

  open_loop-NoLoop :
      (names : List UString) (w : World Store)
      → Returns NoLoop (open_loop storage handlers icu hash callback d p unset none names w)
  open_loop-NoLoop names w = elim (Bool-cases (is_skipping w.scanner)) [
    | inl e ↦ rw e refl
    | inr e ↦
        let (r, st) = handlers.loop_start none names w.scanner.reports w.store in
        rw e (start_loop-NoLoop names r (record w { store = st }))
  ]

  loop_body-Quiet :
      (fuel : ℕ) (names : List (Option UString))
      → Quiet (loop_body storage handlers icu hash callback d p unset fuel none names)
  unfolding loop_body
  loop_body-Quiet fuel [] =
      Quiet->>= (act-Quiet λ s. raise callback null_loop (s.column - s.tvalue_length) [] s)
        λ _. pure-Quiet none
  loop_body-Quiet fuel (name ∷ names) =
      Quiet-given {P = NoLoop} _ (open_loop-Quiet (kept_names (name ∷ names)))
        (open_loop-NoLoop (kept_names (name ∷ names)))
        λ loop e.
          subst
            (λ l. Quiet (
              parse_loop_packets storage handlers icu hash callback d p unset l (name ∷ names) fuel
              >> pure l))
            (sym e)
            (Quiet->>=
              (parse_loop_packets-Quiet storage handlers icu hash callback d p unset reads
                (name ∷ names) fuel)
              λ _. pure-Quiet none)

  end_loop-Quiet :
      (loop : Option Loop) → Quiet (end_loop storage handlers icu hash callback d p unset loop)
  unfolding end_loop
  end_loop-Quiet loop = Quiet->>= look-Quiet λ s. Quiet-if (is_skipping s) (update-Quiet higher) (
      Quiet->>= (call-Quiet (handlers.loop_end loop) (reads.loop_end_reads loop))
        λ flow. (skipped storage handlers icu hash callback d p unset reads) flow 1)

  pub parse_loop-Quiet :
      (fuel : ℕ) → Quiet (parse_loop storage handlers icu hash callback d p unset fuel none)
  unfolding parse_loop
  parse_loop-Quiet fuel =
      Quiet->>= (Quiet->>= (update-Quiet deeper) λ _. parse_loop_header-Quiet fuel)
        λ names. Quiet->>= (loop_body-Quiet fuel names) end_loop-Quiet
