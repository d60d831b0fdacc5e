-- ===== src/Parser/Settles/Blocks.antt =====
-- `parse_cif` of src/parser.c ends, and, where it is not ended by a handler or an error, at the end of
-- the input.
use cif_api.Base.{
  ℕ, zero, suc, ◌+◌, ◌-◌, ◌<◌, Bool, true, Option, none, some, ◌≡◌, refl, arith, inl, inr,
}
use cif_api.Icu.{Icu}
use cif_api.Hash.{Uthash}
use cif_api.Value.{Value, ℤ}
use cif_api.Scanner.Classes.{Dialect}
use cif_api.Scanner.State.{Callback, metaclass_of, general_meta}
use cif_api.Scanner.Units.{replacement}
use cif_api.Scanner.Decode.{Protocols}
use cif_api.Parser.Storage.{Storage, Handlers}
use cif_api.Parser.World.{World, ◌>>◌}
use cif_api.Parser.Settles.{
  Settles, settled, Keeps, Less, Keeps-below, Settles-follow, Settles-directed, Settles-look,
}
use cif_api.Parser.Containers.{parse_container}
use cif_api.Parser.Blocks.{with_block, cif_loop, parse_cif}
use cif_api.Parser.Settles.Values.{next-Ended}
use cif_api.Parser.Settles.Strays.{later}
use cif_api.Parser.Settles.Containers.{parse_container-Keeps, parse_container-Less}
use cif_api.Parser.Settles.Heads.{BlockHolds, block_step-Holds}

module _ {Store Container Loop : Type 0} (storage : Storage Store Container Loop)
    (handlers : Handlers Store Container Loop) (icu : Icu) (hash : Uthash Value)
    (callback : Callback) (d : Dialect) (p : Protocols) (unset : ℕ → Bool) (max_frame_depth : ℤ)
    (has_cif : Bool) (free : metaclass_of d (replacement d) ≡ general_meta) where
  -- storage handlers icu hash callback d p unset max_frame_depth has_cif block in whose first token, or before it, something is consumed
  block-Less :
      (fuel n : ℕ) (block : Option Container) (w : World Store)
      → n < fuel
      → (BlockHolds storage handlers icu hash callback d p unset max_frame_depth has_cif free) n
          (some block)
          w
      → Settles
          (λ _ v. Less n v)
          (parse_container storage handlers icu hash callback d p unset max_frame_depth fuel block
            true w)
  block-Less fuel n block w h (inl l) = later n w l λ m i q.
      parse_container-Keeps storage handlers icu hash callback d p unset max_frame_depth free fuel m
        block true w (omega arith) q
  block-Less fuel n block w h (inr (k, f, c)) =
      parse_container-Less storage handlers icu hash callback d p unset max_frame_depth free fuel n
        block w h k f c

  -- The rest of the CIF, which ends where there is less than `n`
  with_block-Holds :
      (fuel n : ℕ) (o : Option (Option Container)) (w : World Store)
      → n < fuel
      → ((m : ℕ) (v : World Store)
          → m < n
          → Keeps m v
          → Settles
              (λ _ x. Keeps 0 x)
              (cif_loop storage handlers icu hash callback d p unset max_frame_depth has_cif fuel
                v))
      → (BlockHolds storage handlers icu hash callback d p unset max_frame_depth has_cif free) n o w
      → Settles
          (λ _ v. Keeps 0 v)
          (with_block storage handlers icu hash callback d p unset max_frame_depth has_cif
            (λ block.
              parse_container storage handlers icu hash callback d p unset max_frame_depth fuel
                block true
              >> cif_loop storage handlers icu hash callback d p unset max_frame_depth has_cif fuel)
            o
            w)
  with_block-Holds fuel n none w h ends q = settled q
  with_block-Holds fuel n (some block) w h ends q =
      Settles-follow _ (block-Less fuel n block w h q)
        λ _ v l. ends (n - 1) v (less v l) (Keeps-below n v l)
    where
      less : (v : World Store) → Less n v → n - 1 < n
      less v (q, l) = omega arith

  cif_loop-Consumes :
      (fuel n : ℕ) (w : World Store)
      → n + 1 < fuel
      → Keeps n w
      → Settles
          (λ _ v. Keeps 0 v)
          (cif_loop storage handlers icu hash callback d p unset max_frame_depth has_cif fuel w)
  unfolding cif_loop
  cif_loop-Consumes zero n w h k = absurd (omega arith)
  cif_loop-Consumes (suc fuel) n w h k =
      Settles-look _ (next-Ended storage handlers icu hash callback d p free n w k) λ v (q, e).
        Settles-follow _
          ((block_step-Holds storage handlers icu hash callback d p unset max_frame_depth has_cif
              free)
            v.scanner.ttype n v refl e q)
          λ o u r.
            with_block-Holds fuel n o u (omega arith)
              (λ m x i s. cif_loop-Consumes fuel m x (omega arith) s) r

  pub parse_cif-Consumes :
      (fuel n : ℕ) (w : World Store)
      → n + 1 < fuel
      → Keeps n w
      → Settles
          (λ _ v. Keeps 0 v)
          (parse_cif storage handlers icu hash callback d p unset max_frame_depth has_cif fuel w)
  unfolding parse_cif
  parse_cif-Consumes fuel n w h k =
      let (flow, st) = handlers.cif_start w.scanner.reports w.store in
      Settles-follow {P = λ _ v. Keeps 0 v} _
        (Settles-follow {Q = λ _ v. Keeps 0 v} _
          (Settles-follow {Q = λ _ v. Keeps 0 v} _
            (Settles-follow {P = λ _ v. Keeps n v} _
              (Settles-directed flow _ _ _ (record w { store = st }) (settled k) (settled k)
                (settled k))
              λ _ v q. cif_loop-Consumes fuel n v h q)
            λ _ v q. settled q)
          λ _ v q. settled q)
        λ flow v q. Settles-directed flow _ _ _ v (settled q) (settled q) (settled q)
