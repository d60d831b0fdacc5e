-- ===== src/Parser/Settles/Containers.antt =====
-- `parse_container` of src/parser.c ends, with no more input than there was; where its first token is
-- neither the head of a block nor the end of the input, that token is consumed.
use cif_api.Base.{
  ℕ, zero, suc, ◌<◌, Bool, true, false, Option, none, some, if◌then◌else◌, ◌≡◌, refl, subst, arith,
  inr,
}
use cif_api.Icu.{Icu}
use cif_api.Hash.{Uthash}
use cif_api.Value.{Value, ℤ}
use cif_api.Scanner.Classes.{Dialect}
use cif_api.Scanner.State.{Callback, TokenType, metaclass_of, general_meta}
use cif_api.Scanner.Units.{replacement}
use cif_api.Scanner.Decode.{Protocols}
use cif_api.Parser.Storage.{Storage, Handlers}
use cif_api.Parser.World.{World, Step, ◌>>◌, pure, is_skipping, higher}
use cif_api.Parser.Settles.{
  Settles, settled, Keeps, Less, Same, Filled, Keeps-Same, Less-Same, Keeps-Less, Filled-Same,
  Settles-follow, Settles-weaken, Settles-split, Settles-directed, of_code-Same, Settles-look,
  deeper-Same,
}
use cif_api.Parser.Containers.{
  enter_container, prune, leave_container, container_loop, parse_container,
}
use cif_api.Parser.Settles.Values.{next-Tokened, next-Filled}
use cif_api.Parser.Settles.Frames.{Closes, StepHolds}
use cif_api.Parser.Settles.Strays.{later}
use cif_api.Parser.Settles.Switch.{container_step-Holds}

module _ {Store Container Loop : Type 0} (storage : Storage Store Container Loop)
    (handlers : Handlers Store Container Loop) (icu : Icu) (hash : Uthash Value)
    (callback : Callback) (d : Dialect) (p : Protocols) (unset : ℕ → Bool) (max_frame_depth : ℤ)
    (free : metaclass_of d (replacement d) ≡ general_meta) where
  enter_container-Same :
      (container : Option Container) (b : Bool) (w : World Store)
      → Settles
          (λ _ v. Same w v)
          (enter_container storage handlers icu hash callback d p unset max_frame_depth container b
            w)
  unfolding enter_container
  enter_container-Same container b w =
      let (flow, st) = handlers.container_start b container w.scanner.reports w.store in
      Settles-split (is_skipping w.scanner) _ _ w (settled (deeper-Same w)) (
        Settles-directed flow _ _ _ (record w { store = st }) (settled (refl, refl, refl))
          (settled (refl, refl, refl)) (settled (refl, refl, refl)))

  prune-Same :
      (container : Option Container) (w : World Store)
      → Settles
          (λ _ v. Same w v)
          (prune storage handlers icu hash callback d p unset max_frame_depth container w)
  prune-Same none w = settled (refl, refl, refl)
  prune-Same (some container) w =
      let (code, st) = storage.prune container w.store in
      Settles-weaken (of_code-Same code (record w { store = st })) λ _ v s. s

  leave_container-Same :
      (container : Option Container) (b : Bool) (w : World Store)
      → Settles
          (λ _ v. Same w v)
          (leave_container storage handlers icu hash callback d p unset max_frame_depth container b
            w)
  unfolding leave_container
  leave_container-Same container b w =
      let w' = record w { scanner = higher w.scanner } in
      Settles-split (is_skipping w'.scanner) _ _ w' (settled (refl, refl, refl)) (
        Settles-follow _
          (Settles-follow {Q = λ _ u. Same w' u} _ (prune-Same container w') λ _ v s. settled s)
          λ flow v s. Settles-directed flow _ _ _ v (settled s) (settled s) (settled s))

  -- storage handlers icu hash callback d p unset max_frame_depth container around its loop
  contained :
      (P Q : World Store → Type 0) (body : Step Store (Unit {0})) (container : Option Container)
      (b : Bool) (w : World Store)
      → ((v : World Store) → Same w v → P v)
      → ((u v : World Store) → Same u v → Q u → Q v)
      → ((v : World Store) → P v → Settles (λ _ u. Q u) (body v))
      → Settles
          (λ _ u. Q u)
          ((enter_container storage handlers icu hash callback d p unset max_frame_depth container b
              >> body
              >> leave_container storage handlers icu hash callback d p unset max_frame_depth
                  container b)
            w)
  contained P Q body container b w start keep h =
      Settles-follow _
        (Settles-follow _ (enter_container-Same container b w) λ _ v s. h v (start v s))
        λ _ u q. Settles-weaken (leave_container-Same container b u) λ _ x s. keep u x s q

  -- storage handlers icu hash callback d p unset max_frame_depth container inside, behind its head
  inner :
      (fuel n : ℕ) (frame : Option Container) (w : World Store)
      → ((m : ℕ) (v : World Store)
          → m < n
          → Keeps m v
          → Settles
              (λ _ u. Keeps m u)
              (container_loop storage handlers icu hash callback d p unset max_frame_depth fuel
                frame false v))
      → Less n w
      → Settles
          (λ _ v. Less n v)
          ((enter_container storage handlers icu hash callback d p unset max_frame_depth frame false
              >> container_loop storage handlers icu hash callback d p unset max_frame_depth fuel
                  frame false
              >> leave_container storage handlers icu hash callback d p unset max_frame_depth frame
                  false)
            w)
  inner fuel n frame w ends l = later n w l λ m k q.
      contained (Keeps m) (Keeps m)
        (container_loop storage handlers icu hash callback d p unset max_frame_depth fuel frame
          false)
        frame false w (λ v s. Keeps-Same m w v s q) (Keeps-Same m) λ v r. ends m v k r

  -- The rounds behind one
  rounds :
      (n : ℕ) (b : Bool) (t : TokenType) (rest : Step Store (Unit {0})) (more : Bool)
      (u : World Store)
      → ((m : ℕ) (v : World Store) → m < n → Keeps m v → Settles (λ _ x. Keeps m x) (rest v))
      → StepHolds n b t more u
      → Settles (λ _ x. Keeps n x) ((if more then rest else pure tt) u)
  rounds n b t rest true u ends l =
      Settles-weaken (later n u l λ m i q. ends m u i q) λ _ x q. Keeps-Less n x q
  rounds n b t rest false u ends (q, c) = settled q

  container_loop-Keeps :
      (fuel n : ℕ) (container : Option Container) (b : Bool) (w : World Store)
      → n < fuel
      → Keeps n w
      → Settles
          (λ _ v. Keeps n v)
          (container_loop storage handlers icu hash callback d p unset max_frame_depth fuel
            container b w)
  unfolding container_loop
  container_loop-Keeps zero n container b w h k = absurd (omega arith)
  container_loop-Keeps (suc fuel) n container b w h k =
      Settles-look _ (next-Tokened storage handlers icu hash callback d p free n w k) λ v (q, e).
        Settles-follow _
          (container_step-Holds storage handlers icu hash callback d p unset max_frame_depth free n
            _
            (λ frame u.
              inner fuel n frame u
                (λ m x i. container_loop-Keeps fuel m frame false x (omega arith)))
            b container v e q)
          λ more u r.
            rounds n b v.scanner.ttype
              (container_loop storage handlers icu hash callback d p unset max_frame_depth fuel
                container b)
              more u (λ m x i. container_loop-Keeps fuel m container b x (omega arith)) r

  container_loop-Less :
      (fuel n : ℕ) (container : Option Container) (w : World Store)
      → n < fuel
      → Keeps n w
      → Filled w
      → (Closes true w.scanner.ttype → ⊥)
      → Settles
          (λ _ v. Less n v)
          (container_loop storage handlers icu hash callback d p unset max_frame_depth fuel
            container true w)
  unfolding container_loop
  container_loop-Less zero n container w h k f c = absurd (omega arith)
  container_loop-Less (suc fuel) n container w h k f c =
      rw (next-Filled storage handlers icu hash callback d p free w f) (
        Settles-follow _
          (container_step-Holds storage handlers icu hash callback d p unset max_frame_depth free n
            _
            (λ frame u.
              inner fuel n frame u
                (λ m x i. container_loop-Keeps fuel m frame false x (omega arith)))
            true container w (inr f) k)
          λ more u r. rest more u r)
    where
      rest :
          (more : Bool) (u : World Store)
          → StepHolds n true w.scanner.ttype more u
          → Settles
              (λ _ x. Less n x)
              ((if more
                  then container_loop storage handlers icu hash callback d p unset max_frame_depth
                      fuel container true
                  else pure tt)
                u)
      rest true u l =
          later n u l λ m i q. container_loop-Keeps fuel m container true u (omega arith) q
      rest false u (q, x) = absurd (c x)

  pub parse_container-Keeps :
      (fuel n : ℕ) (container : Option Container) (b : Bool) (w : World Store)
      → n < fuel
      → Keeps n w
      → Settles
          (λ _ v. Keeps n v)
          (parse_container storage handlers icu hash callback d p unset max_frame_depth fuel
            container b w)
  unfolding parse_container
  parse_container-Keeps fuel n container b w h k =
      contained (Keeps n) (Keeps n)
        (container_loop storage handlers icu hash callback d p unset max_frame_depth fuel container
          b)
        container b w (λ v s. Keeps-Same n w v s k) (Keeps-Same n)
        λ v r. container_loop-Keeps fuel n container b v h r

  pub parse_container-Less :
      (fuel n : ℕ) (container : Option Container) (w : World Store)
      → n < fuel
      → Keeps n w
      → Filled w
      → (Closes true w.scanner.ttype → ⊥)
      → Settles
          (λ _ v. Less n v)
          (parse_container storage handlers icu hash callback d p unset max_frame_depth fuel
            container true w)
  unfolding parse_container
  parse_container-Less fuel n container w h k f c =
      contained (λ v. (v.scanner.ttype ≡ w.scanner.ttype) × Filled v × Keeps n v) (Less n)
        (container_loop storage handlers icu hash callback d p unset max_frame_depth fuel container
          true)
        container true w (λ v s. (s.1, Filled-Same w v s f, Keeps-Same n w v s k)) (Less-Same n)
        λ v (t, g, r). container_loop-Less fuel n container v h r g λ x. c (subst (Closes true) t x)
