-- ===== src/Parser/Settles/Frames.antt =====
-- Save frames in src/parser.c: what the head of a frame does with the input.
use cif_api.Base.{
  ℕ, ◌-◌, Bool, true, false, ◌&&◌, Option, none, some, ◌∷◌, UString, ◌≡◌, refl, inl, inr,
  Bool-cases,
}
use cif_api.Icu.{Icu}
use cif_api.Hash.{Uthash}
use cif_api.Value.{Value, ℤ}
use cif_api.Scanner.Classes.{Dialect}
use cif_api.Scanner.State.{fault, Callback, TokenType, metaclass_of, general_meta, consume_token}
use cif_api.Scanner.Units.{replacement}
use cif_api.Scanner.Decode.{Protocols}
use cif_api.Scanner.Tokens.{tvalue}
use cif_api.Parser.Storage.{Storage, Handlers}
use cif_api.Parser.World.{World, Step, ◌>>◌, pure, is_skipping, raise_token}
use cif_api.Parser.Settles.{
  Settles, settled, halts, Keeps, Less, Same, Filled, Keeps-Same, Filled-Same, Settles-follow,
  Settles-weaken, Settles-split, of_result-Same, consumed-Less, act-Same, Same-trans,
}
use cif_api.Code.{
  invalid_framecode, dup_framecode, no_frame_term, frame_not_allowed, Result, ok, err, Code,
}
use cif_api.Parser.Containers.{
  no_frames, one_level, made_frame, open_frame, new_frame, report_frame, enter_frame, frame_step,
}

-- Whether a container may end at a token that it does not consume: a frame at any, a block at the
-- head of the next block and at the end of the input
abbrev pub Closes : Bool → TokenType → Type 0
Closes false t = Unit
Closes true TokenType.block_head = Unit
Closes true TokenType.end = Unit
Closes true _ = ⊥

module _ {Store : Type 0} where
  -- A container that goes on has consumed something.
  abbrev pub StepHolds : ℕ → Bool → TokenType → Bool → World Store → Type 0
  StepHolds n b t true v = Less n v
  StepHolds n b t false v = Keeps n v × Closes b t

module _ {Store Container Loop : Type 0} (storage : Storage Store Container Loop)
    (handlers : Handlers Store Container Loop) (icu : Icu) (hash : Uthash Value)
    (callback : Callback) (d : Dialect) (p : Protocols) (unset : ℕ → Bool) (max_frame_depth : ℤ)
    (free : metaclass_of d (replacement d) ≡ general_meta) where
  made_frame-Same :
      (container : Container) (code : UString) (r : Result Container) (w : World Store)
      → Settles
          (λ _ v. Same w v)
          (made_frame storage handlers icu hash callback d p unset max_frame_depth container code r
            w)
  unfolding made_frame
  made_frame-Same container code (ok frame) w = settled (refl, refl, refl)
  made_frame-Same container code (err dup_framecode) w =
      Settles-follow _ (act-Same callback dup_framecode (λ s. s.column - s.tvalue_length) tvalue w)
        λ _ v s.
          let (r, st) = storage.get_frame container code v.store in
          Settles-weaken (of_result-Same r (record v { store = st })) λ _ u t. Same-trans w v u s t
  made_frame-Same container code (err _) w = halts

  open_frame-Same :
      (container : Container) (code : UString) (r : Result Container) (w : World Store)
      → Settles
          (λ _ v. Same w v)
          (open_frame storage handlers icu hash callback d p unset max_frame_depth container code r
            w)
  unfolding open_frame
  open_frame-Same container code (err invalid_framecode) w =
      Settles-follow _
        (act-Same callback invalid_framecode (λ s. s.column - s.tvalue_length) tvalue w)
        λ _ v s.
          let (r, st) = storage.create_frame container code true v.store in
          Settles-weaken (made_frame-Same container code r (record v { store = st }))
            λ _ u t. Same-trans w v u s t
  open_frame-Same container code (ok frame) w = made_frame-Same container code (ok frame) w
  open_frame-Same container code (err dup_framecode) w =
      made_frame-Same container code (err dup_framecode) w
  open_frame-Same container code (err _) w = halts

  new_frame-Same :
      (container : Container) (w : World Store)
      → Settles
          (λ _ v. Same w v)
          (new_frame storage handlers icu hash callback d p unset max_frame_depth container w)
  unfolding new_frame
  new_frame-Same container w =
      let (r, st) = storage.create_frame container (tvalue w.scanner) false w.store in
      Settles-follow _ (open_frame-Same container (tvalue w.scanner) r (record w { store = st }))
        λ frame v s. settled s

  module _ (n : ℕ) (nested : Option Container → Step Store (Unit {0}))
      (ends : (frame : Option Container) (w : World Store)
        → Less n w
        → Settles (λ _ v. Less n v) (nested frame w)) where
    entered :
        (b : Bool) (opened : Step Store (Option Container)) (w : World Store)
        → Filled w
        → Keeps n w
        → Settles (λ _ v. Same w v) (opened w)
        → Settles (StepHolds n b TokenType.frame_head) (
            enter_frame storage handlers icu hash callback d p unset max_frame_depth nested opened
              w)
    entered b opened w f k o = Settles-follow _ o λ frame v s.
        Settles-follow _
          (ends frame (record v { scanner = consume_token v.scanner })
            (consumed-Less n v (Filled-Same w v s f) (Keeps-Same n w v s k)))
          λ _ u q. settled q

    -- A frame that is stored
    stored :
        (b : Bool) (container : Container) (w : World Store)
        → Filled w
        → Keeps n w
        → Settles (StepHolds n b TokenType.frame_head) (
            enter_frame storage handlers icu hash callback d p unset max_frame_depth nested
              (new_frame storage handlers icu hash callback d p unset max_frame_depth container)
              w)
    stored b container w f k =
        entered b (new_frame storage handlers icu hash callback d p unset max_frame_depth container)
          w f k (new_frame-Same container w)

    -- Behind the report of a frame in a block that may have none
    abbrev reported : World Store → World Store
    reported w = record w {
      scanner = record w.scanner {
        reports =
            fault frame_not_allowed w.scanner.line (w.scanner.column - w.scanner.tvalue_length)
              (tvalue w.scanner)
            ∷ w.scanner.reports;
      };
    }

    -- The frame around ends at the head.
    refused :
        (code : Code) (w : World Store)
        → Keeps n w
        → Settles
            (StepHolds n false TokenType.frame_head)
            ((raise_token callback d code >> pure false) w)
    refused code w k =
        Settles-follow _ (act-Same callback code (λ s. s.column - s.tvalue_length) tvalue w)
          λ _ v s. settled (Keeps-Same n w v s k, tt)

    pub frame_step-Holds :
        (b : Bool) (container : Option Container) (w : World Store)
        → Filled w
        → Keeps n w
        → Settles (StepHolds n b TokenType.frame_head) (
            frame_step storage handlers icu hash callback d p unset max_frame_depth nested container
              b w)
    unfolding frame_step
    frame_step-Holds b none w f k = entered b (pure none) w f k (settled (refl, refl, refl))
    frame_step-Holds true (some container) w f k =
        Settles-split (is_skipping w.scanner) _ _ w
          (entered true (pure none) w f k (settled (refl, refl, refl)))
          (Settles-split (no_frames max_frame_depth) _ _ w
            (entered true
              (report_frame storage handlers icu hash callback d p unset max_frame_depth
                >> new_frame storage handlers icu hash callback d p unset max_frame_depth container)
              w f k (Settles-weaken (new_frame-Same container (reported w)) λ _ v s. s))
            (elim (Bool-cases (one_level max_frame_depth)) [
              | inl e ↦ rw e (stored true container w f k)
              | inr e ↦ rw e (stored true container w f k)
            ]))
    frame_step-Holds false (some container) w f k =
        Settles-split (is_skipping w.scanner) _ _ w
          (entered false (pure none) w f k (settled (refl, refl, refl)))
          (Settles-split (no_frames max_frame_depth) _ _ w (refused frame_not_allowed w k) (
            Settles-split (one_level max_frame_depth && true) _ _ w (refused no_frame_term w k)
              (stored false container w f k)))
