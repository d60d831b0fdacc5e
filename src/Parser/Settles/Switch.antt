-- ===== src/Parser/Settles/Switch.antt =====
-- The switch of `parse_container` in src/parser.c: a container that goes on has consumed something.
use cif_api.Base.{
  ℕ, ◌-◌, Bool, true, false, Option, [], length, if◌then◌else◌, ◌≡◌, ◌⊎◌, refl, sym, subst, inl,
  inr,
}
use cif_api.Icu.{Icu}
use cif_api.Hash.{Uthash}
use cif_api.Value.{Value, ℤ}
use cif_api.Scanner.Classes.{Dialect}
use cif_api.Scanner.State.{Callback, TokenType, raise, metaclass_of, general_meta, consume_token}
use cif_api.Scanner.Units.{replacement}
use cif_api.Scanner.Decode.{Protocols}
use cif_api.Scanner.Tokens.{tvalue}
use cif_api.Parser.Storage.{Storage, Handlers}
use cif_api.Parser.World.{World, Step, ◌>>◌, pure, act, is_skipping, raise_token}
use cif_api.Parser.Settles.{
  Settles, settled, halts, Keeps, Less, Same, Filled, Keeps-Same, Less-Same, Keeps-Less,
  Filled-Same, Settles-follow, consumed-Less, act-Same,
}
use cif_api.Code.{unexpected_term, no_frame_term, eof_in_frame}
use cif_api.Scanner.Tokens.Progress.{Fitting}
use cif_api.Parser.Containers.{tell_keyword, container_step}
use cif_api.Parser.Settles.Values.{StartsValue}
use cif_api.Parser.Settles.Frames.{Closes, StepHolds, frame_step-Holds}
use cif_api.Parser.Settles.Strays.{name_step-Less, stray_key, stray_value-Less, dropped, looped}

tell_keyword-Same :
    {Store : Type 0} (w : World Store)
    → Same w
        (record w { scanner = if is_skipping w.scanner then w.scanner else tell_keyword w.scanner })
tell_keyword-Same w = kept (is_skipping w.scanner)
  where
    kept :
        (b : Bool) → Same w (record w { scanner = if b then w.scanner else tell_keyword w.scanner })
    kept true = (refl, refl, refl)
    kept false = (refl, refl, refl)

module _ {Store Container Loop : Type 0} (storage : Storage Store Container Loop)
    (handlers : Handlers Store Container Loop) (icu : Icu) (hash : Uthash Value)
    (callback : Callback) (d : Dialect) (p : Protocols) (unset : ℕ → Bool) (max_frame_depth : ℤ)
    (free : metaclass_of d (replacement d) ≡ general_meta) where
  key-Fitting :
      (n : ℕ) (t : TokenType) (w : World Store)
      → w.scanner.ttype ≡ t
      → Filled w
      → Keeps n w
      → Fitting t (length w.scanner.back)
  key-Fitting n t w e f (q, l) = subst (λ u. Fitting u (length w.scanner.back)) e ((q f).1)

  starts :
      (t : TokenType) (w : World Store)
      → w.scanner.ttype ≡ t
      → StartsValue t
      → StartsValue w.scanner.ttype
  starts t w e x = subst StartsValue (sym e) x

  -- The block or the frame is over.
  over :
      (n : ℕ) (b : Bool) (t : TokenType) (told : Step Store (Unit {0})) (w : World Store)
      → Closes b t
      → Keeps n w
      → Settles (λ _ v. Same w v) (told w)
      → Settles (StepHolds n b t) ((told >> pure false) w)
  over n b t told w c k h = Settles-follow _ h λ _ v s. settled (Keeps-Same n w v s k, c)

  module _ (n : ℕ) (nested : Option Container → Step Store (Unit {0}))
      (ends : (frame : Option Container) (w : World Store)
        → Less n w
        → Settles (λ _ v. Less n v) (nested frame w)) where
    end_step :
        (b : Bool) (container : Option Container) (w : World Store)
        → Keeps n w
        → Settles (StepHolds n b TokenType.end) (
            container_step storage handlers icu hash callback d p unset max_frame_depth nested
              container b TokenType.end w)
    unfolding container_step
    end_step true container w k =
        over n true TokenType.end (pure tt) w tt k (settled (refl, refl, refl))
    end_step false container w k =
        over n false TokenType.end (act (λ s. raise callback eof_in_frame s.column [] s)) w tt k
          (act-Same callback eof_in_frame (λ s. s.column) (λ s. []) w)

    container_step-Filled :
        (b : Bool) (container : Option Container) (t : TokenType) (w : World Store)
        → w.scanner.ttype ≡ t
        → Filled w
        → Keeps n w
        → Settles (StepHolds n b t) (
            container_step storage handlers icu hash callback d p unset max_frame_depth nested
              container b t w)
    unfolding container_step
    container_step-Filled true container TokenType.block_head w e f k =
        over n true TokenType.block_head (pure tt) w tt k (settled (refl, refl, refl))
    container_step-Filled false container TokenType.block_head w e f k =
        over n false TokenType.block_head (raise_token callback d no_frame_term) w tt k
          (act-Same callback no_frame_term (λ s. s.column - s.tvalue_length) tvalue w)
    container_step-Filled b container TokenType.frame_head w e f k =
        frame_step-Holds storage handlers icu hash callback d p unset max_frame_depth free n nested
          ends b container w f k
    container_step-Filled true container TokenType.frame_term w e f k =
        let v = record w { scanner = consume_token w.scanner } in
        Settles-follow _
          (act-Same callback unexpected_term (λ s. s.column - s.tvalue_length) tvalue v)
          λ _ u s. settled (Less-Same n v u s (consumed-Less n w f k))
    container_step-Filled false container TokenType.frame_term w e f k =
        settled (
          Keeps-Less n (record w { scanner = consume_token w.scanner }) (consumed-Less n w f k),
          tt,
        )
    container_step-Filled b container TokenType.loopkw w e f k =
        let v = record w {
          scanner = if is_skipping w.scanner then w.scanner else tell_keyword w.scanner;
        } in
        let s = tell_keyword-Same w in
        Settles-follow _
          (looped storage handlers icu hash callback d p unset max_frame_depth free n container
            (record v { scanner = consume_token v.scanner })
            (consumed-Less n v (Filled-Same w v s f) (Keeps-Same n w v s k)))
          λ _ u q. settled q
    container_step-Filled b container TokenType.name w e f k =
        Settles-follow _
          (name_step-Less storage handlers icu hash callback d p unset max_frame_depth free n
            container w f k)
          λ _ v q. settled q
    container_step-Filled b container TokenType.tkey w e f k =
        stray_key storage handlers icu hash callback d p unset max_frame_depth free n b
          TokenType.tkey TokenType.tvalue container w tt tt (key-Fitting n TokenType.tkey w e f k) k
    container_step-Filled b container TokenType.key w e f k =
        stray_key storage handlers icu hash callback d p unset max_frame_depth free n b
          TokenType.key TokenType.qvalue container w tt tt (key-Fitting n TokenType.key w e f k) k
    container_step-Filled b container TokenType.tvalue w e f k =
        stray_value-Less storage handlers icu hash callback d p unset max_frame_depth free n b
          TokenType.tvalue container w (starts TokenType.tvalue w e tt) f k
    container_step-Filled b container TokenType.qvalue w e f k =
        stray_value-Less storage handlers icu hash callback d p unset max_frame_depth free n b
          TokenType.qvalue container w (starts TokenType.qvalue w e tt) f k
    container_step-Filled b container TokenType.value w e f k =
        stray_value-Less storage handlers icu hash callback d p unset max_frame_depth free n b
          TokenType.value container w (starts TokenType.value w e tt) f k
    container_step-Filled b container TokenType.olist w e f k =
        stray_value-Less storage handlers icu hash callback d p unset max_frame_depth free n b
          TokenType.olist container w (starts TokenType.olist w e tt) f k
    container_step-Filled b container TokenType.otable w e f k =
        stray_value-Less storage handlers icu hash callback d p unset max_frame_depth free n b
          TokenType.otable container w (starts TokenType.otable w e tt) f k
    container_step-Filled b container TokenType.ctable w e f k =
        dropped storage handlers icu hash callback d p unset max_frame_depth free n b
          TokenType.ctable w f k
    container_step-Filled b container TokenType.clist w e f k =
        dropped storage handlers icu hash callback d p unset max_frame_depth free n b
          TokenType.clist w f k
    container_step-Filled b container TokenType.end w e f k = end_step b container w k
    container_step-Filled b container TokenType.error w e f k = halts

    pub container_step-Holds :
        (b : Bool) (container : Option Container) (w : World Store)
        → (w.scanner.ttype ≡ TokenType.end) ⊎ Filled w
        → Keeps n w
        → Settles (StepHolds n b w.scanner.ttype) (
            container_step storage handlers icu hash callback d p unset max_frame_depth nested
              container b w.scanner.ttype w)
    container_step-Holds b container w (inl e) k =
        subst
          (λ t. Settles (StepHolds n b t) (
            container_step storage handlers icu hash callback d p unset max_frame_depth nested
              container b t w))
          (sym e) (end_step b container w k)
    container_step-Holds b container w (inr f) k =
        container_step-Filled b container w.scanner.ttype w refl f k
