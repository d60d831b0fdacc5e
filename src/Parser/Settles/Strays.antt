-- ===== src/Parser/Settles/Strays.antt =====
-- Items, loops and values in a container of src/parser.c: what the cases of `parse_container` do with
-- the input.
use cif_api.Base.{
  ℕ, ◌+◌, ◌-◌, ◌≤◌, ◌<◌, Bool, true, Option, none, some, [], UString, length, ◌≡◌, refl, sym, ap,
  subst, arith,
}
use cif_api.Icu.{Icu}
use cif_api.Hash.{Uthash}
use cif_api.Value.{Value, ℤ}
use cif_api.Scanner.Classes.{Dialect}
use cif_api.Scanner.State.{Callback, TokenType, metaclass_of, general_meta, consume_token}
use cif_api.Scanner.Units.{replacement}
use cif_api.Scanner.Decode.{Protocols}
use cif_api.Scanner.Tokens.{tvalue}
use cif_api.Parser.Storage.{Storage, Handlers}
use cif_api.Parser.World.{
  World, Outcome, ◌>>◌, pure, update, is_skipping, raise_token, raise_colon, push_back_colon,
}
use cif_api.Parser.Settles.{
  Settles, settled, halts, Keeps, Less, Same, Filled, Keeps-Same, Keeps-below, Filled-Same,
  Settles-follow, Settles-weaken, Settles-split, consumed-Less, act-Same,
}
use cif_api.Code.{
  nosuch_item, dup_itemname, missing_space, unexpected_value, unexpected_delim, Code,
}
use cif_api.Scanner.Tokens.Scans.{length-behind}
use cif_api.Parser.Steps.Progress.{IsDelimited, delimited-Usable}
use cif_api.Parser.Loops.{tell_name}
use cif_api.Parser.Containers.{a_loop, checked_item, find_item, name_step, stray_value}
use cif_api.Parser.Settles.Items.{parse_item-Keeps, parse_item-Less}
use cif_api.Parser.Settles.Values.{StartsValue}
use cif_api.Parser.Settles.Loops.{parse_loop-Keeps}
use cif_api.Parser.Settles.Frames.{StepHolds}

-- What adds nothing to the input leaves it shorter if it was.
pub later :
    {Store B : Type 0} {o : Option (Outcome Store B)} (n : ℕ) (w : World Store)
    → Less n w
    → ((m : ℕ) → m < n → Keeps m w → Settles (λ _ v. Keeps m v) o)
    → Settles (λ _ v. Less n v) o
later n w (q, l) k =
    Settles-weaken (k (n - 1) (omega arith) (Keeps-below n w (q, l))) λ _ v (g, m). (g, omega arith)

module _ {Store Container Loop : Type 0} (storage : Storage Store Container Loop)
    (handlers : Handlers Store Container Loop) (icu : Icu) (hash : Uthash Value)
    (callback : Callback) (d : Dialect) (p : Protocols) (unset : ℕ → Bool) (max_frame_depth : ℤ)
    (free : metaclass_of d (replacement d) ≡ general_meta) where
  checked_item-Keeps :
      (n : ℕ) (container : Option Container) (name : UString) (code : Option Code) (w : World Store)
      → Keeps n w
      → Settles
          (λ _ v. Keeps n v)
          (checked_item storage handlers icu hash callback d p unset max_frame_depth container name
            code w)
  unfolding checked_item
  checked_item-Keeps n container name none w k =
      Settles-follow _ (act-Same callback dup_itemname (λ s. s.column - s.tvalue_length) tvalue w)
        λ _ v s.
          parse_item-Keeps storage handlers icu hash callback d p free container none n v
            (Keeps-Same n w v s k)
  checked_item-Keeps n container name (some nosuch_item) w k =
      parse_item-Keeps storage handlers icu hash callback d p free container (some name) n w k
  checked_item-Keeps n container name (some _) w k = halts

  find_item-Same :
      (container : Option Container) (name : UString) (w : World Store)
      → Settles
          (λ _ v. Same w v)
          (find_item storage handlers icu hash callback d p unset max_frame_depth container name w)
  find_item-Same none name w = settled (refl, refl, refl)
  find_item-Same (some container) name w = settled (refl, refl, refl)

  pub name_step-Less :
      (n : ℕ) (container : Option Container) (w : World Store)
      → Filled w
      → Keeps n w
      → Settles
          (λ _ v. Less n v)
          (name_step storage handlers icu hash callback d p unset max_frame_depth container w)
  unfolding name_step
  name_step-Less n container w f k =
      let w' = record w { scanner = consume_token w.scanner } in
      let told = record w { scanner = consume_token (tell_name w.scanner) } in
      Settles-split (is_skipping w.scanner) _ _ w
        (later n w' (consumed-Less n w f k)
          λ m l. parse_item-Keeps storage handlers icu hash callback d p free container none m w')
        (later n told (consumed-Less n w f k) λ m l q.
          Settles-follow _ (find_item-Same container (tvalue w.scanner) told) λ code v s.
            checked_item-Keeps m container (tvalue w.scanner) code v (Keeps-Same m told v s q))

  pub stray_value-Less :
      (n : ℕ) (b : Bool) (t : TokenType) (container : Option Container) (w : World Store)
      → StartsValue w.scanner.ttype
      → Filled w
      → Keeps n w
      → Settles
          (StepHolds n b t)
          (stray_value storage handlers icu hash callback d p unset max_frame_depth container w)
  unfolding stray_value
  stray_value-Less n b t container w x f k =
      Settles-follow _
        (Settles-follow _
          (act-Same callback unexpected_value (λ s. 1 + s.column - s.tvalue_length) tvalue w)
          λ _ v s.
            parse_item-Less storage handlers icu hash callback d p free container none n v
              (Keeps-Same n w v s k) (Filled-Same w v s f) (subst StartsValue (sym s.1) x))
        λ _ v q. settled q

  -- storage handlers icu hash callback d p unset max_frame_depth key without its table: the token without its colon is not empty.
  colon_pushed :
      (n : ℕ) (alt : TokenType) (w : World Store)
      → IsDelimited alt
      → StartsValue alt
      → 2 ≤ length w.scanner.back
      → Keeps n w
      → Settles
          (λ _ v. StartsValue v.scanner.ttype × Filled v × Keeps n v)
          (push_back_colon callback d alt w)
  colon_pushed n alt w a x f (q, l) =
      let r = length-behind w.scanner.back in
      settled (x, omega arith, ((λ _. delimited-Usable alt _ a), omega arith))

  pub stray_key :
      (n : ℕ) (b : Bool) (t alt : TokenType) (container : Option Container) (w : World Store)
      → IsDelimited alt
      → StartsValue alt
      → 2 ≤ length w.scanner.back
      → Keeps n w
      → Settles (StepHolds n b t) (
          (raise_colon callback d
              >> push_back_colon callback d alt
              >> stray_value storage handlers icu hash callback d p unset max_frame_depth container)
            w)
  stray_key n b t alt container w a x f k =
      Settles-follow _
        (Settles-follow _ (act-Same callback missing_space (λ s. s.column - 1) (λ s. []) w) λ _ v s.
          colon_pushed n alt v a x (subst (λ m. 2 ≤ m) (sym (ap length s.0)) f)
            (Keeps-Same n w v s k))
        λ _ v (y, g, q). stray_value-Less n b t container v y g q

  pub dropped :
      (n : ℕ) (b : Bool) (t : TokenType) (w : World Store)
      → Filled w
      → Keeps n w
      → Settles
          (StepHolds n b t)
          ((raise_token callback d unexpected_delim >> update consume_token >> pure true) w)
  dropped n b t w f k =
      Settles-follow _
        (Settles-follow _
          (act-Same callback unexpected_delim (λ s. s.column - s.tvalue_length) tvalue w)
          λ _ v s. settled (consumed-Less n v (Filled-Same w v s f) (Keeps-Same n w v s k)))
        λ _ v q. settled q

  -- The loop that follows its keyword
  pub looped :
      (n : ℕ) (container : Option Container) (w : World Store)
      → Less n w
      → Settles
          (λ _ v. Less n v)
          (a_loop storage handlers icu hash callback d p unset max_frame_depth container w)
  looped n container w (q, l) =
      let m = length w.scanner.back + length w.input in
      Settles-weaken
        (parse_loop-Keeps storage handlers icu hash callback d p unset free (m + 1) m container w
          (omega arith) (q, omega arith))
        λ _ v (g, k). (g, omega arith)
