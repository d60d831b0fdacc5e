-- ===== src/Parser/Settles/Loops.antt =====
-- `parse_loop` of src/parser.c ends, with no more input than there was.
use cif_api.Base.{
  ℕ, zero, suc, ◌-◌, ◌<◌, Bool, true, false, Option, none, some, List, [], ◌∷◌, UString,
  if◌then◌else◌, ◌≡◌, ◌⊎◌, refl, ap, arith, inl, inr, Bool-cases,
}
use cif_api.Icu.{Icu}
use cif_api.Hash.{Uthash}
use cif_api.Value.{Value}
use cif_api.Walk.{Flow}
use cif_api.Scanner.Classes.{Dialect}
use cif_api.Scanner.State.{Callback, TokenType, metaclass_of, general_meta, consume_token}
use cif_api.Scanner.Units.{replacement}
use cif_api.Scanner.Decode.{Protocols}
use cif_api.Scanner.Tokens.{tvalue}
use cif_api.Parser.Storage.{Storage, Handlers}
use cif_api.Parser.World.{World, is_skipping, deeper}
use cif_api.Parser.Settles.{
  Settles, settled, halts, Keeps, Same, Filled, Keeps-Same, Keeps-below, Filled-Same,
  Settles-follow, Settles-weaken, Settles-split, Settles-directed, Settles-look, deeper-Same,
  consumed-Less, act-Same,
}
use cif_api.Code.{Code, Result, ok, err, nosuch_item, null_loop, dup_itemname, invalid_itemname}
use cif_api.Parser.Packets.{kept_names}
use cif_api.Parser.Loops.{
  is_name, tell_name, checked_name, header_name, parse_loop_header, made_loop, start_loop,
  open_loop, end_loop, loop_body, parse_loop,
}
use cif_api.Parser.Settles.Values.{next-Tokened}
use cif_api.Parser.Settles.Packets.{parse_loop_packets-Keeps}

pub tell_name-Same :
    {Store : Type 0} (w : World Store)
    → Same w
        (record w { scanner = if is_skipping w.scanner then w.scanner else tell_name w.scanner })
tell_name-Same w = kept (is_skipping w.scanner)
  where
    kept : (b : Bool) → Same w (record w { scanner = if b then w.scanner else tell_name w.scanner })
    kept true = (refl, refl, refl)
    kept false = (refl, refl, refl)

module _ {Store Container Loop : Type 0} (storage : Storage Store Container Loop)
    (handlers : Handlers Store Container Loop) (icu : Icu) (hash : Uthash Value)
    (callback : Callback) (d : Dialect) (p : Protocols) (unset : ℕ → Bool)
    (free : metaclass_of d (replacement d) ≡ general_meta) where
  checked_name-Same :
      (name : UString) (code : Option Code) (w : World Store)
      → Settles
          (λ _ v. Same w v)
          (checked_name storage handlers icu hash callback d p unset name code w)
  unfolding checked_name
  checked_name-Same name none w =
      Settles-follow _ (act-Same callback dup_itemname (λ s. s.column - s.tvalue_length) tvalue w)
        λ _ v s. settled s
  checked_name-Same name (some nosuch_item) w = settled (refl, refl, refl)
  checked_name-Same name (some _) w = halts

  header_name-Same :
      (container : Option Container) (name : UString) (w : World Store)
      → Settles
          (λ _ v. Same w v)
          (header_name storage handlers icu hash callback d p unset container name w)
  header_name-Same none name w = settled (refl, refl, refl)
  header_name-Same (some container) name w =
      let (code, st) = storage.get_item_loop container name w.store in
      Settles-weaken (checked_name-Same name code (record w { store = st })) λ _ v s. s

  name-Filled :
      (w : World Store)
      → (w.scanner.ttype ≡ TokenType.end) ⊎ Filled w
      → is_name w.scanner.ttype ≡ true
      → Filled w
  name-Filled w (inr f) n = f
  name-Filled w (inl e) n = cc (ap is_name e)

  parse_loop_header-Keeps :
      (fuel n : ℕ) (container : Option Container) (w : World Store)
      → n < fuel
      → Keeps n w
      → Settles
          (λ _ v. Keeps n v)
          (parse_loop_header storage handlers icu hash callback d p unset fuel container w)
  unfolding parse_loop_header
  parse_loop_header-Keeps zero n container w h k = absurd (omega arith)
  parse_loop_header-Keeps (suc fuel) n container w h k =
      Settles-look _ (next-Tokened storage handlers icu hash callback d p free n w k) λ v (q, e).
        elim (Bool-cases (is_name v.scanner.ttype)) [
          | inr b ↦ rw b (settled q)
          | inl b ↦
              let f = name-Filled v e b in
              let told = tell_name-Same v in
              let v' = record v {
                scanner = if is_skipping v.scanner then v.scanner else tell_name v.scanner;
              } in
              rw b (
                Settles-follow _ (header_name-Same container (tvalue v.scanner) v') λ name u s.
                  Settles-follow _
                    (Settles-weaken
                      (parse_loop_header-Keeps fuel (n - 1) container
                        (record u { scanner = consume_token u.scanner }) (omega arith)
                        (Keeps-below n (record u { scanner = consume_token u.scanner })
                          (consumed-Less n u (Filled-Same v' u s (Filled-Same v v' told f))
                            (Keeps-Same n v' u s (Keeps-Same n v v' told q)))))
                      λ _ x (g, m). (g, omega arith))
                    λ names x r. settled r)
        ]

  made_loop-Same :
      (r : Result Loop) (w : World Store)
      → Settles (λ _ v. Same w v) (made_loop storage handlers icu hash callback d p unset r w)
  unfolding made_loop
  made_loop-Same (ok loop) w = settled (refl, refl, refl)
  made_loop-Same (err null_loop) w = settled (refl, refl, refl)
  made_loop-Same (err invalid_itemname) w = halts
  made_loop-Same (err dup_itemname) w = halts
  made_loop-Same (err _) w = halts

  start_loop-Same :
      (container : Option Container) (names : List UString) (flow : Flow)
      (category : Option UString) (w : World Store)
      → Settles
          (λ _ v. Same w v)
          (start_loop storage handlers icu hash callback d p unset container names
            (flow, category)
            w)
  unfolding start_loop
  start_loop-Same none names Flow.continue category w = settled (refl, refl, refl)
  start_loop-Same (some container) names Flow.continue category w =
      let (made, st) = storage.create_loop container category names w.store in
      Settles-weaken (made_loop-Same made (record w { store = st })) λ _ v s. s
  start_loop-Same container names Flow.skip_current category w = settled (refl, refl, refl)
  start_loop-Same container names Flow.skip_siblings category w = settled (refl, refl, refl)
  start_loop-Same container names Flow.stop category w = halts
  start_loop-Same container names (Flow.code c) category w = settled (refl, refl, refl)

  open_loop-Same :
      (container : Option Container) (names : List UString) (w : World Store)
      → Settles
          (λ _ v. Same w v)
          (open_loop storage handlers icu hash callback d p unset container names w)
  open_loop-Same container names w =
      let ((flow, category), st) = handlers.loop_start container names w.scanner.reports w.store in
      Settles-split (is_skipping w.scanner) _ _ w (settled (refl, refl, refl)) (
        Settles-weaken (start_loop-Same container names flow category (record w { store = st }))
          λ _ v s. s)

  end_loop-Same :
      (loop : Option Loop) (w : World Store)
      → Settles (λ _ v. Same w v) (end_loop storage handlers icu hash callback d p unset loop w)
  unfolding end_loop
  end_loop-Same loop w =
      let (flow, st) = handlers.loop_end loop w.scanner.reports w.store in
      Settles-split (is_skipping w.scanner) _ _ w (settled (refl, refl, refl)) (
        Settles-directed flow _ _ _ (record w { store = st }) (settled (refl, refl, refl))
          (settled (refl, refl, refl)) (settled (refl, refl, refl)))

  loop_body-Keeps :
      (fuel n : ℕ) (container : Option Container) (names : List (Option UString)) (w : World Store)
      → n < fuel
      → Keeps n w
      → Settles
          (λ _ v. Keeps n v)
          (loop_body storage handlers icu hash callback d p unset fuel container names w)
  unfolding loop_body
  loop_body-Keeps fuel n container [] w h k =
      Settles-follow _ (act-Same callback null_loop (λ s. s.column - s.tvalue_length) (λ s. []) w)
        λ _ v s. settled (Keeps-Same n w v s k)
  loop_body-Keeps fuel n container (name ∷ names) w h k =
      Settles-follow _ (open_loop-Same container (kept_names (name ∷ names)) w) λ loop v s.
        Settles-follow _
          (parse_loop_packets-Keeps storage handlers icu hash callback d p unset free loop
            (name ∷ names) fuel n v h (Keeps-Same n w v s k))
          λ _ u q. settled q

  pub parse_loop-Keeps :
      (fuel n : ℕ) (container : Option Container) (w : World Store)
      → n < fuel
      → Keeps n w
      → Settles
          (λ _ v. Keeps n v)
          (parse_loop storage handlers icu hash callback d p unset fuel container w)
  unfolding parse_loop
  parse_loop-Keeps fuel n container w h k =
      Settles-follow _
        (parse_loop_header-Keeps fuel n container (record w { scanner = deeper w.scanner }) h
          (Keeps-Same n w (record w { scanner = deeper w.scanner }) (deeper-Same w) k))
        λ names v q.
          Settles-follow _ (loop_body-Keeps fuel n container names v h q)
            λ loop u r. Settles-weaken (end_loop-Same loop u) λ _ x s. Keeps-Same n u x s r
