-- ===== src/Parser/Quiet.antt =====
-- Steps of the parser of src/parser.c that leave the storage as it is.
pub mod Packets
pub mod Items
pub mod Loops
pub mod Containers
pub mod Checks
use cif_api.Base.{
  ℕ, zero, suc, ◌+◌, ◌-◌, ◌*◌, Bool, true, false, Option, none, some, List, [], ◌∷◌, UString,
  length, if◌then◌else◌, ◌≡◌, refl, sym, ap, ◌∙◌, subst,
}
use cif_api.Code.{Code, Result, ok, err, missing_space, missing_value}
use cif_api.Icu.{Icu}
use cif_api.Hash.{Uthash}
use cif_api.Value.{Value, unk}
use cif_api.Map.{CifMap}
use cif_api.Walk.{Flow}
use cif_api.Scanner.Classes.{Dialect}
use cif_api.Scanner.State.{Scanner, Callback, Report, TokenType, raise}
use cif_api.Scanner.Tokens.{next_token, tvalue}
use cif_api.Scanner.Decode.{Protocols}
use cif_api.Parser.Run.{Run}
use cif_api.Parser.Values.{Parsed, parse_value}
use cif_api.Parser.Storage.{Storage, Handlers}
use cif_api.Parser.World.{
  World, Stop, ended, failed, Outcome, halted, going, Step, ◌>>=◌, ◌>>◌, follow, pure, halt,
  exhausted, of_result, of_code, look, update, set_scanner, set_input, act, ask, call, set_skip,
  is_skipping, deeper, higher, directed, next, raise_token, raise_colon, push_back_colon,
}
use cif_api.Parser.Items.{parsed, a_value, item_value, store_item, parse_item}

-- Handlers that only look at the storage
pub record IsReading {Store Container Loop : Type 0} (handlers : Handlers Store Container Loop)
    : Type 0 where
  pub cif_start_reads : (r : List Report) (st : Store) → (handlers.cif_start r st).1 ≡ st
  pub cif_end_reads : (r : List Report) (st : Store) → (handlers.cif_end r st).1 ≡ st
  pub container_start_reads :
      (b : Bool) (c : Option Container) (r : List Report) (st : Store)
      → (handlers.container_start b c r st).1 ≡ st
  pub container_end_reads :
      (b : Bool) (c : Option Container) (r : List Report) (st : Store)
      → (handlers.container_end b c r st).1 ≡ st
  pub loop_start_reads :
      (c : Option Container) (names : List UString) (r : List Report) (st : Store)
      → (handlers.loop_start c names r st).1 ≡ st
  pub loop_end_reads :
      (l : Option Loop) (r : List Report) (st : Store) → (handlers.loop_end l r st).1 ≡ st
  pub packet_start_reads : (r : List Report) (st : Store) → (handlers.packet_start r st).1 ≡ st
  pub packet_end_reads :
      (packet : CifMap Value) (r : List Report) (st : Store)
      → (handlers.packet_end packet r st).1 ≡ st
  pub item_reads :
      (name : Option UString) (value : Value) (r : List Report) (st : Store)
      → (handlers.item name value r st).1 ≡ st

module _ {Store : Type 0} where
  abbrev pub Unchanged : {A : Type 0} → Store → Option (Outcome Store A) → Type 0
  Unchanged st none = Unit
  Unchanged st (some (halted s st')) = st' ≡ st
  Unchanged st (some (going a w)) = w.store ≡ st

  -- The step leaves the storage as it is, from any state.
  pub record Quiet {A : Type 0} (m : Step Store A) : Type 0 where
    pub unchanged : (w : World Store) → Unchanged w.store (m w)

  Unchanged-follow :
      {A B : Type 0} (st : Store) (k : A → Step Store B) (o : Option (Outcome Store A))
      → Unchanged st o
      → ((a : A) → Quiet (k a))
      → Unchanged st (follow k o)
  Unchanged-follow st k none h q = tt
  Unchanged-follow st k (some (halted s st')) h q = h
  Unchanged-follow st k (some (going a w)) h q =
      subst (λ s. Unchanged s (k a w)) h ((q a).unchanged w)

  pub Quiet->>= :
      {A B : Type 0} {m : Step Store A} {k : A → Step Store B}
      → Quiet m
      → ((a : A) → Quiet (k a))
      → Quiet (m >>= k)
  Quiet->>= {m} {k} h q = record {
    unchanged = λ w. Unchanged-follow w.store k (m w) (h.unchanged w) q;
  }

  pub Quiet-if :
      {A : Type 0} (b : Bool) {m n : Step Store A} → Quiet m → Quiet n → Quiet (if b then m else n)
  Quiet-if true h k = h
  Quiet-if false h k = k

  -- What the value of a step that goes on has
  abbrev pub Returns : {A : Type 0} → (A → Type 0) → Option (Outcome Store A) → Type 0
  Returns P (some (going a w)) = P a
  Returns P _ = Unit

  pub Returns-follow :
      {A B : Type 0} (P : B → Type 0) (k : A → Step Store B) (o : Option (Outcome Store A))
      → ((a : A) (w : World Store) → Returns P (k a w))
      → Returns P (follow k o)
  Returns-follow P k none h = tt
  Returns-follow P k (some (halted s st)) h = tt
  Returns-follow P k (some (going a w)) h = h a w

  pub Quiet-given :
      {A B : Type 0} {m : Step Store A} {P : A → Type 0} (k : A → Step Store B)
      → Quiet m
      → ((w : World Store) → Returns P (m w))
      → ((a : A) → P a → Quiet (k a))
      → Quiet (m >>= k)
  Quiet-given {A} {m = m} {P = P} k h r q = record {
    unchanged = λ w. ends w.store (m w) (h.unchanged w) (r w);
  }
    where
      ends :
          (st : Store) (o : Option (Outcome Store A))
          → Unchanged st o
          → Returns P o
          → Unchanged st (follow k o)
      ends st none u e = tt
      ends st (some (halted s st')) u e = u
      ends st (some (going a v)) u e = subst (λ s. Unchanged s (k a v)) u ((q a e).unchanged v)

  pub pure-Quiet : {A : Type 0} (a : A) → Quiet (pure a)
  pure-Quiet a = record { unchanged = λ w. refl }

  pub halt-Quiet : {A : Type 0} (stop : Stop) → Quiet {A = A} (halt stop)
  halt-Quiet stop = record { unchanged = λ w. refl }

  pub exhausted-Quiet : {A : Type 0} → Quiet {A = A} exhausted
  exhausted-Quiet = record { unchanged = λ w. tt }

  pub look-Quiet : Quiet look
  look-Quiet = record { unchanged = λ w. refl }

  pub update-Quiet : (f : Scanner → Scanner) → Quiet (update f)
  update-Quiet f = record { unchanged = λ w. refl }

  pub Quiet-directed :
      {A : Type 0} (flow : Flow) {go current siblings : Step Store A}
      → Quiet go
      → Quiet current
      → Quiet siblings
      → Quiet (directed flow go current siblings)
  Quiet-directed Flow.continue a b c = a
  Quiet-directed Flow.skip_current a b c = b
  Quiet-directed Flow.skip_siblings a b c = c
  Quiet-directed Flow.stop a b c = halt-Quiet ended
  Quiet-directed (Flow.code e) a b c = halt-Quiet (failed e)

  pub of_result-Quiet : {A : Type 0} (r : Result A) → Quiet (of_result r)
  of_result-Quiet (ok a) = pure-Quiet a
  of_result-Quiet (err code) = halt-Quiet (failed code)

  set_scanner-Quiet : (s : Scanner) → Quiet (set_scanner s)
  set_scanner-Quiet s = record { unchanged = λ w. refl }

  set_input-Quiet : (r : Scanner × UString) → Quiet (set_input r)
  set_input-Quiet r = record { unchanged = λ w. refl }

  pub act-Quiet : (f : Scanner → Result Scanner) → Quiet (act f)
  act-Quiet f = record {
    unchanged = λ w.
        Unchanged-follow w.store set_scanner (of_result (f w.scanner) w)
          ((of_result-Quiet (f w.scanner)).unchanged w) set_scanner-Quiet;
  }

  pub call-Quiet :
      {A : Type 0} (f : List Report → Store → A × Store)
      → ((r : List Report) (st : Store) → (f r st).1 ≡ st)
      → Quiet (call f)
  call-Quiet f reads = record { unchanged = λ w. reads w.scanner.reports w.store }

  module _ (callback : Callback) (d : Dialect) where
    pub next-Quiet : Quiet (next callback d)
    next-Quiet = record {
      unchanged = λ w.
          let r = next_token callback d w.scanner w.input in
          Unchanged-follow w.store set_input (of_result r w) ((of_result-Quiet r).unchanged w)
            set_input-Quiet;
    }

    pub raise_token-Quiet : (code : Code) → Quiet (raise_token callback d code)
    raise_token-Quiet code =
        act-Quiet λ s. raise callback code (s.column - s.tvalue_length) (tvalue s) s

    pub raise_colon-Quiet : Quiet (raise_colon callback d)
    raise_colon-Quiet = act-Quiet λ s. raise callback missing_space (s.column - 1) [] s

    pub push_back_colon-Quiet : (alt : TokenType) → Quiet (push_back_colon callback d alt)
    push_back_colon-Quiet alt = record { unchanged = λ w. refl }
