-- ===== src/Parser/Settles/Items.antt =====
-- `parse_item` of src/parser.c ends, with no more input than there was; where a value is next, it is
-- consumed.
use cif_api.Base.{ℕ, ◌-◌, Option, none, some, UString, ◌≡◌, ◌⊎◌, refl, sym, subst, inl, inr}
use cif_api.Code.{missing_value}
use cif_api.Icu.{Icu}
use cif_api.Hash.{Uthash}
use cif_api.Value.{Value, unk}
use cif_api.Scanner.Classes.{Dialect}
use cif_api.Scanner.State.{Callback, TokenType, metaclass_of, general_meta}
use cif_api.Scanner.Units.{replacement}
use cif_api.Scanner.Decode.{Protocols}
use cif_api.Scanner.Tokens.{tvalue}
use cif_api.Parser.Storage.{Storage, Handlers}
use cif_api.Parser.World.{World, ◌>>◌, pure, update, deeper, higher, raise_token}
use cif_api.Parser.Items.{item_value, store_item, parse_item}
use cif_api.Parser.Settles.{
  Settles, settled, Keeps, Less, Same, Filled, Keeps-Same, Less-Same, Keeps-Less, Filled-Same,
  Settles-follow, Settles-weaken, Settles-directed, of_code-Same, Settles-look, Settles-update,
  deeper-Same, act-Same,
}
use cif_api.Parser.Settles.Values.{
  StartsValue, Tokened, Tokened-Same, next-Tokened, next-Filled, a_value-Less, colon_value-Less,
}

module _ {Store Container Loop : Type 0} (storage : Storage Store Container Loop)
    (handlers : Handlers Store Container Loop) (icu : Icu) (hash : Uthash Value)
    (callback : Callback) (d : Dialect) (p : Protocols)
    (free : metaclass_of d (replacement d) ≡ general_meta) where
  item_value-Less :
      (t : TokenType) (n : ℕ) (w : World Store)
      → StartsValue t
      → Filled w
      → Keeps n w
      → Settles (λ _ v. Less n v) (item_value storage handlers icu hash callback d p t w)
  unfolding item_value
  item_value-Less TokenType.tkey n w s f k =
      (colon_value-Less storage handlers icu hash callback d p free) n TokenType.tvalue w tt f k
  item_value-Less TokenType.key n w s f k =
      (colon_value-Less storage handlers icu hash callback d p free) n TokenType.qvalue w tt f k
  item_value-Less TokenType.olist n w s f k =
      (a_value-Less storage handlers icu hash callback d p free) n w k
  item_value-Less TokenType.otable n w s f k =
      (a_value-Less storage handlers icu hash callback d p free) n w k
  item_value-Less TokenType.tvalue n w s f k =
      (a_value-Less storage handlers icu hash callback d p free) n w k
  item_value-Less TokenType.qvalue n w s f k =
      (a_value-Less storage handlers icu hash callback d p free) n w k
  item_value-Less TokenType.value n w s f k =
      (a_value-Less storage handlers icu hash callback d p free) n w k
  item_value-Less TokenType.block_head n w s f k = absurd s
  item_value-Less TokenType.frame_head n w s f k = absurd s
  item_value-Less TokenType.frame_term n w s f k = absurd s
  item_value-Less TokenType.loopkw n w s f k = absurd s
  item_value-Less TokenType.name n w s f k = absurd s
  item_value-Less TokenType.ctable n w s f k = absurd s
  item_value-Less TokenType.clist n w s f k = absurd s
  item_value-Less TokenType.end n w s f k = absurd s
  item_value-Less TokenType.error n w s f k = absurd s

  missing-Keeps :
      (n : ℕ) (w : World Store)
      → Keeps n w
      → Settles (λ _ v. Keeps n v) ((raise_token callback d missing_value >> pure unk) w)
  missing-Keeps n w k =
      Settles-follow _ (act-Same callback missing_value (λ s. s.column - s.tvalue_length) tvalue w)
        λ _ v s. settled (Keeps-Same n w v s k)

  -- Behind the end of the input there is no token with a value.
  item_value-Keeps :
      (t : TokenType) (n : ℕ) (w : World Store)
      → (t ≡ TokenType.end) ⊎ Filled w
      → Keeps n w
      → Settles (λ _ v. Keeps n v) (item_value storage handlers icu hash callback d p t w)
  unfolding item_value
  item_value-Keeps t n w (inl e) k = rw e (missing-Keeps n w k)
  item_value-Keeps t n w (inr f) k = by_type t
    where
      less :
          (t : TokenType)
          → StartsValue t
          → Settles (λ _ v. Keeps n v) (item_value storage handlers icu hash callback d p t w)
      less t s = Settles-weaken (item_value-Less t n w s f k) λ _ v h. Keeps-Less n v h

      by_type :
          (t : TokenType)
          → Settles (λ _ v. Keeps n v) (item_value storage handlers icu hash callback d p t w)
      by_type TokenType.tkey = less TokenType.tkey tt
      by_type TokenType.key = less TokenType.key tt
      by_type TokenType.olist = less TokenType.olist tt
      by_type TokenType.otable = less TokenType.otable tt
      by_type TokenType.tvalue = less TokenType.tvalue tt
      by_type TokenType.qvalue = less TokenType.qvalue tt
      by_type TokenType.value = less TokenType.value tt
      by_type _ = missing-Keeps n w k

  store_item-Same :
      (container : Option Container) (name : Option UString) (value : Value) (w : World Store)
      → Settles
          (λ _ v. Same w v)
          (store_item storage handlers icu hash callback d p container name value w)
  unfolding store_item
  store_item-Same none name value w = settled (refl, refl, refl)
  store_item-Same (some container) none value w = settled (refl, refl, refl)
  store_item-Same (some container) (some name) value w =
      let (flow, st) = handlers.item (some name) value w.scanner.reports w.store in
      let (code, st') = storage.set_value container name value st in
      Settles-directed flow _ _ _ (record w { store = st })
        (Settles-weaken (of_code-Same code (record w { store = st' })) λ _ v s. s)
        (settled (refl, refl, refl)) (settled (refl, refl, refl))

  -- What follows the value
  item_stored :
      (P : World Store → Type 0)
      → ((w v : World Store) → Same w v → P w → P v)
      → (container : Option Container) (name : Option UString) (value : Value) (w : World Store)
      → P w
      → Settles
          (λ _ v. P v)
          ((store_item storage handlers icu hash callback d p container name value >> update higher)
            w)
  item_stored P keep container name value w h =
      Settles-follow _ (store_item-Same container name value w)
        λ _ v s. settled (keep v _ (refl, refl, refl) (keep w v s h))

  pub parse_item-Keeps :
      (container : Option Container) (name : Option UString) (n : ℕ) (w : World Store)
      → Keeps n w
      → Settles
          (λ _ v. Keeps n v)
          (parse_item storage handlers icu hash callback d p container name w)
  unfolding parse_item
  parse_item-Keeps container name n w k =
      Settles-look _
        (Settles-update {Q = (Tokened storage handlers icu hash callback d p free) n} deeper
          ((next-Tokened storage handlers icu hash callback d p free) n w k)
          λ v h.
            (Tokened-Same storage handlers icu hash callback d p free) n v
              (record v { scanner = deeper v.scanner }) (deeper-Same v) h)
        λ v (h, e).
          Settles-follow _ (item_value-Keeps v.scanner.ttype n v e h)
            λ value u q. item_stored (Keeps n) (Keeps-Same n) container name value u q

  pub parse_item-Less :
      (container : Option Container) (name : Option UString) (n : ℕ) (w : World Store)
      → Keeps n w
      → Filled w
      → StartsValue w.scanner.ttype
      → Settles
          (λ _ v. Less n v)
          (parse_item storage handlers icu hash callback d p container name w)
  unfolding parse_item
  parse_item-Less container name n w k f s =
      let v = record w { scanner = deeper w.scanner } in
      let same = deeper-Same w in
      rw ((next-Filled storage handlers icu hash callback d p free) w f) (
        Settles-follow _
          (item_value-Less v.scanner.ttype n v (subst StartsValue (sym same.1) s)
            (Filled-Same w v same f) (Keeps-Same n w v same k))
          λ value u q. item_stored (Less n) (Less-Same n) container name value u q)
