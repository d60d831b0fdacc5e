-- ===== src/Map/Items.antt =====
-- What `cif_map_set_item` and `cif_map_retrieve_item` of src/map.c do to the items of a map.
use cif_api.Base.{
  subst, Bool, true, false, Option, none, some, if◌then◌else◌, UString, List, [], ◌∷◌, equals,
  equals_iff, Bool-cases, All, Option-cases, ◌≡◌, ◌≢◌, refl, sym, ap, ◌∙◌, inl, inr,
}
use cif_api.Code.{ok-injective, Code, Result, ok, err, nosuch_item, >>=-eq-ok}
use cif_api.Hash.{Entry, Uthash, lookup, without}
use cif_api.Map.{
  object, CifMap, Argument, convert_to_standalone, renewed, fresh, different_key, modify, respelled,
  store, or_error, set_item, retrieve_item,
}
use cif_api.Map.Access.{KeysApart, convert-keeps}
use cif_api.Map.Keys.{
  value_of, lookup-key, lookup-modify, lookup-modify-other, lookup-add, lookup-add-other, Distinct,
  lookup-Lacks, lookup-without, lookup-without-other, All-modify, All-add, Distinct-without,
  Distinct-modify, Distinct-add, All-without,
}

module _ {V : Type 0} (hash : Uthash V) (clone : V → V) (unknown : V) where
  -- What `store` makes of a map in which the keys of every entry are apart.
  unfoldable plain : CifMap V → Option (Entry V) → UString → UString → Argument V → CifMap V
  plain m (some item) kn key value = record m {
    head =
        modify m.head kn (λ e. record e {
          key_orig = key;
          as_value = renewed hash clone unknown value e.as_value;
        });
  }
  plain m none kn key value = record m {
    head = hash.add m.head (record {
      key = kn;
      key_orig = key;
      shared = false;
      as_value = fresh hash clone unknown value;
    });
  }

  respelled-apart :
      (e : Entry V) (key : UString)
      → e.shared ≡ false
      → respelled hash clone unknown e key ≡ record e { key_orig = key }
  unfolding respelled
  respelled-apart e key h = elim (Bool-cases (equals key e.key_orig)) [
    | inl b ↦ let same : key ≡ e.key_orig = (equals_iff key e.key_orig).0 b in rw (b, same)
    | inr b ↦ rw (b, h)
  ]

  modify-apart :
      (es : List (Entry V)) (kn key : UString) (value : Argument V)
      → KeysApart es
      → modify es kn (λ e. record (respelled hash clone unknown e key) {
        as_value = renewed hash clone unknown value e.as_value;
      })
        ≡ modify es kn (λ e. record e {
          key_orig = key;
          as_value = renewed hash clone unknown value e.as_value;
        })
  unfolding modify
  modify-apart [] kn key value h = refl
  modify-apart (e ∷ es) kn key value h = elim (Bool-cases (equals e.key kn)) [
    | inl b ↦ rw b (
        ap
          (λ (d : Entry V).
            record d { as_value = renewed hash clone unknown value e.as_value } ∷ es)
          (respelled-apart e key h.0))
    | inr b ↦ rw (b, modify-apart es kn key value h.1)
  ]

  store-apart :
      (m : CifMap V) (old : Option (Entry V)) (kn key : UString) (value : Argument V)
      → KeysApart m.head
      → store hash clone unknown m old kn key value ≡ plain m old kn key value
  unfolding store plain
  store-apart m none kn key value h = refl
  store-apart m (some e) kn key value h =
      ap (λ (es : List (Entry V)). record m { head = es }) (modify-apart m.head kn key value h)

  -- The steps of a `cif_map_set_item` that succeeds.
  record Stored (m : CifMap V) (key : UString) (value : Argument V) (code : Code) (r : CifMap V)
      : Type 0 where
    key_norm : UString
    normalized : m.normalizer key code ≡ ok key_norm
    standalone : CifMap V
    same_head : standalone.head ≡ m.head
    same_normalizer : standalone.normalizer ≡ m.normalizer
    stored : r ≡ plain standalone (lookup m.head key_norm) key_norm key value

  -- Where the key is new or spelled in another way, the map is converted, and its entries stay.
  made_standalone :
      (m s : CifMap V) (b : Bool)
      → KeysApart m.head
      → (if b then or_error hash clone unknown (convert_to_standalone m) else ok m) ≡ ok s
      → (s.head ≡ m.head) × (s.normalizer ≡ m.normalizer)
  made_standalone m s false apart h = let same : m ≡ s = ok-injective h in rw (← same) (refl, refl)
  made_standalone m s true apart h = of_result (convert_to_standalone m) refl h
    where
      of_result :
          (c : Result (CifMap V))
          → convert_to_standalone m ≡ c
          → or_error hash clone unknown c ≡ ok s
          → (s.head ≡ m.head) × (s.normalizer ≡ m.normalizer)
      of_result (ok a) e g =
          let same : a ≡ record m { is_standalone = true } = convert-keeps m a apart e in
          let is_s : s ≡ record m { is_standalone = true } = sym (ok-injective g) ∙ same in
          (ap (λ (t : CifMap V). t.head) is_s, ap (λ (t : CifMap V). t.normalizer) is_s)
      of_result (err c) e g = cc

  set_item-Stored :
      (m : CifMap V) (key : UString) (value : Argument V) (code : Code) (r : CifMap V)
      → KeysApart m.head
      → set_item hash clone unknown m key value code ≡ ok r
      → Stored m key value code r
  unfolding set_item
  set_item-Stored m key value code r apart h =
      let (kn, e, rest) = >>=-eq-ok (m.normalizer key code) _ h in
      let (s, made, put) =
        >>=-eq-ok
          (if different_key hash clone unknown (hash.find m.head kn) key
            then or_error hash clone unknown (convert_to_standalone m)
            else ok m)
          _ rest in
      let keeps = made_standalone m s _ apart made in
      record {
        key_norm = kn;
        normalized = e;
        standalone = s;
        same_head = keeps.0;
        same_normalizer = keeps.1;
        stored =
            sym (ok-injective put)
            ∙ store-apart s (hash.find m.head kn) kn key value (rw keeps.0 apart)
            ∙ ap (λ item. plain s item kn key value) (hash.find-lookup m.head kn);
      }

  -- What the source leaves under a key: a copy of the value, the value that is there already, or
  -- an unknown value.
  pub value_set : Option (Entry V) → Argument V → V
  value_set none value = fresh hash clone unknown value
  value_set (some e) value = renewed hash clone unknown value e.as_value

  plain-value :
      (m : CifMap V) (kn key : UString) (value : Argument V) (old : Option (Entry V))
      → lookup m.head kn ≡ old
      → value_of (lookup ((plain m old kn key value).head) kn) ≡ some (value_set old value)
  unfolding plain value_set
  plain-value m kn key value none h =
      let e : Entry V = record {
        key = kn;
        key_orig = key;
        shared = false;
        as_value = fresh hash clone unknown value;
      } in
      rw (hash.add-append m.head e, lookup-add m.head e h)
  plain-value m kn key value (some e) h = rw (
      lookup-modify m.head kn
        (λ e. record e { key_orig = key; as_value = renewed hash clone unknown value e.as_value }) e
        h (lookup-key m.head kn e h))

  plain-other :
      (m : CifMap V) (kn key l : UString) (value : Argument V) (old : Option (Entry V))
      → kn ≢ l
      → lookup ((plain m old kn key value).head) l ≡ lookup m.head l
  unfolding plain
  plain-other m kn key l value none ne =
      let e : Entry V = record {
        key = kn;
        key_orig = key;
        shared = false;
        as_value = fresh hash clone unknown value;
      } in
      rw (hash.add-append m.head e, lookup-add-other m.head e l ne)
  plain-other m kn key l value (some e) ne =
      lookup-modify-other m.head kn l
        (λ e. record e { key_orig = key; as_value = renewed hash clone unknown value e.as_value })
        (λ e. refl) ne

  plain-normalizer :
      (m : CifMap V) (kn key : UString) (value : Argument V) (old : Option (Entry V))
      → (plain m old kn key value).normalizer ≡ m.normalizer
  unfolding plain
  plain-normalizer m kn key value none = refl
  plain-normalizer m kn key value (some e) = refl

  -- The value of an access, without the map that is left.
  abbrev pub value_found : Result (V × CifMap V) → Result V
  value_found (ok p) = ok p.0
  value_found (err c) = err c

  -- What an access finds, by the entry under the normalized key.
  abbrev outcome : Option V → Result V
  outcome none = err nosuch_item
  outcome (some v) = ok v

  retrieve-outcome :
      (m : CifMap V) (key kn : UString) (do_remove : Bool) (code : Code)
      → m.normalizer key code ≡ ok kn
      → value_found (retrieve_item hash clone unknown m key do_remove code)
        ≡ outcome (value_of (lookup m.head kn))
  unfolding retrieve_item
  retrieve-outcome m key kn do_remove code e = elim (Option-cases (lookup m.head kn)) [
    | inl n ↦ rw (e, hash.find-lookup m.head kn, n)
    | inr (x, f) ↦ rw (e, hash.find-lookup m.head kn, f)
  ]

  module _ {m r : CifMap V} {key : UString} {value : Argument V} {code : Code}
      (s : Stored m key value code r) where
    Stored-normalizer : r.normalizer ≡ m.normalizer
    Stored-normalizer =
        ap (λ (t : CifMap V). t.normalizer) s.stored
        ∙ plain-normalizer s.standalone s.key_norm key value (lookup m.head s.key_norm)
        ∙ s.same_normalizer

    Stored-value :
        value_of (lookup r.head s.key_norm) ≡ some (value_set (lookup m.head s.key_norm) value)
    Stored-value =
        ap (λ (t : CifMap V). value_of (lookup t.head s.key_norm)) s.stored
        ∙ plain-value s.standalone s.key_norm key value (lookup m.head s.key_norm)
            (ap (λ h. lookup h s.key_norm) s.same_head)

    Stored-other : (l : UString) → s.key_norm ≢ l → lookup r.head l ≡ lookup m.head l
    Stored-other l ne =
        ap (λ (t : CifMap V). lookup t.head l) s.stored
        ∙ plain-other s.standalone s.key_norm key l value (lookup m.head s.key_norm) ne
        ∙ ap (λ h. lookup h l) s.same_head

  -- An item that is set leaves the normalizer.
  pub set_item-normalizer :
      (m r : CifMap V) (key : UString) (value : Argument V) (code : Code)
      → KeysApart m.head
      → set_item hash clone unknown m key value code ≡ ok r
      → r.normalizer ≡ m.normalizer
  set_item-normalizer m r key value code apart h =
      Stored-normalizer (set_item-Stored m key value code r apart h)

  -- A value that is not the one in the map is copied.
  pub value_set-other : (old : Option (Entry V)) (v : V) → value_set old (object false v) ≡ clone v
  unfolding value_set
  value_set-other none v = refl
  value_set-other (some e) v = refl

  -- In a map where no entry has its two keys in one allocation, once a value is set under a key,
  -- every spelling of that key finds it: a copy of the value, the
  -- value that stood there already, or an unknown value for NULL.
  pub retrieve_item-set_item :
      (m r : CifMap V) (key other kn : UString) (value : Argument V) (code invalidity : Code)
      → KeysApart m.head
      → set_item hash clone unknown m key value code ≡ ok r
      → m.normalizer key code ≡ ok kn
      → m.normalizer other invalidity ≡ ok kn
      → value_found (retrieve_item hash clone unknown r other false invalidity)
        ≡ ok (value_set (lookup m.head kn) value)
  retrieve_item-set_item m r key other kn value code invalidity apart h e g =
      let s = set_item-Stored m key value code r apart h in
      let same : s.key_norm ≡ kn = ok-injective (sym s.normalized ∙ e) in
      let normal : r.normalizer other invalidity ≡ ok kn = rw (Stored-normalizer s) g in
      retrieve-outcome r other kn false invalidity normal ∙ ap outcome (rw same at (Stored-value s))

  -- In a map where no entry has its two keys in one allocation, a value that is set under one key
  -- leaves what stands under every other key.
  pub retrieve_item-set_item_other :
      (m r : CifMap V) (key other kn ko : UString) (value : Argument V) (code invalidity : Code)
      → KeysApart m.head
      → set_item hash clone unknown m key value code ≡ ok r
      → m.normalizer key code ≡ ok kn
      → m.normalizer other invalidity ≡ ok ko
      → kn ≢ ko
      → value_found (retrieve_item hash clone unknown r other false invalidity)
        ≡ value_found (retrieve_item hash clone unknown m other false invalidity)
  retrieve_item-set_item_other m r key other kn ko value code invalidity apart h e g ne =
      let s = set_item-Stored m key value code r apart h in
      let same : s.key_norm ≡ kn = ok-injective (sym s.normalized ∙ e) in
      let normal : r.normalizer other invalidity ≡ ok ko = rw (Stored-normalizer s) g in
      retrieve-outcome r other ko false invalidity normal
      ∙ ap (λ o. outcome (value_of o)) (Stored-other s ko (rw same ne))
      ∙ sym (retrieve-outcome m other ko false invalidity g)

  -- The keys are distinct, and every key is the normal form of the key that the user gave.
  pub record WellFormed (m : CifMap V) (code : Code) : Type 0 where
    pub distinct : Distinct m.head
    pub normal : All (λ e. m.normalizer e.key_orig code ≡ ok e.key) m.head

  plain-Distinct :
      (m : CifMap V) (kn key : UString) (value : Argument V) (old : Option (Entry V))
      → lookup m.head kn ≡ old
      → Distinct m.head
      → Distinct ((plain m old kn key value).head)
  unfolding plain
  plain-Distinct m kn key value none h d =
      let e : Entry V = record {
        key = kn;
        key_orig = key;
        shared = false;
        as_value = fresh hash clone unknown value;
      } in
      rw (hash.add-append m.head e) (Distinct-add m.head e (lookup-Lacks m.head kn h) d)
  plain-Distinct m kn key value (some e) h d =
      Distinct-modify m.head kn
        (λ e. record e { key_orig = key; as_value = renewed hash clone unknown value e.as_value })
        (λ e. refl) d

  plain-normal :
      (m : CifMap V) (kn key : UString) (value : Argument V) (code : Code) (old : Option (Entry V))
      (f : UString → Code → Result UString)
      → f key code ≡ ok kn
      → All (λ e. f e.key_orig code ≡ ok e.key) m.head
      → All (λ e. f e.key_orig code ≡ ok e.key) ((plain m old kn key value).head)
  unfolding plain
  plain-normal m kn key value code none f n h =
      let e : Entry V = record {
        key = kn;
        key_orig = key;
        shared = false;
        as_value = fresh hash clone unknown value;
      } in
      rw (hash.add-append m.head e) (All-add (λ e. f e.key_orig code ≡ ok e.key) m.head e h n)
  plain-normal m kn key value code (some e) f n h =
      All-modify (λ e. f e.key_orig code ≡ ok e.key) m.head kn
        (λ e. record e { key_orig = key; as_value = renewed hash clone unknown value e.as_value })
        (λ e same _. rw same n) h

  plain-KeysApart :
      (m : CifMap V) (kn key : UString) (value : Argument V) (old : Option (Entry V))
      → KeysApart m.head
      → KeysApart ((plain m old kn key value).head)
  unfolding plain
  plain-KeysApart m kn key value none h =
      let e : Entry V = record {
        key = kn;
        key_orig = key;
        shared = false;
        as_value = fresh hash clone unknown value;
      } in
      rw (hash.add-append m.head e) (All-add (λ e. e.shared ≡ false) m.head e h refl)
  plain-KeysApart m kn key value (some e) h =
      All-modify (λ e. e.shared ≡ false) m.head kn
        (λ e. record e { key_orig = key; as_value = renewed hash clone unknown value e.as_value })
        (λ e _ apart. apart) h

  pub set_item-KeysApart :
      (m r : CifMap V) (key : UString) (value : Argument V) (code : Code)
      → KeysApart m.head
      → set_item hash clone unknown m key value code ≡ ok r
      → KeysApart r.head
  set_item-KeysApart m r key value code apart h =
      let s = set_item-Stored m key value code r apart h in
      subst (λ (t : CifMap V). KeysApart t.head) (sym s.stored)
        (plain-KeysApart s.standalone s.key_norm key value (lookup m.head s.key_norm)
          (rw s.same_head apart))

  -- In a map where no entry has its two keys in one allocation, setting an item keeps the map well
  -- formed, and the keys of every entry apart.
  pub set_item-WellFormed :
      (m r : CifMap V) (key : UString) (value : Argument V) (code : Code)
      → WellFormed m code
      → KeysApart m.head
      → set_item hash clone unknown m key value code ≡ ok r
      → WellFormed r code × KeysApart r.head
  set_item-WellFormed m r key value code w apart h =
      let s = set_item-Stored m key value code r apart h in
      let old = lookup m.head s.key_norm in
      let found : lookup s.standalone.head s.key_norm ≡ old =
        ap (λ h. lookup h s.key_norm) s.same_head in
      (
        record {
          distinct =
              subst (λ (t : CifMap V). Distinct t.head) (sym s.stored)
                (plain-Distinct s.standalone s.key_norm key value old found
                  (rw s.same_head w.distinct));
          normal = rw (Stored-normalizer s) (
              subst (λ (t : CifMap V). All (λ e. m.normalizer e.key_orig code ≡ ok e.key) t.head)
                (sym s.stored)
                (plain-normal s.standalone s.key_norm key value code old m.normalizer s.normalized
                  (rw s.same_head w.normal)));
        },
        set_item-KeysApart m r key value code apart h,
      )

  retrieve_item-without :
      (m r : CifMap V) (key kn : UString) (v : V) (invalidity : Code)
      → m.normalizer key invalidity ≡ ok kn
      → retrieve_item hash clone unknown m key true invalidity ≡ ok (v, r)
      → r ≡ record m { head = without m.head kn }
  unfolding retrieve_item
  retrieve_item-without m r key kn v invalidity e h = elim (Option-cases (lookup m.head kn)) [
    | inl n ↦ absurd (cc (rw (e, hash.find-lookup m.head kn, n) at h))
    | inr (x, f) ↦
        let done = rw (e, hash.find-lookup m.head kn, f, hash.delete-without m.head kn) at h in
        sym (ap (λ (p : V × CifMap V). p.1) (ok-injective done))
  ]

  -- Removing an item keeps the map well formed.
  pub retrieve_item-WellFormed :
      (m r : CifMap V) (key kn : UString) (v : V) (code invalidity : Code)
      → WellFormed m code
      → m.normalizer key invalidity ≡ ok kn
      → retrieve_item hash clone unknown m key true invalidity ≡ ok (v, r)
      → WellFormed r code
  retrieve_item-WellFormed m r key kn v code invalidity w e h =
      subst (λ t. WellFormed t code) (sym (retrieve_item-without m r key kn v invalidity e h))
        (record {
          distinct = Distinct-without m.head kn w.distinct;
          normal = All-without (λ e. m.normalizer e.key_orig code ≡ ok e.key) m.head kn w.normal;
        })

  -- A removed item is found under no spelling of its key.
  pub retrieve_item-removed :
      (m r : CifMap V) (key other kn : UString) (v : V) (code invalidity : Code)
      → WellFormed m code
      → m.normalizer key invalidity ≡ ok kn
      → m.normalizer other invalidity ≡ ok kn
      → retrieve_item hash clone unknown m key true invalidity ≡ ok (v, r)
      → value_found (retrieve_item hash clone unknown r other false invalidity) ≡ err nosuch_item
  retrieve_item-removed m r key other kn v code invalidity w e g h =
      subst
        (λ t.
          value_found (retrieve_item hash clone unknown t other false invalidity) ≡ err nosuch_item)
        (sym (retrieve_item-without m r key kn v invalidity e h))
        (retrieve-outcome (record m { head = without m.head kn }) other kn false invalidity g
          ∙ ap (λ o. outcome (value_of o)) (lookup-without m.head kn w.distinct))

  -- Removing an item leaves what stands under every other key.
  pub retrieve_item-removed_other :
      (m r : CifMap V) (key other kn ko : UString) (v : V) (invalidity : Code)
      → m.normalizer key invalidity ≡ ok kn
      → m.normalizer other invalidity ≡ ok ko
      → kn ≢ ko
      → retrieve_item hash clone unknown m key true invalidity ≡ ok (v, r)
      → value_found (retrieve_item hash clone unknown r other false invalidity)
        ≡ value_found (retrieve_item hash clone unknown m other false invalidity)
  retrieve_item-removed_other m r key other kn ko v invalidity e g ne h =
      subst
        (λ t.
          value_found (retrieve_item hash clone unknown t other false invalidity)
          ≡ value_found (retrieve_item hash clone unknown m other false invalidity))
        (sym (retrieve_item-without m r key kn v invalidity e h))
        (retrieve-outcome (record m { head = without m.head kn }) other ko false invalidity g
          ∙ ap (λ o. outcome (value_of o)) (lookup-without-other m.head kn ko ne)
          ∙ sym (retrieve-outcome m other ko false invalidity g))
