-- ===== src/Packet/Create.antt =====
-- The packets that `cif_packet_create` of src/packet.c makes.
use cif_api.Base.{
  true, Option, List, [], ◌∷◌, ◌++◌, UString, equals, equals_iff, All, append_assoc, append-nil,
  ◌≡◌, ◌≢◌, refl, sym, ap, ◌∙◌, Bool-cases, inl, inr, subst,
}
use cif_api.Code.{ok, invalid_itemname, >>=-eq-ok, ok-injective}
use cif_api.Icu.{Icu}
use cif_api.Hash.{Entry, Uthash}
use cif_api.Map.{CifMap, get_keys}
use cif_api.Map.Keys.{Distinct, Lacks}
use cif_api.Map.Items.{WellFormed}
use cif_api.Value.{Value, unk, clone}
use cif_api.Packet.{
  item_normalizer, normalize_all, add_scalars, packet_create_norm, assign_names, given,
  packet_create, packet_get_names,
}

-- The entries that the loop adds for normalized names.
abbrev scalars : List UString → List (Entry Value)
scalars [] = []
scalars (n ∷ ns) = record { key = n; key_orig = n; shared = true; as_value = unk } ∷ scalars ns

-- No name occurs twice.
abbrev pub AllDistinct : List UString → Type 0
AllDistinct [] = Unit
AllDistinct (n ∷ ns) = All (λ m. m ≢ n) ns × AllDistinct ns

module _ (icu : Icu) (hash : Uthash Value) where
  add_scalars-appends :
      (head : List (Entry Value)) (ns : List UString)
      → add_scalars icu hash head ns ≡ head ++ scalars ns
  unfolding add_scalars
  add_scalars-appends head [] = sym (append-nil head)
  add_scalars-appends head (n ∷ ns) =
      let e : Entry Value = record { key = n; key_orig = n; shared = true; as_value = unk } in
      rw (hash.add-append head e)
        (add_scalars-appends (head ++ (e ∷ [])) ns ∙ append_assoc head (e ∷ []) (scalars ns))

  -- Names with the normal forms that they were found to have.
  abbrev Normal : List UString → List UString → Type 0
  Normal [] [] = Unit
  Normal (n ∷ ns) (m ∷ ms) = (item_normalizer icu n invalid_itemname ≡ ok m) × Normal ns ms
  Normal _ _ = ⊥

  normalize_all-Normal :
      (names norms : List UString) → normalize_all icu hash names ≡ ok norms → Normal names norms
  unfolding normalize_all
  normalize_all-Normal [] norms h = subst (Normal []) (ok-injective h) tt
  normalize_all-Normal (n ∷ ns) norms h =
      let (m, e, rest) = >>=-eq-ok (item_normalizer icu n invalid_itemname) _ h in
      let (ms, f, done) = >>=-eq-ok (normalize_all icu hash ns) _ rest in
      subst (Normal (n ∷ ns)) (ok-injective done) (e, normalize_all-Normal ns ms f)

  assigned-names :
      (names norms : List UString)
      → Normal names norms
      → get_keys (assign_names icu hash names (scalars norms)) ≡ names
  unfolding assign_names
  assigned-names [] [] h = refl
  assigned-names [] (m ∷ ms) h = absurd h
  assigned-names (n ∷ ns) [] h = absurd h
  assigned-names (n ∷ ns) (m ∷ ms) h = elim (Bool-cases (equals n m)) [
    | inl b ↦
        let same : n ≡ m = (equals_iff n m).0 b in
        rw (b, assigned-names ns ms h.1) (ap (λ k. k ∷ ns) (sym same))
    | inr b ↦ rw (b, assigned-names ns ms h.1)
  ]

  record Created (names : List UString) (p : CifMap Value) : Type 0 where
    norms : List UString
    normalized : normalize_all icu hash names ≡ ok norms
    normal : Normal names norms
    has_head : p.head ≡ assign_names icu hash names (scalars norms)
    has_normalizer : p.normalizer ≡ item_normalizer icu
    standalone : p.is_standalone ≡ true

  packet_create-Created :
      (names : Option (List UString)) (p : CifMap Value)
      → packet_create icu hash names ≡ ok p
      → Created (given icu hash names) p
  unfolding packet_create packet_create_norm
  packet_create-Created names p h =
      let (norms, e, done) = >>=-eq-ok (normalize_all icu hash (given icu hash names)) _ h in
      let is_p = ok-injective done in
      record {
        norms = norms;
        normalized = e;
        normal = normalize_all-Normal (given icu hash names) norms e;
        has_head =
            sym (ap (λ (q : CifMap Value). q.head) is_p)
            ∙ ap (assign_names icu hash (given icu hash names)) (add_scalars-appends [] norms);
        has_normalizer = sym (ap (λ (q : CifMap Value). q.normalizer) is_p);
        standalone = sym (ap (λ (q : CifMap Value). q.is_standalone) is_p);
      }

  -- A packet that is created has the names as they were given, in their order, and owns its keys.
  pub packet_create-names :
      (names : Option (List UString)) (p : CifMap Value)
      → packet_create icu hash names ≡ ok p
      → (packet_get_names icu hash p ≡ given icu hash names) × (p.is_standalone ≡ true)
  unfolding packet_get_names
  packet_create-names names p h =
      let c = packet_create-Created names p h in
      (
        ap get_keys c.has_head ∙ assigned-names (given icu hash names) c.norms c.normal,
        c.standalone,
      )

  assigned-Lacks :
      (names norms : List UString) (k : UString)
      → Normal names norms
      → All (λ m. m ≢ k) norms
      → Lacks (assign_names icu hash names (scalars norms)) k
  unfolding assign_names
  assigned-Lacks [] [] k h a = tt
  assigned-Lacks [] (m ∷ ms) k h a = absurd h
  assigned-Lacks (n ∷ ns) [] k h a = tt
  assigned-Lacks (n ∷ ns) (m ∷ ms) k h a = elim (Bool-cases (equals n m)) [
    | inl b ↦ rw b (a.0, assigned-Lacks ns ms k h.1 a.1)
    | inr b ↦ rw b (a.0, assigned-Lacks ns ms k h.1 a.1)
  ]

  assigned-Distinct :
      (names norms : List UString)
      → Normal names norms
      → AllDistinct norms
      → Distinct (assign_names icu hash names (scalars norms))
  unfolding assign_names
  assigned-Distinct [] [] h a = tt
  assigned-Distinct [] (m ∷ ms) h a = absurd h
  assigned-Distinct (n ∷ ns) [] h a = tt
  assigned-Distinct (n ∷ ns) (m ∷ ms) h a = elim (Bool-cases (equals n m)) [
    | inl b ↦ rw b (assigned-Lacks ns ms m h.1 a.0, assigned-Distinct ns ms h.1 a.1)
    | inr b ↦ rw b (assigned-Lacks ns ms m h.1 a.0, assigned-Distinct ns ms h.1 a.1)
  ]

  assigned_spellings :
      (names norms : List UString)
      → Normal names norms
      → All
          (λ e. item_normalizer icu e.key_orig invalid_itemname ≡ ok e.key)
          (assign_names icu hash names (scalars norms))
  unfolding assign_names
  assigned_spellings [] [] h = tt
  assigned_spellings [] (m ∷ ms) h = absurd h
  assigned_spellings (n ∷ ns) [] h = tt
  assigned_spellings (n ∷ ns) (m ∷ ms) h = elim (Bool-cases (equals n m)) [
    | inl b ↦
        let same : n ≡ m = (equals_iff n m).0 b in
        rw b (
          subst (λ k. item_normalizer icu k invalid_itemname ≡ ok m) same h.0,
          assigned_spellings ns ms h.1,
        )
    | inr b ↦ rw b (h.0, assigned_spellings ns ms h.1)
  ]

  -- Where no two names have the same normal form, the packet that is created is well formed.
  pub packet_create-WellFormed :
      (names : Option (List UString)) (norms : List UString) (p : CifMap Value)
      → normalize_all icu hash (given icu hash names) ≡ ok norms
      → AllDistinct norms
      → packet_create icu hash names ≡ ok p
      → WellFormed hash clone unk p invalid_itemname
  packet_create-WellFormed names norms p e d h =
      let c = packet_create-Created names p h in
      let same : c.norms ≡ norms = ok-injective (sym c.normalized ∙ e) in
      record {
        distinct =
            subst Distinct (sym c.has_head)
              (assigned-Distinct (given icu hash names) c.norms c.normal (rw same d));
        normal =
            rw (c.has_normalizer, c.has_head)
              (assigned_spellings (given icu hash names) c.norms c.normal);
      }
