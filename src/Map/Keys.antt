-- ===== src/Map/Keys.antt =====
-- Entries of the maps of src/map.c by their keys: what a write, an addition and a deletion do to a
-- lookup, and that the keys stay distinct.
use cif_api.Base.{
  equals_refl, equals-other, Option, none, some, List, [], ◌∷◌, ◌++◌, UString, All, equals,
  equals_iff, Bool-cases, ◌≡◌, ◌≢◌, refl, sym, inl, inr,
}
use cif_api.Hash.{Entry, lookup, without}
use cif_api.Map.{modify}

module _ {V : Type 0} where
  -- The value under a key, if there is one.
  abbrev pub value_of : Option (Entry V) → Option V
  value_of none = none
  value_of (some e) = some e.as_value

  pub lookup-key :
      (es : List (Entry V)) (k : UString) (e : Entry V) → lookup es k ≡ some e → e.key ≡ k
  unfolding lookup
  lookup-key [] k e h = cc
  lookup-key (x ∷ xs) k e h = elim (Bool-cases (equals x.key k)) [
    | inl b ↦
        let same : x.key ≡ k = (equals_iff x.key k).0 b in
        let found : some x ≡ some e = rw b at h in cc
    | inr b ↦ lookup-key xs k e (rw b at h)
  ]

  pub lookup-modify :
      (es : List (Entry V)) (k : UString) (f : Entry V → Entry V) (e : Entry V)
      → lookup es k ≡ some e
      → (f e).key ≡ k
      → lookup (modify es k f) k ≡ some (f e)
  unfolding lookup modify
  lookup-modify [] k f e h g = cc
  lookup-modify (x ∷ xs) k f e h g = elim (Bool-cases (equals x.key k)) [
    | inl b ↦
        let found : some x ≡ some e = rw b at h in
        let is_e : x ≡ e = cc in rw (b, is_e, g, equals_refl k)
    | inr b ↦ rw (b, b) (lookup-modify xs k f e (rw b at h) g)
  ]

  pub lookup-modify-other :
      (es : List (Entry V)) (k l : UString) (f : Entry V → Entry V)
      → ((e : Entry V) → (f e).key ≡ e.key)
      → k ≢ l
      → lookup (modify es k f) l ≡ lookup es l
  unfolding lookup modify
  lookup-modify-other [] k l f g ne = refl
  lookup-modify-other (x ∷ xs) k l f g ne = elim (Bool-cases (equals x.key k)) [
    | inl b ↦
        let same : x.key ≡ k = (equals_iff x.key k).0 b in rw (b, g x, same, equals-other k l ne)
    | inr b ↦ rw (b, lookup-modify-other xs k l f g ne)
  ]

  pub lookup-add :
      (es : List (Entry V)) (e : Entry V)
      → lookup es e.key ≡ none
      → lookup (es ++ (e ∷ [])) e.key ≡ some e
  unfolding lookup
  lookup-add [] e h = rw (equals_refl e.key)
  lookup-add (x ∷ xs) e h = elim (Bool-cases (equals x.key e.key)) [
    | inl b ↦ absurd (cc (b, h))
    | inr b ↦ rw b (lookup-add xs e (rw b at h))
  ]

  pub lookup-add-other :
      (es : List (Entry V)) (e : Entry V) (l : UString)
      → e.key ≢ l
      → lookup (es ++ (e ∷ [])) l ≡ lookup es l
  unfolding lookup
  lookup-add-other [] e l ne = rw (equals-other e.key l ne)
  lookup-add-other (x ∷ xs) e l ne = rw (lookup-add-other xs e l ne)

  -- No entry has the key; no two entries share a key.
  abbrev pub Lacks : List (Entry V) → UString → Type 0
  Lacks es k = All (λ e. e.key ≢ k) es

  abbrev pub Distinct : List (Entry V) → Type 0
  Distinct [] = Unit
  Distinct (e ∷ es) = Lacks es e.key × Distinct es

  pub lookup-Lacks : (es : List (Entry V)) (k : UString) → lookup es k ≡ none → Lacks es k
  unfolding lookup
  lookup-Lacks [] k h = tt
  lookup-Lacks (x ∷ xs) k h = elim (Bool-cases (equals x.key k)) [
    | inl b ↦ absurd (cc (b, h))
    | inr b ↦ ((λ e. cc (b, (equals_iff x.key k).1 e)), lookup-Lacks xs k (rw b at h))
  ]

  pub Lacks-lookup : (es : List (Entry V)) (k : UString) → Lacks es k → lookup es k ≡ none
  unfolding lookup
  Lacks-lookup [] k h = refl
  Lacks-lookup (x ∷ xs) k h = rw (equals-other x.key k h.0) (Lacks-lookup xs k h.1)

  pub lookup-without :
      (es : List (Entry V)) (k : UString) → Distinct es → lookup (without es k) k ≡ none
  unfolding lookup without
  lookup-without [] k d = refl
  lookup-without (x ∷ xs) k d = elim (Bool-cases (equals x.key k)) [
    | inl b ↦
        let same : x.key ≡ k = (equals_iff x.key k).0 b in rw b (Lacks-lookup xs k (rw same at d.0))
    | inr b ↦ rw (b, b) (lookup-without xs k d.1)
  ]

  pub lookup-without-other :
      (es : List (Entry V)) (k l : UString) → k ≢ l → lookup (without es k) l ≡ lookup es l
  unfolding lookup without
  lookup-without-other [] k l ne = refl
  lookup-without-other (x ∷ xs) k l ne = elim (Bool-cases (equals x.key k)) [
    | inl b ↦ let same : x.key ≡ k = (equals_iff x.key k).0 b in rw (b, same, equals-other k l ne)
    | inr b ↦ rw (b, lookup-without-other xs k l ne)
  ]

  pub All-without {κ} :
      (P : Entry V → Type κ) (es : List (Entry V)) (k : UString) → All P es → All P (without es k)
  unfolding without
  All-without P [] k h = tt
  All-without P (x ∷ xs) k h = elim (Bool-cases (equals x.key k)) [
    | inl b ↦ rw b h.1
    | inr b ↦ rw b (h.0, All-without P xs k h.1)
  ]

  pub All-modify {κ} :
      (P : Entry V → Type κ) (es : List (Entry V)) (k : UString) (f : Entry V → Entry V)
      → ((e : Entry V) → e.key ≡ k → P e → P (f e))
      → All P es
      → All P (modify es k f)
  unfolding modify
  All-modify P [] k f g h = tt
  All-modify P (x ∷ xs) k f g h = elim (Bool-cases (equals x.key k)) [
    | inl b ↦ rw b (g x ((equals_iff x.key k).0 b) h.0, h.1)
    | inr b ↦ rw b (h.0, All-modify P xs k f g h.1)
  ]

  pub All-add {κ} :
      (P : Entry V → Type κ) (es : List (Entry V)) (e : Entry V)
      → All P es
      → P e
      → All P (es ++ (e ∷ []))
  All-add P [] e h p = (p, tt)
  All-add P (x ∷ xs) e h p = (h.0, All-add P xs e h.1 p)

  pub Distinct-without : (es : List (Entry V)) (k : UString) → Distinct es → Distinct (without es k)
  unfolding without
  Distinct-without [] k d = tt
  Distinct-without (x ∷ xs) k d = elim (Bool-cases (equals x.key k)) [
    | inl b ↦ rw b d.1
    | inr b ↦ rw b (All-without (λ e. e.key ≢ x.key) xs k d.0, Distinct-without xs k d.1)
  ]

  pub Distinct-modify :
      (es : List (Entry V)) (k : UString) (f : Entry V → Entry V)
      → ((e : Entry V) → (f e).key ≡ e.key)
      → Distinct es
      → Distinct (modify es k f)
  unfolding modify
  Distinct-modify [] k f g d = tt
  Distinct-modify (x ∷ xs) k f g d = elim (Bool-cases (equals x.key k)) [
    | inl b ↦ rw (b, g x) (d.0, d.1)
    | inr b ↦ rw b (
      All-modify (λ e. e.key ≢ x.key) xs k f (λ e _ h. rw (g e) h) d.0,
      Distinct-modify xs k f g d.1,
    )
  ]

  pub Distinct-add :
      (es : List (Entry V)) (e : Entry V) → Lacks es e.key → Distinct es → Distinct (es ++ (e ∷ []))
  Distinct-add [] e l d = (tt, tt)
  Distinct-add (x ∷ xs) e l d =
      (All-add (λ y. y.key ≢ x.key) xs e d.0 (λ h. l.0 (sym h)), Distinct-add xs e l.1 d.1)
