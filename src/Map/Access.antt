-- ===== src/Map/Access.antt =====
-- When `convert_to_standalone` of src/map.c makes a map standalone, and what `cif_map_set_item` does
-- to a map that is.
use cif_api.Base.{
  ℕ, suc, ◌+◌, ◌≤◌, Bool, true, false, List, [], ◌∷◌, if◌then◌else◌, UString, length, Bool-cases,
  All, ◌≡◌, refl, sym, ap, ◌∙◌, inl, inr, arith, leb,
}
use cif_api.Code.{ok-injective, Code, ok, err, internal_error}
use cif_api.Hash.{Entry, Uthash, lookup}
use cif_api.Map.{
  CifMap, Argument, copy_keys, assign_keys, slot, convert_to_standalone, different_key, store,
  or_error, set_item,
}

module _ {V : Type 0} where
  -- The copies stop short: the index runs ahead of the items.
  copy_keys-err :
      (count next : ℕ) (e : Entry V) (es : List (Entry V))
      → count ≤ next + (length es + length es)
      → copy_keys count next (e ∷ es) ≡ err internal_error
  unfolding copy_keys
  copy_keys-err count next e [] h = ground arith
  copy_keys-err count next e (d ∷ es) h =
      let more : copy_keys count (next + 1 + 1) (d ∷ es) ≡ err internal_error =
        copy_keys-err count (next + 1 + 1) d es (omega arith) in
      rw more (elim (Bool-cases (leb count next)) [ inl b ↦ rw b | inr b ↦ rw b ])

  -- The two keys of an entry are two allocations; so are those of every entry.
  abbrev pub KeysApart : List (Entry V) → Type 0
  KeysApart es = All (λ e. e.shared ≡ false) es

  pub unshared : (e : Entry V) → e.shared ≡ false → record e { shared = false } ≡ e
  unshared e h = rw (← h)

  few :
      (m : CifMap V) (es : List (Entry V))
      → KeysApart es
      → length es ≤ 1
      → convert_to_standalone (record m { head = es; is_standalone = false })
        ≡ ok (record m { head = es; is_standalone = true })
  unfolding convert_to_standalone copy_keys assign_keys slot
  few m [] apart h = refl
  few m (e ∷ []) apart h =
      ap (λ (d : Entry V). ok (record m { head = d ∷ []; is_standalone = true }))
        (unshared e apart.0)
  few m (e ∷ d ∷ es) apart h = absurd (omega arith)

  many :
      (m : CifMap V) (es : List (Entry V))
      → 2 ≤ length es
      → convert_to_standalone (record m { head = es; is_standalone = false }) ≡ err internal_error
  unfolding convert_to_standalone
  many m [] h = absurd (omega arith)
  many m (e ∷ es) h = rw (copy_keys-err (suc (length es)) 0 e es (omega arith))

  kept : (m : CifMap V) (b : Bool) → m.is_standalone ≡ b → record m { is_standalone = b } ≡ m
  kept m b h = rw (← h)

  -- A map that is standalone stays as it is.
  pub convert_to_standalone-standalone :
      (m : CifMap V) → m.is_standalone ≡ true → convert_to_standalone m ≡ ok m
  unfolding convert_to_standalone
  convert_to_standalone-standalone m b = rw b

  -- A map of at most one item, whose keys are apart, becomes standalone, with its entry.
  pub convert_to_standalone-few :
      (m : CifMap V)
      → KeysApart m.head
      → m.is_standalone ≡ false
      → length m.head ≤ 1
      → convert_to_standalone m ≡ ok (record m { is_standalone = true })
  convert_to_standalone-few m apart b l =
      ap convert_to_standalone (sym (kept m false b)) ∙ few m m.head apart l

  -- The copies of more than one key do not fit.
  convert_to_standalone-err :
      (m : CifMap V)
      → m.is_standalone ≡ false
      → 2 ≤ length m.head
      → convert_to_standalone m ≡ err internal_error
  convert_to_standalone-err m b l =
      ap convert_to_standalone (sym (kept m false b)) ∙ many m m.head l

  -- A conversion that succeeds keeps the entries, where their keys are apart, and the normalizer.
  pub convert-keeps :
      (m s : CifMap V)
      → KeysApart m.head
      → convert_to_standalone m ≡ ok s
      → s ≡ record m { is_standalone = true }
  convert-keeps m s apart h = elim (Bool-cases m.is_standalone) [
    | inl b ↦ ok-injective (sym h ∙ convert_to_standalone-standalone m b) ∙ sym (kept m true b)
    | inr b ↦ elim (Bool-cases (leb (length m.head) 1)) [
      | inl l ↦ ok-injective (sym h ∙ convert_to_standalone-few m apart b (ground arith))
      | inr l ↦
          let fails : convert_to_standalone m ≡ err internal_error =
            convert_to_standalone-err m b (ground arith) in
          absurd (cc (fails, h))
    ]
  ]

module _ {V : Type 0} (hash : Uthash V) (clone : V → V) (unknown : V) where
  -- On a standalone map, an item is set whenever its key can be normalized.
  pub set_item-standalone :
      (m : CifMap V) (key kn : UString) (value : Argument V) (code : Code)
      → m.is_standalone ≡ true
      → m.normalizer key code ≡ ok kn
      → set_item hash clone unknown m key value code
        ≡ ok (store hash clone unknown m (lookup m.head kn) kn key value)
  unfolding set_item
  set_item-standalone m key kn value code b e =
      let stays : convert_to_standalone m ≡ ok m = convert_to_standalone-standalone m b in
      let either : (d : Bool)
          → (if d then or_error hash clone unknown (convert_to_standalone m) else ok m) ≡ ok m =
        (λ d. rw stays (elim (Bool-cases d) [ inl t ↦ rw t | inr t ↦ rw t ])) in
      rw (
        e,
        hash.find-lookup m.head kn,
        either (different_key hash clone unknown (lookup m.head kn) key),
      )
