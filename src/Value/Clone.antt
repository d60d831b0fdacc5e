-- ===== src/Value/Clone.antt =====
-- `cif_value_clone` of src/value.c: a copy has the content of the original, at every depth.
use cif_api.Base.{true, length, ◌≡◌, refl, ◌≤◌, arith}
use cif_api.Value.{
  Value, char, numb, list, table, na, unk, Elements, nil, cons, Entries, end, entry, clone,
  clone_list, clone_table, to_list,
}

-- Two values with the same content: the capacities of lists and the ownership of keys aside.
mutual
  pub Same : Value → Value → Type 0
  Same (char s q) (char t r) = (s ≡ t) × (q ≡ r)
  Same (numb n) (numb m) = n ≡ m
  Same (list vs c) (list ws d) = SameList vs ws
  Same (table es b) (table fs d) = SameTable es fs
  Same na na = Unit
  Same unk unk = Unit
  Same _ _ = ⊥

  pub SameList : Elements → Elements → Type 0
  SameList nil nil = Unit
  SameList (cons v vs) (cons w ws) = Same v w × SameList vs ws
  SameList _ _ = ⊥

  pub SameTable : Entries → Entries → Type 0
  SameTable end end = Unit
  SameTable (entry k o v es) (entry l p w fs) = (k ≡ l) × (o ≡ p) × Same v w × SameTable es fs
  SameTable _ _ = ⊥

-- Every list, at every depth, fits in its array, and every table owns its keys.
mutual
  unfolding to_list

  pub IsSound : Value → Type 0
  IsSound (list vs capacity) = (length (to_list vs) ≤ capacity) × AreSound vs
  IsSound (table es is_standalone) = (is_standalone ≡ true) × HoldSound es
  IsSound _ = Unit

  pub AreSound : Elements → Type 0
  AreSound nil = Unit
  AreSound (cons v vs) = IsSound v × AreSound vs

  pub HoldSound : Entries → Type 0
  HoldSound end = Unit
  HoldSound (entry k o v es) = IsSound v × HoldSound es

mutual
  unfolding clone Same

  copied : (v : Value) → Same (clone v) v
  copied (char s q) = (refl, refl)
  copied (numb n) = refl
  copied (list vs c) = copied_list vs
  copied (table es b) = copied_table es
  copied na = tt
  copied unk = tt

  copied_list : (vs : Elements) → SameList (clone_list vs) vs
  copied_list nil = tt
  copied_list (cons v vs) = (copied v, copied_list vs)

  copied_table : (es : Entries) → SameTable (clone_table es) es
  copied_table end = tt
  copied_table (entry k o v es) = (refl, refl, copied v, copied_table es)

length-clone_list : (vs : Elements) → length (to_list (clone_list vs)) ≡ length (to_list vs)
unfolding clone_list to_list
length-clone_list nil = refl
length-clone_list (cons v vs) = omega (arith, length-clone_list vs)

mutual
  unfolding clone IsSound

  roomy : (v : Value) → IsSound (clone v)
  roomy (char s q) = tt
  roomy (numb n) = tt
  roomy (list vs c) = (omega (arith, length-clone_list vs), roomy_list vs)
  roomy (table es b) = (refl, roomy_table es)
  roomy na = tt
  roomy unk = tt

  roomy_list : (vs : Elements) → AreSound (clone_list vs)
  roomy_list nil = tt
  roomy_list (cons v vs) = (roomy v, roomy_list vs)

  roomy_table : (es : Entries) → HoldSound (clone_table es)
  roomy_table end = tt
  roomy_table (entry k o v es) = (roomy v, roomy_table es)

mutual
  unfolding clone

  clone_again : (v : Value) → clone (clone v) ≡ clone v
  clone_again (char s q) = refl
  clone_again (numb n) = refl
  clone_again (list vs c) = rw (clone_again_list vs, length-clone_list vs)
  clone_again (table es b) = rw (clone_again_table es)
  clone_again na = refl
  clone_again unk = refl

  clone_again_list : (vs : Elements) → clone_list (clone_list vs) ≡ clone_list vs
  clone_again_list nil = refl
  clone_again_list (cons v vs) = rw (clone_again v, clone_again_list vs)

  clone_again_table : (es : Entries) → clone_table (clone_table es) ≡ clone_table es
  clone_again_table end = refl
  clone_again_table (entry k o v es) = rw (clone_again v, clone_again_table es)

-- A copy has the content of the original, its lists fit in their arrays and its tables own their
-- keys, whatever the original does; and a copy of a copy is the copy.
pub clone-Same : (v : Value) → Same (clone v) v × IsSound (clone v) × (clone (clone v) ≡ clone v)
clone-Same v = (copied v, roomy v, clone_again v)
