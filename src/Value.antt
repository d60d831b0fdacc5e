-- ===== src/Value.antt =====
-- The values of src/value.c: their kinds, initialization, cleaning and deep copies. Allocations
-- succeed, so a copy cannot fail; a number is its text and its digits.
pub mod Clone
pub mod Quoting
pub mod Listed
pub mod Keyed
pub mod Numbers
use cif_api.Base.{
  ℕ, zero, suc, ◌+◌, ◌-◌, Bool, true, false, Option, none, some, List, [], ◌∷◌, ltb, leb, UString,
  length,
}
use cif_api.Hash.{Entry}

-- The `int` of a scale.
pub data ℤ : Type 0 where
  pos negsuc : ℕ → ℤ

-- `struct numb_value_s`; `negative` is a `sign` of -1, and a NULL in `su_digits` is `none`.
pub record Numb : Type 0 where
  pub quoted : Bool
  pub text : UString
  pub negative : Bool
  pub digits : UString
  pub su_digits : Option UString
  pub scale : ℤ

-- `union cif_value_u`: a list has its elements, which make up its size, and its capacity; a table
-- has its entries, and whether its map is standalone. `true` is `CIF_QUOTED`.
mutual
  pub data Value : Type 0 where
    char : UString → Bool → Value
    numb : Numb → Value
    list : Elements → ℕ → Value
    table : Entries → Bool → Value
    na unk : Value

  pub data Elements : Type 0 where
    nil : Elements
    cons : Value → Elements → Elements

  pub data Entries : Type 0 where
    end : Entries
    entry : UString → UString → Value → Entries → Entries

unfoldable pub to_list : Elements → List Value
to_list nil = []
to_list (cons v vs) = v ∷ to_list vs

unfoldable pub of_list : List Value → Elements
of_list [] = nil
of_list (v ∷ vs) = cons v (of_list vs)

unfoldable pub to_entries : Entries → List (Entry Value)
to_entries end = []
to_entries (entry k o v es) =
    record { key = k; key_orig = o; shared = false; as_value = v } ∷ to_entries es

unfoldable pub of_entries : List (Entry Value) → Entries
of_entries [] = end
of_entries (e ∷ es) = entry e.key e.key_orig e.as_value (of_entries es)

-- `cif_list_init` and `cif_table_init`
abbrev pub list_init : Value
list_init = list nil 0

abbrev pub table_init : Value
table_init = table end true

-- `cif_kind_tp`, but for `CIF_NUMB_KIND`, which the number formatter initializes.
pub data Kind : Type 0 where
  char_kind list_kind table_kind na_kind unk_kind : Kind

-- What `cif_value_create` makes, and what `cif_value_init` leaves in place of a value.
pub create : Kind → Value
create char_kind = char [] true
create list_kind = list_init
create table_kind = table_init
create na_kind = na
create unk_kind = unk

-- `cif_value_clean`
abbrev pub clean : Value → Value
clean v = unk

-- `cif_value_init`
unfoldable pub init : Value → Kind → Value
unfolding create
init value kind = create kind

-- `cif_value_clone` and the functions for each kind
unfoldable mutual
  unfolding to_list

  pub clone : Value → Value
  clone (char text quoted) = char text quoted
  clone (numb n) = numb (record {
    quoted = n.quoted;
    text = n.text;
    negative = n.negative;
    digits = n.digits;
    su_digits = n.su_digits;
    scale = n.scale;
  })
  clone (list elements capacity) = list (clone_list elements) (length (to_list elements))
  clone (table entries is_standalone) = table (clone_table entries) true
  clone na = na
  clone unk = unk

  pub clone_list : Elements → Elements
  clone_list nil = nil
  clone_list (cons v vs) = cons (clone v) (clone_list vs)

  pub clone_table : Entries → Entries
  clone_table end = end
  clone_table (entry key key_orig v es) = entry key key_orig (clone v) (clone_table es)
