-- ===== src/Value/Listed.antt =====
-- The elements of list values in src/value.c: reading, replacing, inserting and removing them.
pub mod Laws
use cif_api.Base.{
  ℕ, zero, suc, ◌+◌, ◌-◌, ◌/◌, Bool, true, false, Option, none, some, List, [], ◌∷◌, ◌++◌, ltb, leb,
  if◌then◌else◌, length, get_or, take,
}
use cif_api.Code.{Code, Result, ok, err, argument_error, invalid_index}
use cif_api.Array.{set_slot, move_back, move_forward}
use cif_api.Map.{Argument, null, object}
use cif_api.Value.{Value, list, table, unk, Elements, to_list, of_list, to_entries, clone, clean}

-- `cif_value_get_element_count`
unfoldable pub get_element_count : Value → Result ℕ
unfolding to_list to_entries
get_element_count (list elements capacity) = ok (length (to_list elements))
get_element_count (table entries is_standalone) = ok (length (to_entries entries))
get_element_count _ = err argument_error

-- `cif_value_get_element_at`
unfoldable pub get_element_at : Value → ℕ → Result Value
unfolding to_list
get_element_at (list elements capacity) index =
    if leb (length (to_list elements)) index
    then err invalid_index
    else ok (get_or (to_list elements) index unk)
get_element_at _ index = err argument_error

-- What `cif_value_set_element_at` makes of the target: nothing if it is the element given.
abbrev pub replacement : Value → Argument Value → Value
unfolding clone
replacement target null = clean target
replacement target (object same element) = if same then target else clone element

-- `cif_value_set_element_at`
unfoldable pub set_element_at : Value → ℕ → Argument Value → Result Value
unfolding replacement to_list of_list
set_element_at (list elements capacity) index element =
    let slots = to_list elements in
    if leb (length slots) index
    then err invalid_index
    else ok (
        list (of_list (set_slot unk index (replacement (get_or slots index unk) element) slots))
          capacity)
set_element_at _ index element = err argument_error

-- "expand list capacity"
abbrev pub expanded : ℕ → ℕ → ℕ
expanded size capacity =
    if leb capacity size then capacity + (if ltb capacity 10 then 4 else capacity / 2) else capacity

-- The value to insert: a new one of unknown kind for NULL, or a copy.
abbrev pub inserted : Option Value → Value
unfolding clone
inserted none = unk
inserted (some element) = clone element

-- `cif_value_insert_element_at`; the slot behind the last element is not initialized.
unfoldable pub insert_element_at : Value → ℕ → Option Value → Result Value
unfolding inserted to_list of_list move_back
insert_element_at (list elements capacity) index element =
    let size = length (to_list elements) in
    let slots = to_list elements ++ (unk ∷ []) in
    if ltb size index
    then err invalid_index
    else ok (
        list (of_list (set_slot unk index (inserted element) (move_back unk size index slots)))
          (expanded size capacity))
insert_element_at _ index element = err argument_error

-- `cif_value_remove_element_at`: the element, and the list that is left.
unfoldable pub remove_element_at : Value → ℕ → Result (Value × Value)
unfolding to_list of_list move_forward
remove_element_at (list elements capacity) index =
    let slots = to_list elements in
    let size = length slots in
    if leb size index
    then err invalid_index
    else ok (
      get_or slots index unk,
      list (of_list (take (size - 1) (move_forward unk size index size slots))) capacity,
    )
remove_element_at _ index = err argument_error
