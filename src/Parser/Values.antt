-- ===== src/Parser/Values.antt =====
-- The values of a CIF, parsed from its tokens: `parse_value`, `parse_list` and `parse_table` of
-- src/parser.c, with their recovery from errors. An element of a list and an item of a table are
-- parsed in place; the model parses them and puts them there.
pub mod Total
use cif_api.Base.{
  ℕ, zero, suc, ◌+◌, ◌-◌, Bool, true, false, Option, none, some, List, [], ◌∷◌, ◌++◌, UString,
  length, ltb, leb, if◌then◌else◌, map, take,
}
use cif_api.Code.{Code, Result, ok, err}
use cif_api.Icu.{Icu}
use cif_api.Hash.{Uthash}
use cif_api.Map.{null, object}
use cif_api.Value.{Value, list, list_init, table_init, to_list, of_list}
use cif_api.Value.Listed.{expanded}
use cif_api.Value.Keyed.{set_item_by_key}
use cif_api.Scanner.Classes.{Dialect}
use cif_api.Scanner.State.{Scanner, Callback, consume_token}
use cif_api.Scanner.Decode.{Protocols}
use cif_api.Scanner.Tokens.{next_token}
use cif_api.Parser.Run.{Run, ◌>>=◌}
use cif_api.Parser.Steps.{
  ValueStep, open_list, open_table, whole, ListStep, element, closed, KeyStep, keyed, dropped,
  stray, finished, list_step, key_step, has_value, value_step,
}

-- What a parse function passes back: the value, and the scanner with the input behind it
abbrev pub Parsed : Type 0
Parsed = Value × Scanner × UString

-- An element at `next_index`, the end of the list
unfoldable pub append_element : Value → Value → Value
append_element (list elements capacity) v =
    list (of_list (to_list elements ++ (v ∷ []))) (expanded (length (to_list elements)) capacity)
append_element other v = other

module _ (icu : Icu) (hash : Uthash Value) (callback : Callback) (d : Dialect) (p : Protocols) where
  -- `cif_value_set_item_by_key`, unless the key is null
  unfoldable pub set_unless_null : Option UString → Value → Option Value → Result Value
  set_unless_null none tab v = ok tab
  set_unless_null (some key) tab none = set_item_by_key icu hash tab key null
  set_unless_null (some key) tab (some v) = set_item_by_key icu hash tab key (object false v)

  -- What follows a step, by the calls for the parts: a value, a list or a table that goes on.
  abbrev pub ParseValue : Type 0
  ParseValue = Scanner → UString → Run Parsed

  abbrev pub ParseMore : Type 0
  ParseMore = Value → Scanner → UString → Run Parsed

  abbrev pub after_value : ParseMore → ParseMore → UString → ValueStep → Run Parsed
  after_value on_list on_table rest (open_list s) = on_list list_init s rest
  after_value on_list on_table rest (open_table s) = on_table table_init s rest
  after_value on_list on_table rest (whole v s) = some (ok (v, s, rest))

  abbrev pub after_list : ParseValue → ParseMore → Value → ListStep → Run Parsed
  after_list on_value on_list lst (element s cs) =
      on_value s cs >>= λ (v, t, rest). on_list (append_element lst v) t rest
  after_list on_value on_list lst (closed s cs) = some (ok (lst, s, cs))

  abbrev pub after_key :
      ParseValue → ParseMore → (Option UString → ParseMore) → Value → KeyStep → Run Parsed
  after_key on_value on_table on_entry tab (keyed key s cs) = on_entry key tab s cs
  after_key on_value on_table on_entry tab (dropped s cs) = on_table tab s cs
  after_key on_value on_table on_entry tab (stray s cs) =
      on_value s cs >>= λ (v, t, rest). on_table tab t rest
  after_key on_value on_table on_entry tab (finished s cs) = some (ok (tab, s, cs))

  abbrev pub after_test :
      ParseValue → ParseMore → Option UString → Value → UString → Bool × Scanner → Run Parsed
  after_test on_value on_table key tab rest (false, s) = on_table tab s rest
  after_test on_value on_table key tab rest (true, s) = on_value s rest >>= λ (v, t, left).
      some (set_unless_null key tab (some v)) >>= λ tab₂. on_table tab₂ t left

  unfoldable mutual
    -- `parse_value`
    pub parse_value : ℕ → Scanner → UString → Run Parsed
    parse_value zero s cs = none
    parse_value (suc fuel) s cs = some (next_token callback d s cs) >>= λ (t, rest).
        some (value_step callback d p icu t.ttype t)
        >>= after_value (parse_list fuel) (parse_table fuel) rest

    -- The loop of `parse_list`, with the list so far
    pub parse_list : ℕ → Value → Scanner → UString → Run Parsed
    parse_list zero lst s cs = none
    parse_list (suc fuel) lst s cs = some (next_token callback d s cs) >>= λ (t, rest).
        some (list_step callback t.ttype t rest)
        >>= after_list (parse_value fuel) (parse_list fuel) lst

    -- The loop of `parse_table`, with the table so far
    pub parse_table : ℕ → Value → Scanner → UString → Run Parsed
    parse_table zero tab s cs = none
    parse_table (suc fuel) tab s cs = some (next_token callback d s cs) >>= λ (t, rest).
        some (key_step callback d p t.ttype t rest)
        >>= after_key (parse_value fuel) (parse_table fuel) (parse_entry fuel) tab

    -- "scan the value" of a key
    pub parse_entry : ℕ → Option UString → Value → Scanner → UString → Run Parsed
    parse_entry zero key tab s cs = none
    parse_entry (suc fuel) key tab s cs = some (set_unless_null key tab none) >>= λ tab₁.
        some (next_token callback d s cs) >>= λ (t, rest).
        some (has_value callback t.ttype t)
        >>= after_test (parse_value fuel) (parse_table fuel) key tab₁ rest
