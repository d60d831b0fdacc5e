-- ===== src/Parser/Steps.antt =====
-- What `parse_value`, `parse_list` and `parse_table` of src/parser.c do with the next token: the
-- cases of their switches, errors and recoveries included.
pub mod Progress
use cif_api.Base.{
  ℕ, zero, suc, ◌+◌, ◌-◌, Bool, true, false, Option, none, some, List, [], ◌∷◌, ◌++◌, UString,
  length, ltb, leb, ◌==◌, if◌then◌else◌, take, drop, equals, get_or,
}
use mathlib.Core.List.{reverse}
use cif_api.Code.{
  Code, Result, ok, err, internal_error, argument_error, invalid_bare_value, missing_space,
  missing_delim, missing_key, missing_value, null_key, unquoted_key, misquoted_key, ◌>>=◌,
}
use cif_api.Icu.{Icu}
use cif_api.Value.{Value, char, na, unk}
use cif_api.Value.Quoting.{set_quoted, try_quoted, unk_string, na_string}
use cif_api.Scanner.Classes.{Dialect}
use cif_api.Scanner.State.{
  Scanner, Callback, TokenType, raise, consume_token, text_of, behind, notify,
}
use cif_api.Scanner.Decode.{Protocols, decode_text}
use cif_api.Scanner.Tokens.{tvalue}

-- A value's token: the start of a list or a table, or the whole value, whose token is consumed.
pub data ValueStep : Type 0 where
  open_list open_table : Scanner → ValueStep
  whole : Value → Scanner → ValueStep

-- An element is next in a list, or the list is over.
pub data ListStep : Type 0 where
  element closed : Scanner → UString → ListStep

-- In a table: a key (or the colon of a null key), an entry that was dropped, a value without a key
-- that is to be dropped, or the end.
pub data KeyStep : Type 0 where
  keyed : Option UString → Scanner → UString → KeyStep
  dropped stray finished : Scanner → UString → KeyStep

-- `CONSUME_TOKEN` behind a key that keeps the first `n` characters of the token: `TRIM_TOKEN`
abbrev pub trim_token : ℕ → Scanner → UString → Scanner × UString
trim_token n s cs = (record s { back = reverse (take n (text_of s)) }, drop n (text_of s) ++ cs)

-- The first colon at an offset that is not 0
unfoldable pub find_colon : ℕ → UString → Option ℕ
find_colon i [] = none
find_colon i (c ∷ cs) = let rest = find_colon (i + 1) cs in if c == b':' then some i else rest

abbrev pub key_colon : UString → Option ℕ
key_colon [] = none
key_colon (c ∷ cs) = find_colon 1 cs

module _ (callback : Callback) where
  -- An error at the token
  abbrev pub raise_at : Code → Scanner → Result Scanner
  raise_at code s = raise callback code (s.column - s.tvalue_length) (tvalue s) s

  -- "recover by pushing back the colon"
  unfoldable pub push_colon : TokenType → Scanner → UString → Result ListStep
  push_colon alt s cs = do
    t ← raise_at missing_space s
    ok (element (notify [] (record t { back = behind t.back; ttype = alt })) (b':' ∷ cs))

  -- The switch of `parse_list`
  unfoldable pub list_step : TokenType → Scanner → UString → Result ListStep
  unfolding push_colon
  list_step TokenType.tkey s cs = push_colon TokenType.tvalue s cs
  list_step TokenType.key s cs = push_colon TokenType.qvalue s cs
  list_step TokenType.olist s cs = ok (element s cs)
  list_step TokenType.otable s cs = ok (element s cs)
  list_step TokenType.tvalue s cs = ok (element s cs)
  list_step TokenType.qvalue s cs = ok (element s cs)
  list_step TokenType.value s cs = ok (element s cs)
  list_step TokenType.clist s cs = ok (closed (consume_token s) cs)
  list_step _ s cs = raise_at missing_delim s >>= λ t. ok (closed t cs)

  -- "recover by accepting everything before the first colon as a key"
  unfoldable pub unquoted_key_step : Scanner → UString → Result KeyStep
  unquoted_key_step s cs = elim (key_colon (tvalue s)) [
    | none ↦ raise_at missing_key s >>= λ t. ok (dropped (consume_token t) cs)
    | some i ↦ raise_at unquoted_key s >>= λ t.
        let (u, rest) = trim_token (i + 1) t cs in
        ok (
          keyed (some (take i (tvalue t))) (consume_token (record u { ttype = TokenType.key }))
            rest)
  ]

  -- A token without delimiters in place of a key
  unfoldable pub bare_key_step : Scanner → UString → Result KeyStep
  unfolding unquoted_key_step
  bare_key_step s cs =
      if get_or (tvalue s) 0 0 == b':'
      then (raise_at null_key s >>= λ t.
          let (u, rest) = trim_token 1 t cs in
          if ltb 1 t.tvalue_length
          then ok (keyed none (consume_token u) rest)
          else ok (keyed none (consume_token t) cs))
      else unquoted_key_step s cs

  -- Whether the value of a key is next; "recover by using an unknown value"
  unfoldable pub has_value : TokenType → Scanner → Result (Bool × Scanner)
  has_value TokenType.olist s = ok (true, s)
  has_value TokenType.otable s = ok (true, s)
  has_value TokenType.tvalue s = ok (true, s)
  has_value TokenType.qvalue s = ok (true, s)
  has_value TokenType.value s = ok (true, s)
  has_value _ s = raise_at missing_value s >>= λ t. ok (false, t)

  module _ (d : Dialect) (p : Protocols) where
    -- The switch of `parse_table` over the token of a key
    unfoldable pub key_step : TokenType → Scanner → UString → Result KeyStep
    unfolding bare_key_step
    key_step TokenType.value s cs = bare_key_step s cs
    key_step TokenType.key s cs = ok (keyed (some (tvalue s)) (consume_token s) cs)
    key_step TokenType.tkey s cs = raise_at misquoted_key s >>= λ t.
        ok (keyed (some (decode_text d p (tvalue t))) (consume_token t) cs)
    key_step TokenType.qvalue s cs = raise_at missing_key s >>= λ t. ok (stray t cs)
    key_step TokenType.tvalue s cs = raise_at missing_key s >>= λ t. ok (stray t cs)
    key_step TokenType.olist s cs = raise_at missing_key s >>= λ t. ok (stray t cs)
    key_step TokenType.otable s cs = raise_at missing_key s >>= λ t. ok (stray t cs)
    key_step TokenType.ctable s cs = ok (finished (consume_token s) cs)
    key_step _ s cs =
        raise callback missing_delim (s.column - s.tvalue_length) [] s >>= λ t. ok (finished t cs)

    module _ (icu : Icu) where
      -- "recover simply by leaving the value marked as quoted"
      or_quoted : Result Value → Value → Scanner → Result ValueStep
      or_quoted (ok v) value s = ok (whole v (consume_token s))
      or_quoted (err argument_error) value s =
          raise callback invalid_bare_value s.column (take 1 (tvalue s)) s >>= λ t.
          ok (whole value (consume_token t))
      or_quoted (err code) value s = err code

      -- A value that was scanned without delimiters
      unfoldable pub bare_value : Scanner → Result ValueStep
      unfolding or_quoted
      bare_value s =
          let text = char (tvalue s) true in
          if equals (tvalue s) unk_string
          then ok (whole unk (consume_token s))
          else if equals (tvalue s) na_string
          then ok (whole na (consume_token s))
          else or_quoted
              (if ltb d.cif_version 2 then try_quoted icu text false else set_quoted icu text false)
              text s

      -- The switch of `parse_value`
      unfoldable pub value_step : TokenType → Scanner → Result ValueStep
      unfolding bare_value
      value_step TokenType.olist s = ok (open_list (consume_token s))
      value_step TokenType.otable s = ok (open_table (consume_token s))
      value_step TokenType.tvalue s =
          ok (whole (char (decode_text d p (tvalue s)) true) (consume_token s))
      value_step TokenType.qvalue s = ok (whole (char (tvalue s) true) (consume_token s))
      value_step TokenType.value s = bare_value s
      value_step _ s = err internal_error
