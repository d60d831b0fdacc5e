-- ===== src/Scanner/Tokens.antt =====
-- `next_token` of src/parser.c: the next token of the input, behind white space and comments.
pub mod Scans
pub mod Progress
pub mod Quoted
pub mod Spaced
use cif_api.Base.{
  ℕ, zero, suc, ◌+◌, ◌-◌, Bool, true, false, not, ◌&&◌, ◌||◌, Option, none, some, List, [], ◌∷◌,
  ltb, leb, ◌==◌, if◌then◌else◌, UString, length, take, drop,
}
use cif_api.Code.{Code, Result, ok, err, missing_space, reserved_word, ◌>>=◌}
use cif_api.Scanner.Classes.{Class, Dialect, class_of}
use cif_api.Scanner.State.{
  Scanner, Callback, TokenType, meta_class, Metaclass, close_meta, ws_meta, raise, advance, back_up,
  consume_token, text_of, notify,
}
use cif_api.Scanner.Runs.{scan_ws, scan_to_ws, scan_to_eol, scan_unquoted, at_end}
use cif_api.Scanner.Delimited.{scan_delim_string, scan_text}
use cif_api.Scanner.Keywords.{
  Word, plain, data_header, save_header, save_end, loop_keyword, reserved, word_of,
}

abbrev pub is_empty : UString → Bool
is_empty [] = true
is_empty (c ∷ cs) = false

-- What the scan that starts at a character has found.
pub data Found : Type 0 where
  whitespace comment : Found
  token : TokenType → Found

-- "Any token may follow these without intervening whitespace"
abbrev pub needs_no_space : TokenType → Bool
needs_no_space TokenType.olist = true
needs_no_space TokenType.otable = true
needs_no_space TokenType.key = true
needs_no_space TokenType.tkey = true
needs_no_space TokenType.end = true
needs_no_space _ = false

-- The text from `TVALUE_START`, of `TVALUE_LENGTH`
abbrev pub tvalue : Scanner → UString
tvalue s = take s.tvalue_length (drop s.tvalue_start (text_of s))

-- `NEXT_CHAR` at the start of a token
abbrev next_char : ℕ → Scanner → Scanner
next_char c s = advance c (record s { tvalue_start = 0; tvalue_length = 0; column = s.column + 1 })

abbrev found : Found → Result (Scanner × UString) → Result (Found × Scanner × UString)
found f r = r >>= λ (s, cs). ok (f, s, cs)

-- A bracket or brace
abbrev single_char : TokenType → Scanner → UString → Result (Found × Scanner × UString)
single_char t s cs = ok (token t, record s { tvalue_length = 1 }, cs)

-- A colon behind a delimited value makes it a key; the colon does not count for the column.
abbrev pub key_or : TokenType → TokenType → Scanner → UString → Result (Found × Scanner × UString)
key_or as_key as_value s [] = at_end s (ok (token as_value, s, []))
key_or as_key as_value s (c ∷ cs) =
    if c == b':' then ok (token as_key, advance c s, cs) else ok (token as_value, s, c ∷ cs)

module _ (callback : Callback) (d : Dialect) where
  -- "Require whitespace separation between most tokens, and track the end of whitespace runs"
  unfoldable pub separated : Bool → Class → Scanner → Result Scanner
  separated after_ws class s =
      let required =
        (if after_ws then ok s else raise callback missing_space (s.column - 1) [] s) in
      elim (meta_class class) [
        | ws_meta ↦ ok s
        | close_meta ↦ ok (notify [] s)
        | _ ↦ elim class [ Class.hash ↦ required | _ ↦ required >>= λ t. ok (notify [] t) ]
      ]

  abbrev plain_value : UString → Scanner → Result (Found × Scanner × UString)
  plain_value cs s = found (token TokenType.value) (scan_unquoted callback d 0 true true false cs s)

  -- The switch over the class of the first character `c`, which has been read.
  unfoldable pub scan_token : Class → ℕ → UString → Scanner → Result (Found × Scanner × UString)
  scan_token Class.eol c cs s = found whitespace (scan_ws callback d 0 (c ∷ cs) (back_up s))
  scan_token Class.ws c cs s = found whitespace (scan_ws callback d 0 cs s)
  scan_token Class.hash c cs s = found comment (scan_to_eol callback d false cs s)
  scan_token Class.underscore c cs s =
      found (token TokenType.name) (scan_to_ws callback d false cs s)
  scan_token Class.obrak c cs s = single_char TokenType.olist s cs
  scan_token Class.cbrak c cs s = single_char TokenType.clist s cs
  scan_token Class.ocurl c cs s = single_char TokenType.otable s cs
  scan_token Class.ccurl c cs s = single_char TokenType.ctable s cs
  scan_token Class.quote c cs s = scan_delim_string callback d c false cs s >>= λ (t, rest).
      key_or TokenType.key TokenType.qvalue t rest
  scan_token Class.semicolon c cs s =
      if s.column == 1
      then (scan_text callback d false 0 cs s >>= λ (t, rest).
          if leb 2 d.cif_version
          then key_or TokenType.tkey TokenType.tvalue t rest
          else ok (token TokenType.tvalue, t, rest))
      else plain_value cs s
  scan_token _ c cs s = plain_value (c ∷ cs) (back_up s)

  -- A header or keyword, whose value starts behind the underscore
  abbrev pub header : TokenType → Scanner → Scanner
  header t s = record s {
    ttype = t;
    tvalue_start = s.tvalue_start + 5;
    tvalue_length = s.tvalue_length - 5;
  }

  -- "this token type must not escape": the fuel has run out
  abbrev exhausted : Scanner → UString → Result (Scanner × UString)
  exhausted s cs = ok (record s { ttype = TokenType.error }, cs)

  -- What a value without delimiters turns out to be; a reserved word is dropped.
  finish_word : Word → Scanner → Result Scanner
  finish_word plain s = ok (record s { ttype = TokenType.value })
  finish_word data_header s = ok (header TokenType.block_head s)
  finish_word save_header s = ok (header TokenType.frame_head s)
  finish_word save_end s = ok (header TokenType.frame_term s)
  finish_word loop_keyword s = ok (header TokenType.loopkw s)
  finish_word reserved s =
      raise callback reserved_word (s.column - s.tvalue_length) (tvalue s) s >>= λ t.
      ok (consume_token (record t { ttype = TokenType.value }))

  -- The end of a round, with `after_ws` as it is then; white space and comments are consumed.
  pub finish_round : Found → Bool → Scanner → Result (Bool × Scanner)
  unfolding finish_word
  finish_round whitespace after_ws s =
      ok (true, consume_token (if s.skip_depth == 0 then notify (tvalue s) s else s))
  finish_round comment after_ws s = ok (after_ws, consume_token (notify (tvalue s) s))
  finish_round (token TokenType.value) after_ws s =
      finish_word (word_of d (tvalue s)) s >>= λ t. ok (after_ws, t)
  finish_round (token t) after_ws s = ok (after_ws, record s { ttype = t })

  -- The loop of `next_token`, which ends when there is a token, `text_start < next_char`.
  unfoldable pub token_loop : ℕ → Bool → Scanner → UString → Result (Scanner × UString)
  unfolding finish_round
  token_loop zero after_ws s cs = exhausted s cs
  token_loop (suc fuel) after_ws s [] =
      at_end s (ok (record s { ttype = TokenType.end; tvalue_start = 0; tvalue_length = 0 }, []))
  token_loop (suc fuel) after_ws s (c ∷ cs) = do
    t ← separated after_ws (class_of d c) (next_char c s)
    (kind, u, rest) ← scan_token (class_of d c) c cs t
    (spaced, v) ← finish_round kind after_ws u
    let next = token_loop fuel spaced v rest
    if is_empty v.back then next else ok (v, rest)

  -- `next_token`: a token that is ready, or the next one
  unfoldable pub next_token : Scanner → UString → Result (Scanner × UString)
  unfolding token_loop
  next_token s cs =
      if is_empty s.back
      then token_loop (suc (length cs)) (needs_no_space s.ttype) s cs
      else ok (s, cs)
