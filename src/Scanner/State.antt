-- ===== src/Scanner/State.antt =====
-- The state of the scanner of src/parser.c (`struct scanner_s` of src/internal/ciftypes.h), its
-- metaclasses, its calls of the user's callbacks and its accounting of lines and columns.
--
-- The buffer is modelled by its contents: `back` has the code units from `text_start` to
-- `next_char`, the last one first, and the input behind `next_char`, as `get_more_chars` delivers
-- it, is an argument of each function. `tvalue_start` counts from `text_start`.
use cif_api.Base.{
  ℕ, ◌+◌, ◌-◌, ◌*◌, ◌%◌, Bool, true, false, Option, none, some, List, [], ◌∷◌, ltb, ◌==◌,
  if◌then◌else◌, UString, length, line_length,
}
use mathlib.Core.List.{reverse}
use cif_api.Chars.{nl, cr}
use cif_api.Code.{Code, Result, ok, err, overlength_line, ◌>>=◌}
use cif_api.Scanner.Classes.{Class, Dialect, class_of}

-- `enum token_type`
pub data TokenType : Type 0 where
  block_head frame_head frame_term loopkw name otable ctable olist clist key tkey : TokenType
  value qvalue tvalue end error : TokenType

pub data Metaclass : Type 0 where
  no_meta general_meta ws_meta open_meta close_meta : Metaclass

-- `meta_class[clazz]`
abbrev pub meta_class : Class → Metaclass
meta_class Class.no_class = no_meta
meta_class Class.ws = ws_meta
meta_class Class.eol = ws_meta
meta_class Class.obrak = open_meta
meta_class Class.ocurl = open_meta
meta_class Class.cbrak = close_meta
meta_class Class.ccurl = close_meta
meta_class _ = general_meta

abbrev pub metaclass_of : Dialect → ℕ → Metaclass
metaclass_of d c = meta_class (class_of d c)

abbrev pub is_ws_meta : Metaclass → Bool
is_ws_meta ws_meta = true
is_ws_meta _ = false

-- A call of `error_callback`, or of `whitespace_callback`, `keyword_callback` or
-- `dataname_callback`, which return nothing, with its line, column and text.
pub data Report : Type 0 where
  fault : Code → ℕ → ℕ → UString → Report
  space keyword dataname : ℕ → ℕ → UString → Report

pub record Scanner : Type 0 where
  pub back : UString
  pub ttype : TokenType
  pub tvalue_start : ℕ
  pub tvalue_length : ℕ
  pub line : ℕ
  pub column : ℕ
  pub skip_depth : ℕ
  -- What a read behind the last character gives: the end of the file, or an error.
  pub input_error : Option Code
  -- The calls so far, the latest one first: what `user_data` may depend on.
  pub reports : List Report

-- What `error_callback` returns: nothing for `CIF_OK`.
abbrev pub Callback : Type 0
Callback = List Report → Option Code

-- The token's text, and its value
abbrev pub text_of : Scanner → UString
text_of s = reverse s.back

-- `*(next_char - 1)` replaced
abbrev pub replace_last : ℕ → UString → UString
replace_last c [] = []
replace_last c (b ∷ bs) = c ∷ bs

abbrev pub behind : UString → UString
behind [] = []
behind (b ∷ bs) = bs

-- `scanner->next_char += 1`
abbrev pub advance : ℕ → Scanner → Scanner
advance c s = record s { back = c ∷ s.back }

-- `BACK_UP`; the caller puts the character before its input again.
abbrev pub back_up : Scanner → Scanner
back_up s = record s { back = behind s.back; column = s.column - 1 }

-- `CONSUME_TOKEN`
abbrev pub consume_token : Scanner → Scanner
consume_token s = record s { back = []; tvalue_start = 0; tvalue_length = 0 }

-- "end_of_token", behind a value with an opening and a closing delimiter of the given sizes
abbrev pub end_of_token : ℕ → ℕ → Scanner → UString → Result (Scanner × UString)
end_of_token open_size delim_size s cs =
    let start = s.tvalue_start + open_size in
    ok (record s { tvalue_start = start; tvalue_length = length s.back - start - delim_size }, cs)

-- The optional call of `whitespace_callback`, which returns nothing.
abbrev pub notify : UString → Scanner → Scanner
notify text s = record s { reports = space s.line s.column text ∷ s.reports }

module _ (callback : Callback) where
  -- A call of `error_callback`, and the return of its result unless it is `CIF_OK`
  abbrev pub raise : Code → ℕ → UString → Scanner → Result Scanner
  raise code column text s =
      let calls = fault code s.line column text ∷ s.reports in
      elim (callback calls) [ none ↦ ok (record s { reports = calls }) | some stop ↦ err stop ]

  abbrev pub raise_if : Bool → Code → UString → Scanner → Result Scanner
  raise_if test code text s = if test then raise code s.column text s else ok s

  -- The state that `HANDLE_EOL` stores: the last two line terminators.
  abbrev pub next_sol : ℕ → ℕ → ℕ
  next_sol c state = (state * 4 + (if c == nl then 1 else if c == cr then 2 else 3)) % 16

  -- `HANDLE_EOL`
  unfoldable pub handle_eol : ℕ → ℕ → Scanner → Result (ℕ × Scanner)
  handle_eol c state s = raise_if (ltb line_length s.column) overlength_line [] s >>= λ t. ok (
    next_sol c state,
    record t { line = t.line + (if next_sol c state == 9 then 0 else 1); column = 0 },
  )
