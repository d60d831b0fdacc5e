-- ===== src/Analysis.antt =====
-- `cif_analyze_string` of src/utils.c, which chooses the delimiters of a string. Its counters are
-- 32-bit integers that the source deems sufficient; they are natural numbers here.
pub mod Counts
pub mod Pairs
pub mod Delimiters
use cif_api.Base.{
  ℕ, zero, suc, ◌+◌, ◌-◌, Bool, true, false, not, ◌&&◌, ◌||◌, Option, none, some, List, [], ◌∷◌,
  ltb, leb, ◌==◌, if◌then◌else◌, UString, length, get_or,
}
use cif_api.Chars.{nl, cr, tab, vt, sp, semi, sq, dq, bsl}
use cif_api.Icu.{Icu}
use cif_api.Reserved.{is_reserved_string}

-- The variables of the loop. `counts` is `char_counts`.
pub record State : Type 0 where
  pub counts : ℕ → ℕ
  pub first_line : ℕ
  pub this_line : ℕ
  pub max_line : ℕ
  pub len : ℕ
  pub consec_semis : ℕ
  pub most_semis : ℕ
  pub crlf_count : ℕ
  pub has_nl_semi : Bool
  pub has_trailing_ws : Bool

abbrev pub start : State
start = record {
  counts = λ c. 0;
  first_line = 0;
  this_line = 0;
  max_line = 0;
  len = 0;
  consec_semis = 0;
  most_semis = 0;
  crlf_count = 0;
  has_nl_semi = false;
  has_trailing_ws = false;
}

abbrev pub bump : ℕ → (ℕ → ℕ) → ℕ → ℕ
bump c counts i = if i == c then counts i + 1 else counts i

-- `char_counts[(ch < 127) ? ch : 127] += 1`
abbrev pub counted : ℕ → State → State
counted ch st = record st { counts = bump (if ltb ch 127 then ch else 127) st.counts }

-- `REMEMBER_SEMIS` and `TRACK_TRAILING_WS`
abbrev pub remember_semis : State → State
remember_semis st = record st {
  most_semis = if ltb st.most_semis st.consec_semis then st.consec_semis else st.most_semis;
}

abbrev pub is_blank : ℕ → Bool
is_blank c = c == sp || c == tab || c == vt

abbrev pub track_trailing_ws : UString → State → State
track_trailing_ws str st = record st {
  has_trailing_ws = st.has_trailing_ws || (ltb 0 st.len && is_blank (get_or str (st.len - 1) 0));
}

-- The maximum of the lines so far, and the length of the first line when just one terminator has
-- been counted.
abbrev pub measure_line : State → State
measure_line st =
    if st.counts nl + st.counts cr == 1
    then record st { first_line = st.this_line; max_line = st.this_line }
    else (if ltb st.max_line st.this_line then record st { max_line = st.this_line } else st)

-- The case of a line terminator.
pub end_line : UString → State → State
end_line str st =
    record (remember_semis (
      measure_line (
        track_trailing_ws str
          (record st { has_nl_semi = st.has_nl_semi || (get_or str (st.len + 1) 0 == semi) })))) {
            consec_semis = 0;
            this_line = 0;
          }

-- The switch on a character that has been counted.
pub classify : UString → ℕ → State → State
unfolding end_line
classify str ch st =
    if ch == cr && (get_or str (st.len + 1) 0 == nl)
    then track_trailing_ws str (record st { crlf_count = st.crlf_count + 1 })
    else (if ch == cr || ch == nl
        then end_line str st
        else (if ch == semi
            then record st { consec_semis = st.consec_semis + 1; this_line = st.this_line + 1 }
            else record (remember_semis st) { consec_semis = 0; this_line = st.this_line + 1 }))

-- One round of the loop, and the loop over the rest of the string.
pub step : UString → ℕ → State → State
unfolding classify
step str ch st = let next = classify str ch (counted ch st) in record next { len = next.len + 1 }

pub scan : UString → UString → State → State
unfolding step
scan str [] st = st
scan str (c ∷ cs) st = scan str cs (step str c st)

pub num_lines : State → ℕ
num_lines st = 1 + st.counts nl + st.counts cr - st.crlf_count

-- "handle the stats for the last line"
pub last_line : UString → State → State
unfolding num_lines
last_line str st =
    let done = track_trailing_ws str (remember_semis st) in
    if num_lines st == 1
    then record done { first_line = done.this_line; max_line = done.this_line }
    else (if ltb done.max_line done.this_line
        then record done { max_line = done.this_line }
        else done)

-- `struct cif_string_analysis_s`
pub record Analysis : Type 0 where
  pub delim : UString
  pub delim_length : ℕ
  pub has_reserved_start : Bool
  pub lines : ℕ
  pub len : ℕ
  pub length_first : ℕ
  pub length_last : ℕ
  pub length_max : ℕ
  pub contains_text_delim : Bool
  pub max_semi_run : ℕ
  pub has_trailing_ws : Bool

abbrev pub apos3 : UString
apos3 = sq ∷ sq ∷ sq ∷ []

abbrev pub quot3 : UString
quot3 = dq ∷ dq ∷ dq ∷ []

abbrev pub text_delim : UString
text_delim = nl ∷ semi ∷ []

-- The conditions for a string without delimiters.
pub fits_unquoted : UString → State → Bool
unfolding is_reserved_string
fits_unquoted str st =
    let first = get_or str 0 0 in
    ltb 0 st.len
    && (st.counts sp
          + st.counts tab
          + st.counts b'['
          + st.counts b']'
          + st.counts b'{'
          + st.counts b'}'
        == 0)
    && not (first == sq)
    && not (first == dq)
    && not (first == b'#')
    && not (first == b'$')
    && not (first == b'_')
    && not (first == semi)
    && (ltb 1 st.len || (not (first == b'?') && not (first == b'.')))
    && not (is_reserved_string str)

module _ (icu : Icu) where
  -- A triple delimiter that the text neither contains nor abuts.
  pub triple : UString → State → Option UString
  triple str st =
      let last = get_or str (st.len - 1) 0 in
      if not (last == sq) && not (icu.strstr str apos3)
      then some apos3
      else (if not (last == dq) && not (icu.strstr str quot3) then some quot3 else none)

  pub single : ℕ → State → Option UString
  single limit st =
      if leb (st.max_line + 2) limit
      then (if st.counts sq == 0
          then some (sq ∷ [])
          else (if st.counts dq == 0 then some (dq ∷ []) else none))
      else none

  -- The delimiters other than those of a text block, in the order of preference.
  pub inline_delim : UString → Bool → Bool → ℕ → State → Option UString
  unfolding fits_unquoted triple single num_lines
  inline_delim str allow_unquoted allow_triple_quoted limit st =
      let tripled = triple str st in
      if leb st.max_line limit
      then (if num_lines st == 1
          then (if allow_unquoted && fits_unquoted str st then some [] else elim (single limit st) [
            | some delim ↦ some delim
            | none ↦ if allow_triple_quoted && leb (st.max_line + 6) limit then tripled else none
          ])
          else (if allow_triple_quoted
                && ltb (st.this_line + 3) limit
                && ltb (st.first_line + 3) limit
              then tripled
              else none))
      else none

  -- Whether the first line ends with a backslash, apart from blanks; the argument counts down.
  pub ends_with_backslash : UString → ℕ → Bool
  ends_with_backslash str zero = false
  ends_with_backslash str (suc index) =
      let c = get_or str index 0 in
      let rest = ends_with_backslash str index in if c == tab || c == sp then rest else c == bsl

  -- `cif_analyze_string`
  pub analyze_string : UString → Bool → Bool → ℕ → Analysis
  unfolding scan last_line inline_delim ends_with_backslash num_lines
  analyze_string str allow_unquoted allow_triple_quoted limit =
      let st = last_line str (scan str str start) in
      let inline = inline_delim str allow_unquoted allow_triple_quoted limit st in
      let reserved = not (get_or str 0 0 == semi) && ends_with_backslash str st.first_line in
      record {
        delim = elim inline [ some delim ↦ delim | none ↦ text_delim ];
        delim_length = elim inline [ some delim ↦ length delim | none ↦ 2 ];
        has_reserved_start = elim inline [ some delim ↦ false | none ↦ reserved ];
        lines = num_lines st;
        len = st.len;
        length_first = st.first_line;
        length_last = st.this_line;
        length_max = st.max_line;
        contains_text_delim = st.has_nl_semi;
        max_semi_run = st.most_semis;
        has_trailing_ws = st.has_trailing_ws;
      }
