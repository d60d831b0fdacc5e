-- ===== src/Scanner/Delimited.antt =====
-- The scans of src/parser.c for delimited values: `scan_delim_string`, `scan_triple_delim_string`
-- and `scan_text`.
use cif_api.Base.{
  ℕ, ◌+◌, Bool, true, false, ◌&&◌, [], ◌∷◌, ltb, leb, ◌==◌, if◌then◌else◌, UString, length, get_or,
}
use cif_api.Chars.{nl, cr}
use cif_api.Code.{Result, unclosed_text, missing_endquote, ◌>>=◌}
use cif_api.Scanner.Classes.{Class, Dialect, class_of, is_eol_class}
use cif_api.Scanner.State.{
  Scanner, Callback, metaclass_of, is_ws_meta, raise, handle_eol, advance, back_up, end_of_token,
}
use cif_api.Scanner.Units.{scan_uchar, handle_unpaired_lead}
use cif_api.Scanner.Runs.{at_end}

abbrev pub is_semicolon : Class → Bool
is_semicolon Class.semicolon = true
is_semicolon _ = false

module _ (callback : Callback) (d : Dialect) where
  -- `scan_triple_delim_string`, whose opening delimiter has been read
  unfoldable pub scan_triple_delim_string :
      ℕ → ℕ → Bool → ℕ → UString → Scanner → Result (Scanner × UString)
  scan_triple_delim_string delim count lead sol [] s = at_end s do
    t ← handle_unpaired_lead callback d lead s
    u ← raise callback unclosed_text t.column [] t
    end_of_token 3 0 u []
  scan_triple_delim_string delim count lead sol (c ∷ cs) s =
      scan_uchar callback d c lead s >>= λ (c', lead', t).
      let next = scan_triple_delim_string delim (count + 1) lead' sol cs t in
      let eol = handle_eol callback c' sol t >>= λ (sol', u).
      scan_triple_delim_string delim 0 lead' sol' cs u in
      let other = scan_triple_delim_string delim 0 lead' 0 cs t in
      if c' == delim
      then (if leb 3 (count + 1) then end_of_token 3 3 t cs else next)
      else (if is_eol_class (class_of d c') then eol else other)

  -- "error: unterminated quoted string"
  abbrev end_of_line : Scanner → UString → Result (Scanner × UString)
  end_of_line s cs = raise callback missing_endquote s.column [] s >>= λ t. end_of_token 1 0 t cs

  -- What follows a character that is the delimiter: the string goes on, or is closed, or the
  -- delimiter is a triple one, whose third character does not count for the column.
  unfoldable pub after_delim :
      ℕ
      → Result (Scanner × UString)
      → Result (Scanner × UString)
      → Scanner
      → UString
      → Result (Scanner × UString)
  after_delim delim more closed s [] = at_end s closed
  after_delim delim more closed s (c ∷ cs) =
      if ltb d.cif_version 2
      then (if is_ws_meta (metaclass_of d c) then closed else more)
      else (if length s.back == 2 && c == delim
          then scan_triple_delim_string delim 0 false 0 cs (advance c s)
          else closed)

  -- `scan_delim_string`
  unfoldable pub scan_delim_string : ℕ → Bool → UString → Scanner → Result (Scanner × UString)
  unfolding after_delim
  scan_delim_string delim lead [] s =
      at_end s (handle_unpaired_lead callback d lead s >>= λ t. end_of_line t [])
  scan_delim_string delim lead (c ∷ cs) s = scan_uchar callback d c lead s >>= λ (c', lead', t).
      let more = scan_delim_string delim lead' cs t in
      let closed = end_of_token 1 1 t cs in
      let at_delim = after_delim delim more closed t cs in
      if c' == delim
      then at_delim
      else (if is_eol_class (class_of d c') then end_of_line (back_up t) (c' ∷ cs) else more)

  -- The closing delimiter is a semicolon and the line terminator before it.
  abbrev pub text_delim_size : UString → ℕ
  text_delim_size back = if get_or back 1 0 == nl && get_or back 2 0 == cr then 3 else 2

  -- `scan_text`
  unfoldable pub scan_text : Bool → ℕ → UString → Scanner → Result (Scanner × UString)
  scan_text lead sol [] s = at_end s do
    t ← handle_unpaired_lead callback d lead s
    u ← raise callback unclosed_text t.column [] t
    end_of_token 1 0 u []
  scan_text lead sol (c ∷ cs) s = scan_uchar callback d c lead s >>= λ (c', lead', t).
      let same = scan_text lead' sol cs t in
      let other = scan_text lead' 0 cs t in
      let closed = end_of_token 1 (text_delim_size t.back) t cs in
      let eol = handle_eol callback c' sol t >>= λ (sol', u). scan_text lead' sol' cs u in
      if is_semicolon (class_of d c')
      then (if sol == 0 then same else closed)
      else if is_eol_class (class_of d c')
      then eol
      else other
