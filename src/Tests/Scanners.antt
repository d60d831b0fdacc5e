-- ===== src/Tests/Scanners.antt =====
-- Concrete inputs for the theorems on the scanner and the parser of src/parser.c.
use cif_api.Base.{
  ◌≡◌, ◌≢◌, ◌⊎◌, ◌++◌, ◌+◌, ◌*◌, ◌<◌, ◌≤◌, true, not, none, some, [], ◌∷◌, UString, length, refl,
  arith,
}
use cif_api.Chars.{sp, sq}
use cif_api.Code.{ok}
use cif_api.Value.{Value}
use cif_api.Scanner.Classes.{Dialect, class_of}
use cif_api.Scanner.Classes.Standard.{standard}
use cif_api.Scanner.State.{Scanner, Callback, TokenType, space, metaclass_of, general_meta}
use cif_api.Scanner.Keywords.{word_of}
use cif_api.Scanner.Keywords.Agreement.{is_plain, word_of-is_reserved_string}
use cif_api.Reserved.{is_reserved_string}
use cif_api.Scanner.Tokens.{next_token, tvalue, separated, scan_token}
use cif_api.Scanner.Tokens.Progress.{next_token-advances}
use cif_api.Scanner.Tokens.Quoted.{Readable, blank, next_token-write_quoted}
use cif_api.Writer.Columns.Quoted.{write_quoted}
use cif_api.Parser.Values.{parse_value}
use cif_api.Parser.Values.Total.{parse_value_total}
use cif_api.Tests.{plain_icu, list_hash}

-- A callback that ignores every error, and a scanner at the start of its input
abbrev ignore : Callback
ignore = λ reports. none

abbrev cif2 : Dialect
cif2 = standard 2

abbrev at_start : Scanner
at_start = record {
  back = [];
  ttype = TokenType.end;
  tvalue_start = 0;
  tvalue_length = 0;
  line = 1;
  column = 0;
  skip_depth = 0;
  input_error = none;
  reports = [];
}

replacement_general : metaclass_of cif2 0xfffd ≡ general_meta
unfolding class_of
replacement_general = refl

-- `[a`, without its end
abbrev open_list_text : UString
open_list_text = 0x5b ∷ (b'a' ∷ [])

parse_value_total_example :
    (parse_value plain_icu
        (list_hash Value)
        ignore
        cif2
        (record { line_unfolding = true; prefix_removing = true })
        (3 * length open_list_text + 1)
        at_start
        open_list_text
      ≢ none)
    × ((v : Value) (t : Scanner) (rest : UString)
        → parse_value plain_icu
            (list_hash Value)
            ignore
            cif2
            (record { line_unfolding = true; prefix_removing = true })
            (3 * length open_list_text + 1)
            at_start
            open_list_text
          ≡ some (ok (v, t, rest))
        → length t.back + length rest < length open_list_text)
parse_value_total_example =
    parse_value_total plain_icu (list_hash Value) ignore cif2
      (record { line_unfolding = true; prefix_removing = true }) at_start open_list_text
      replacement_general refl

abbrev a_left : UString
a_left = b'a' ∷ []

abbrev bracket_token : Scanner
bracket_token = record at_start {
  back = 0x5b ∷ [];
  ttype = TokenType.olist;
  tvalue_length = 1;
  column = 1;
  reports = space 1 1 [] ∷ [];
}

bracket_read : next_token ignore cif2 at_start open_list_text ≡ ok (bracket_token, a_left)
unfolding next_token class_of separated scan_token
bracket_read = refl

next_token-advances_example :
    (bracket_token.ttype ≢ TokenType.error)
    × (length bracket_token.back + length a_left ≤ length open_list_text)
    × (((bracket_token.ttype ≡ TokenType.end) × (a_left ≡ [])) ⊎ (0 < length bracket_token.back))
next_token-advances_example =
    next_token-advances ignore cif2 at_start open_list_text replacement_general refl bracket_read

-- `loop_`
word_of-is_reserved_string_example :
    is_plain (word_of cif2 (b'l' ∷ (b'o' ∷ (b'o' ∷ (b'p' ∷ (b'_' ∷ []))))))
    ≡ not (is_reserved_string (b'l' ∷ (b'o' ∷ (b'o' ∷ (b'p' ∷ (b'_' ∷ []))))))
word_of-is_reserved_string_example =
    word_of-is_reserved_string cif2 (b'l' ∷ (b'o' ∷ (b'o' ∷ (b'p' ∷ (b'_' ∷ [])))))
      (omega arith, (omega arith, (omega arith, (omega arith, (omega arith, tt))))) refl

unfoldable pub two_words : UString
two_words = b'b' ∷ (sp ∷ (b'c' ∷ []))

pub two_words-Readable : Readable cif2 sq two_words sp
unfolding class_of two_words
two_words-Readable = record {
  quote = refl;
  allowed = (refl, refl, refl, refl);
  inside = (
    ((refl, refl, refl, refl), refl, refl),
    (((refl, refl, refl, refl), refl, refl), (((refl, refl, refl, refl), refl, refl), tt)),
  );
  white = refl;
}

next_token-write_quoted_example :
    (t : Scanner) × (next_token ignore cif2 at_start
        ((write_quoted two_words sq blank).output ++ (sp ∷ []))
      ≡ ok (t, sp ∷ []))
    × (t.ttype ≡ TokenType.qvalue)
    × (tvalue t ≡ two_words)
    × (t.reports ≡ space 1 1 [] ∷ [])
next_token-write_quoted_example =
    next_token-write_quoted ignore cif2 at_start sq two_words sp [] two_words-Readable
      (unfold two_words in omega arith) refl refl
