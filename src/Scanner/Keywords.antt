-- ===== src/Scanner/Keywords.antt =====
-- The reserved words of the scanner: the end of `next_token` of src/parser.c, which knows them by
-- the classes of their characters.
pub mod Agreement
use cif_api.Base.{
  ℕ, zero, suc, ◌+◌, ◌-◌, Bool, true, false, not, ◌&&◌, ◌||◌, List, [], ◌∷◌, ltb, leb, ◌==◌,
  if◌then◌else◌, UString, length, get_or,
}
use cif_api.Scanner.Classes.{Class, Dialect, class_of, class_code}

-- What a token without delimiters is: a header, a keyword, a reserved word that is an error, or
-- a value.
pub data Word : Type 0 where
  plain data_header save_header save_end loop_keyword reserved : Word

module _ (d : Dialect) (token : UString) where
  -- `CLASS_OF(token[i], scanner) == clazz`
  abbrev pub at_is : ℕ → Class → Bool
  at_is i class = class_code (class_of d (get_or token i 0)) == class_code class

  -- The words with an underscore at offset 4
  unfoldable pub short_word : Word
  short_word =
      let five = length token == 5 in
      if at_is 0 Class.letter_d
        && at_is 1 Class.letter_a
        && at_is 2 Class.letter_t
        && at_is 3 Class.letter_a
      then (if five then reserved else data_header)
      else if at_is 0 Class.letter_s
          && at_is 1 Class.letter_a
          && at_is 2 Class.letter_v
          && at_is 3 Class.letter_e
      then (if five then save_end else save_header)
      else if five && at_is 2 Class.letter_o && at_is 3 Class.letter_p
      then (if at_is 0 Class.letter_l && at_is 1 Class.letter_o
          then loop_keyword
          else if at_is 0 Class.letter_s && at_is 1 Class.letter_t
          then reserved
          else plain)
      else plain

  unfoldable pub is_global_word : Bool
  is_global_word =
      length token == 7
      && at_is 6 Class.underscore
      && at_is 0 Class.letter_g
      && at_is 1 Class.letter_l
      && at_is 2 Class.letter_o
      && at_is 3 Class.letter_b
      && at_is 4 Class.letter_a
      && at_is 5 Class.letter_l

  -- "detection of reserved words"
  unfoldable pub word_of : Word
  unfolding short_word is_global_word
  word_of =
      if ltb 4 (length token) && at_is 4 Class.underscore
      then short_word
      else if is_global_word
      then reserved
      else plain
