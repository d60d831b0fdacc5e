-- ===== src/Writer/Text.antt =====
-- `write_text` of src/ciffile.c, which writes a text block by the line-folding and the line-prefix
-- protocols. The output stream is the list of the code units written; that a write to it fails is
-- left out, so the counts that the source compares are met.
use cif_api.Base.{
  ℕ, zero, suc, ◌-◌, Bool, false, not, ◌&&◌, ◌||◌, List, [], ◌∷◌, ◌++◌, leb, ◌==◌, if◌then◌else◌,
  UString, length, take, drop, line_length,
}
use cif_api.Chars.{nl, tab, sp, semi, bsl}
use cif_api.Code.{Result, ok, err, internal_error, ◌>>=◌}
use cif_api.Writer.Fold.{fold_line}

-- `PREFIX`, `FOLDING_WINDOW` and `target_length`
abbrev pub prefix_text : UString
prefix_text = b'>' ∷ sp ∷ []

abbrev pub folding_window : ℕ
folding_window = 6

abbrev pub target_length : ℕ
target_length = line_length - 8

unfoldable pub cons_to_first : ℕ → List UString → List UString
cons_to_first c [] = (c ∷ []) ∷ []
cons_to_first c (l ∷ ls) = (c ∷ l) ∷ ls

-- The logical lines of a text: the source puts a NUL over each line feed.
unfoldable pub lines : UString → List UString
unfolding cons_to_first
lines [] = [] ∷ []
lines (c ∷ cs) = if c == nl then [] ∷ lines cs else cons_to_first c (lines cs)

-- Whether the line ends with a backslash, apart from blanks ("determine whether it needs to be
-- protected"); `protect` is the flag so far.
unfoldable pub needs_protection : Bool → Bool → UString → Bool
needs_protection fold protect [] = protect
needs_protection fold protect (c ∷ cs) =
    needs_protection fold
      (if c == tab || c == sp then protect else if c == bsl then fold else false) cs

module _ (fold prefix : Bool) where
  abbrev prefix_chars : UString
  prefix_chars = if prefix then prefix_text else []

  -- "each folded segment, until the line is consumed"; the fuel bounds the segments.
  unfoldable pub segments : ℕ → Bool → UString → Result UString
  segments fuel protect [] = ok []
  segments zero protect (c ∷ cs) = err internal_error
  segments (suc fuel) protect (c ∷ cs) =
      let tok = c ∷ cs in
      let len = fold_line tok fold target_length folding_window prefix in
      let more = drop len tok in
      let mark = if leb 1 (length more) || protect then bsl ∷ [] else [] in
      let rest = segments fuel protect more in
      if len == 0
      then err internal_error
      else (do tail ← rest; ok (nl ∷ (prefix_chars ++ (take len tok ++ (mark ++ tail)))))

  -- One logical line, with the line feed that ends a protected one.
  unfoldable pub write_line : UString → Result UString
  unfolding segments needs_protection
  write_line line =
      let protect = needs_protection fold false line in
      do text ← segments (length line) protect line; ok (text ++ (if protect then nl ∷ [] else []))

  -- "each logical line, delimited from the previous one by a newline". An empty line is written as
  -- a line feed if a line feed ends it, and not at all at the end of the text.
  unfoldable pub write_lines : List UString → Result UString
  unfolding write_line
  write_lines [] = ok []
  write_lines ([] ∷ []) = ok []
  write_lines ([] ∷ (l ∷ ls)) = do rest ← write_lines (l ∷ ls); ok (nl ∷ rest)
  write_lines ((c ∷ cs) ∷ ls) = do
    line ← write_line (c ∷ cs)
    rest ← write_lines ls
    ok (line ++ rest)

  -- "opening delimiter and flags", behind the opening line feed and semicolon
  abbrev pub flags : UString
  flags = (if prefix then prefix_text ++ (bsl ∷ []) else []) ++ (if fold then bsl ∷ [] else [])

  -- The block between its delimiters.
  unfoldable pub block_content : UString → Result UString
  unfolding write_lines lines
  block_content text =
      if not fold && not prefix
      then ok text
      else (do body ← write_lines (lines text); ok (flags ++ body))

  -- `write_text`; the source asserts that the text is not empty.
  unfoldable pub write_text : UString → Result UString
  unfolding block_content
  write_text text = do content ← block_content text; ok (nl ∷ semi ∷ (content ++ (nl ∷ semi ∷ [])))
