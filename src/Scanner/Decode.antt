-- ===== src/Scanner/Decode.antt =====
-- `decode_text` of src/parser.c: the value of a text block, by the line-folding and line-prefix
-- protocols. `text` is the block between its delimiters; the memory errors are left out.
pub mod OneLine
pub mod Block
use cif_api.Base.{
  ℕ, zero, suc, ◌+◌, ◌-◌, Bool, true, false, not, ◌&&◌, ◌||◌, Option, none, some, List, [], ◌∷◌,
  ◌++◌, ltb, leb, ◌==◌, if◌then◌else◌, UString, length, take, drop, get_or, equals,
}
use cif_api.Chars.{nl, cr, semi, bsl}
use cif_api.Scanner.Classes.{Dialect, Class, class_of, is_eol_class, is_ws_class}

-- The options `line_unfolding > 0` and `prefix_removing > 0`.
pub record Protocols : Type 0 where
  pub line_unfolding : Bool
  pub prefix_removing : Bool

-- The statistics of the first line, what was copied of it, and the input behind it. `prefix_end`
-- is one more than the offset of the last backslash, 0 if there is none.
pub record First : Type 0 where
  pub prefix_end : ℕ
  pub backslash_count : ℕ
  pub nonws : Bool
  pub copied : UString
  pub rest : UString

-- One line of folded or prefixed text: what it adds to the buffer, and the input behind it.
pub record Line : Type 0 where
  pub text : UString
  pub rest : UString

-- The line feed of a CR LF pair is skipped.
skip_nl : UString → UString
skip_nl [] = []
skip_nl (c ∷ cs) = if c == nl then cs else c ∷ cs

-- "consume the prefix, if any"
pub consume_prefix : UString → UString → UString
consume_prefix prefix input =
    if equals (take (length prefix) input) prefix then drop (length prefix) input else input

module _ (d : Dialect) where
  abbrev is_eol : ℕ → Bool
  is_eol c = is_eol_class (class_of d c)

  abbrev is_ws : ℕ → Bool
  is_ws c = is_ws_class (class_of d c)

  -- "scan the first line of the text for a prefix and/or line-folding signature"
  first_line : ℕ → First → UString → First
  unfolding skip_nl
  first_line pos s [] = record s { rest = [] }
  first_line pos s (c ∷ cs) =
      let at_cr = record s { copied = s.copied ++ (nl ∷ []); rest = skip_nl cs } in
      let at_eol = record s { copied = s.copied ++ (c ∷ []); rest = cs } in
      let next =
        first_line (pos + 1)
          (record s {
            copied = s.copied ++ (c ∷ []);
            prefix_end = if c == bsl then pos + 1 else s.prefix_end;
            backslash_count = if c == bsl then s.backslash_count + 1 else s.backslash_count;
            nonws = if c == bsl then false else (s.nonws || not (is_ws c));
          })
          cs in
      if c == bsl
      then next
      else if c == cr
      then at_cr
      else if c == nl || is_eol c
      then at_eol
      else next

  -- "copy the rest of the text, performing line terminator conversion as appropriate"
  copy_plain : Bool → UString → UString
  copy_plain after_cr [] = []
  copy_plain after_cr (c ∷ cs) =
      let skip = after_cr && c == nl in
      let more = copy_plain (not skip && is_eol c && c == cr) cs in
      if skip then more else (if is_eol c && not (c == nl) then nl else c) ∷ more

  -- "copy from input to buffer, up to and including EOL, accounting for folding if applicable";
  -- `rewind` is the line's buffer as it was before the last backslash, if only white space follows.
  pub copy_line : Bool → UString → Option UString → UString → Line
  unfolding skip_nl
  copy_line folded out rewind [] = let line : Line = record { text = out; rest = [] } in line
  copy_line folded out rewind (c ∷ cs) =
      let ended : Line = record {
        text = elim rewind [ none ↦ out ++ (nl ∷ []) | some start ↦ start ];
        rest = if c == cr then skip_nl cs else cs;
      } in
      let fold = copy_line folded (out ++ (c ∷ [])) (some out) cs in
      let keep = copy_line folded (out ++ (c ∷ [])) rewind cs in
      let next = copy_line folded (out ++ (c ∷ [])) none cs in
      if c == bsl && folded
      then fold
      else if is_eol c
      then ended
      else if is_ws c
      then keep
      else next

  -- "process the text line-by-line"; the fuel bounds the lines.
  pub decode_lines : ℕ → Bool → UString → UString → UString
  unfolding copy_line consume_prefix
  decode_lines zero folded prefix input = []
  decode_lines (suc fuel) folded prefix [] = []
  decode_lines (suc fuel) folded prefix (c ∷ cs) =
      let line = copy_line folded [] none (consume_prefix prefix (c ∷ cs)) in
      line.text ++ decode_lines fuel folded prefix line.rest

  -- The decision after the first line.
  abbrev prefix_length : Protocols → First → ℕ
  prefix_length p f = if p.prefix_removing then f.prefix_end - f.backslash_count else 0

  abbrev is_marked : UString → ℕ → First → Bool
  is_marked text n f =
      not f.nonws
      && (f.backslash_count == 1 || (f.backslash_count == 2 && ltb 0 n && get_or text n 0 == bsl))

  -- `decode_text`
  unfoldable pub decode_text : Protocols → UString → UString
  unfolding first_line copy_plain decode_lines
  decode_text p [] = []
  decode_text p (c ∷ cs) =
      let text = c ∷ cs in
      let f =
        first_line 0
          (record { prefix_end = 0; backslash_count = 0; nonws = false; copied = []; rest = [] })
          text in
      let n = prefix_length p f in
      let folded = (n == 0 || f.backslash_count == 2) && p.line_unfolding in
      if c == semi || (not p.line_unfolding && not p.prefix_removing)
      then copy_plain false text
      else if not (is_marked text n f)
      then f.copied ++ copy_plain false f.rest
      else if not folded && n == 0
      then copy_plain false f.rest
      else decode_lines (length text) folded (take n text) f.rest
