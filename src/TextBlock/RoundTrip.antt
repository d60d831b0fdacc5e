-- ===== src/TextBlock/RoundTrip.antt =====
-- A text block that `write_text` (src/ciffile.c) folds or prefixes, read by `decode_text`
-- (src/parser.c): the text comes back, but for a line feed at its very end.
use cif_api.Base.{true, List, [], ◌∷◌, ◌==◌, if◌then◌else◌, UString, All, ◌≡◌, ◌≢◌}
use cif_api.Chars.{nl, cr}
use cif_api.Scanner.Decode.{Protocols}
use cif_api.Writer.Text.{lines}

-- The text without a line feed at its end.
unfoldable pub chomp : UString → UString
chomp [] = []
chomp (c ∷ []) = if c == nl then [] else c ∷ []
chomp (c ∷ d ∷ cs) = c ∷ chomp (d ∷ cs)

-- A text behind the line feed that the writer puts before its first line.
led : UString → UString
unfolding chomp
led [] = []
led (c ∷ cs) = nl ∷ chomp (c ∷ cs)

record Split (s : UString) : Type 0 where
  first : UString
  others : List UString
  splits : lines s ≡ first ∷ others

-- No carriage return stands in the text, so that its lines hold no line terminator.
abbrev pub NoCr : UString → Type 0
NoCr s = All (λ c. c ≢ cr) s

-- A scanner in CIF 2 mode, with the default options, recognizes both protocols.
abbrev pub both : Protocols
both = record { line_unfolding = true; prefix_removing = true }
