-- ===== src/Tests/Texts.antt =====
-- The theorems on text blocks and on the choice of delimiters at concrete texts.
use cif_api.Base.{
  ◌+◌, ◌<◌, true, false, [], ◌∷◌, UString, length, ◌≡◌, refl, arith, inl, inr, line_length,
}
use cif_api.Chars.{nl, sp, bsl}
use cif_api.Writer.Fold.{fold_line}
use cif_api.Writer.Fold.Positive.{fold_line-pos}
use cif_api.Writer.Text.{write_text}
use cif_api.TextBlock.Total.{IsOk, write_text-IsOk}
use cif_api.Analysis.{analyze_string}
use cif_api.Analysis.Counts.{count}
use cif_api.Analysis.Pairs.{pairs}
use cif_api.Analysis.Delimiters.{analyze_string-lines}
use cif_api.Tests.{plain_icu}

-- Two lines, of which the first ends with a backslash.
abbrev two_lines : UString
two_lines = b'a' ∷ bsl ∷ nl ∷ b'b' ∷ sp ∷ []

-- What the writer makes of them under line folding, between the delimiters.
abbrev folded_content : UString
folded_content = bsl ∷ nl ∷ b'a' ∷ bsl ∷ bsl ∷ nl ∷ nl ∷ b'b' ∷ sp ∷ []

write_text-IsOk_example : IsOk (write_text true false two_lines)
write_text-IsOk_example =
    write_text-IsOk true false two_lines (λ e. cc e)
      (inr (omega arith, (omega arith, (omega arith, (omega arith, (omega arith, tt))))))

fold_line-pos_example :
    (0 < fold_line (b'a' ∷ sp ∷ []) true 10 6 true)
    × (fold_line (b'a' ∷ sp ∷ []) false 10 6 true ≡ length (b'a' ∷ sp ∷ []))
fold_line-pos_example = fold_line-pos b'a' (sp ∷ []) true 10 5 true (inl refl) (omega arith)

analyze_string-lines_example :
    ((analyze_string plain_icu two_lines true true line_length).len ≡ length two_lines)
    × ((analyze_string plain_icu two_lines true true line_length).lines + pairs two_lines
        ≡ 1 + count nl two_lines + count 0xd two_lines)
analyze_string-lines_example = analyze_string-lines plain_icu two_lines true true line_length
