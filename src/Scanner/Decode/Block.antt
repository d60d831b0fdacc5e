-- ===== src/Scanner/Decode/Block.antt =====
-- The loop over the lines of a folded or prefixed block (`decode_text`, src/parser.c), for a scanner
-- with the standard line terminators.
use cif_api.Base.{
  ℕ, zero, suc, ◌≤◌, Bool, true, none, [], ◌∷◌, ◌++◌, UString, length, take, drop, equals_iff, All,
  ◌≡◌, ◌≢◌, refl, ap, ◌∙◌, arith, append_assoc, append-nil, length-drop,
}
use cif_api.Chars.{nl, bsl}
use cif_api.Scanner.Classes.Standard.{standard}
use cif_api.Scanner.Decode.{Line, copy_line, consume_prefix, decode_lines}
use cif_api.Scanner.Decode.OneLine.{
  IsInline, rewind_after, copy_line-nl, copy_line-joined, copy_line-ended, copy_line-last,
  length-copy_line,
}

take-length_append : (a b : UString) → take (length a) (a ++ b) ≡ a
take-length_append [] b = refl
take-length_append (x ∷ a) b = ap (◌∷◌ x) (take-length_append a b)

drop-length_append : (a b : UString) → drop (length a) (a ++ b) ≡ b
drop-length_append [] b = refl
drop-length_append (x ∷ a) b = drop-length_append a b

consume_prefix-prefix : (prefix s : UString) → consume_prefix prefix (prefix ++ s) ≡ s
unfolding consume_prefix
consume_prefix-prefix prefix s =
    rw (take-length_append prefix s, (equals_iff prefix prefix).1 refl)
      (drop-length_append prefix s)

length-consume_prefix : (prefix s : UString) → length (consume_prefix prefix s) ≤ length s
unfolding consume_prefix
length-consume_prefix prefix s = ground (arith, length-drop (length prefix) s)

module _ (v : ℕ) (folded : Bool) (prefix : UString) where
  abbrev line_of : UString → Line
  line_of s = copy_line (standard v) folded [] none (consume_prefix prefix s)

  length-line_of : (c : ℕ) (cs : UString) → length (line_of (c ∷ cs)).rest ≤ length cs
  length-line_of c cs = omega (
    arith,
    length-copy_line v folded [] none (consume_prefix prefix (c ∷ cs)),
    length-consume_prefix prefix (c ∷ cs),
  )

  -- More fuel than characters changes nothing.
  decode_lines-fuel :
      (f g : ℕ) (s : UString)
      → length s ≤ f
      → length s ≤ g
      → decode_lines (standard v) f folded prefix s ≡ decode_lines (standard v) g folded prefix s
  unfolding decode_lines
  decode_lines-fuel zero zero s hf hg = refl
  decode_lines-fuel zero (suc g) [] hf hg = refl
  decode_lines-fuel zero (suc g) (c ∷ cs) hf hg = absurd (omega arith)
  decode_lines-fuel (suc f) zero [] hf hg = refl
  decode_lines-fuel (suc f) zero (c ∷ cs) hf hg = absurd (omega arith)
  decode_lines-fuel (suc f) (suc g) [] hf hg = refl
  decode_lines-fuel (suc f) (suc g) (c ∷ cs) hf hg =
      ap (λ (t : UString). (line_of (c ∷ cs)).text ++ t)
        (decode_lines-fuel f g (line_of (c ∷ cs)).rest (omega (arith, length-line_of c cs))
          (omega (arith, length-line_of c cs)))

  -- The value of the lines from a line's start on.
  pub decoded : UString → UString
  decoded s = decode_lines (standard v) (length s) folded prefix s

  pub decoded-nil : decoded [] ≡ []
  unfolding decoded decode_lines
  decoded-nil = refl

  decoded-step : (s : UString) → s ≢ [] → decoded s ≡ (line_of s).text ++ decoded (line_of s).rest
  unfolding decoded decode_lines
  decoded-step [] h = absurd (h refl)
  decoded-step (c ∷ cs) h =
      ap (λ (t : UString). (line_of (c ∷ cs)).text ++ t)
        (decode_lines-fuel (length cs) (length (line_of (c ∷ cs)).rest) (line_of (c ∷ cs)).rest
          (length-line_of c cs) (omega arith))

  pub decode_lines-decoded :
      (f : ℕ) (s : UString) → length s ≤ f → decode_lines (standard v) f folded prefix s ≡ decoded s
  unfolding decoded
  decode_lines-decoded f s h = decode_lines-fuel f (length s) s h (omega arith)

ne_right : (a : UString) {b : UString} → b ≢ [] → a ++ b ≢ []
ne_right [] h = h
ne_right (x ∷ a) h = λ e. cc

ne_left : (a b : UString) → a ≢ [] → a ++ b ≢ []
ne_left [] b h = absurd (h refl)
ne_left (x ∷ a) b h = λ e. cc

-- What can follow the text of a line: the end of the block, or a line feed and more lines.
pub data Tail : UString → Type 0 where
  ended : Tail []
  more : (s : UString) → Tail (nl ∷ s)

-- A line prefix, as the writer makes it: no line feed stands in it.
abbrev pub IsPrefixText : UString → Type 0
IsPrefixText prefix = All IsInline prefix

consume_prefix-nl :
    (prefix s : UString) → IsPrefixText prefix → consume_prefix prefix (nl ∷ s) ≡ nl ∷ s
unfolding consume_prefix
consume_prefix-nl [] s h = refl
consume_prefix-nl (c ∷ cs) s h = ground arith

module _ (v : ℕ) (folded : Bool) (prefix : UString) (plain : IsPrefixText prefix) where
  abbrev pub tail_value : {t : UString} → Tail t → UString
  tail_value ended = []
  tail_value (more s) = nl ∷ decoded v folded prefix s

  pub decoded-Tail : {t : UString} (e : Tail t) → decoded v folded prefix t ≡ tail_value e
  decoded-Tail ended = decoded-nil v folded prefix
  decoded-Tail (more s) =
      decoded-step v folded prefix (nl ∷ s) (λ e. cc)
      ∙ rw (consume_prefix-nl prefix s plain) (rw (copy_line-nl v folded [] s))

  -- A line that is not joined to what follows it.
  pub decoded-ended :
      (seg : UString)
      → seg ≢ []
      → All IsInline seg
      → rewind_after folded [] none seg ≡ none
      → {t : UString} (e : Tail t)
      → decoded v folded prefix (prefix ++ (seg ++ t)) ≡ seg ++ tail_value e
  decoded-ended seg ne h r ended =
      decoded-step v folded prefix (prefix ++ (seg ++ [])) (ne_right prefix (ne_left seg [] ne))
      ∙ rw (consume_prefix-prefix prefix (seg ++ []), append-nil)
          (rw (copy_line-last v folded seg h)
            (ap (λ (t : UString). seg ++ t) (decoded-nil v folded prefix) ∙ append-nil seg))
  decoded-ended seg ne h r (more s) =
      decoded-step v folded prefix (prefix ++ (seg ++ (nl ∷ s)))
        (ne_right prefix (ne_left seg (nl ∷ s) ne))
      ∙ rw (consume_prefix-prefix prefix (seg ++ (nl ∷ s))) (
          rw (copy_line-ended v folded seg s h r)
            (append_assoc seg (nl ∷ []) (decoded v folded prefix s)))

module _ (v : ℕ) (prefix : UString) where
  -- A folded line is joined to what follows it.
  pub decoded-joined :
      (seg : UString)
      → All IsInline seg
      → (rest : UString)
      → decoded v true prefix (prefix ++ (seg ++ (bsl ∷ nl ∷ rest)))
        ≡ seg ++ decoded v true prefix rest
  decoded-joined seg h rest =
      decoded-step v true prefix (prefix ++ (seg ++ (bsl ∷ nl ∷ rest)))
        (ne_right prefix (ne_right seg (λ e. cc)))
      ∙ rw (consume_prefix-prefix prefix (seg ++ (bsl ∷ nl ∷ rest)))
          (rw (copy_line-joined v seg rest h))
