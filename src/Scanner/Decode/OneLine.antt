-- ===== src/Scanner/Decode/OneLine.antt =====
-- One line of folded or prefixed text (`decode_text`, src/parser.c), for a scanner with the standard
-- line terminators.
use cif_api.Base.{
  ℕ, ◌-◌, ◌≤◌, Bool, true, false, ◌&&◌, ◌||◌, Option, none, some, [], ◌∷◌, ◌++◌, ◌==◌,
  if◌then◌else◌, UString, length, All, ◌≡◌, ◌≢◌, refl, sym, ap, ◌∙◌, arith, append_assoc,
  append-nil,
}
use cif_api.Chars.{nl, cr, tab, sp, bsl}
use cif_api.Scanner.Classes.Standard.{standard, class_of-eol, class_of-ws}
use cif_api.Scanner.Decode.{Line, is_eol, is_ws, skip_nl, copy_line}

-- A character that ends no line.
abbrev pub IsInline : ℕ → Type 0
IsInline c = (c ≢ nl) × (c ≢ cr)

abbrev is_some {ℓ} : {A : Type ℓ} → Option A → Bool
is_some none = false
is_some (some a) = true

-- The line's buffer before the last backslash that only blanks follow, after some characters.
unfoldable pub rewind_after : Bool → UString → Option UString → UString → Option UString
rewind_after folded out rewind [] = rewind
rewind_after folded out rewind (c ∷ cs) =
    rewind_after folded (out ++ (c ∷ []))
      (if c == bsl && folded then some out else if c == sp || c == tab then rewind else none) cs

push_if {ℓ κ} :
    {A : Type ℓ} {B : Type κ} (f : A → B) (b e : Bool) (x y z : A)
    → (if b then f x else if e then f y else f z) ≡ f (if b then x else if e then y else z)
push_if f true e x y z = refl
push_if f false true x y z = refl
push_if f false false x y z = refl

inline_test : (c : ℕ) → IsInline c → (c == nl || c == cr) ≡ false
inline_test c h = ground arith

length-skip_nl : (s : UString) → length (skip_nl s) ≤ length s
unfolding skip_nl
length-skip_nl [] = omega arith
length-skip_nl (c ∷ cs) = ground arith

length-after_eol : (b : Bool) (s : UString) → length (if b then skip_nl s else s) ≤ length s
length-after_eol true s = length-skip_nl s
length-after_eol false s = omega arith

length-branches :
    (a b c : Bool) (x y z w : Line) (n : ℕ)
    → length x.rest ≤ n
    → length y.rest ≤ n
    → length z.rest ≤ n
    → length w.rest ≤ n
    → length (if a then x else if b then y else if c then z else w).rest ≤ n
length-branches true b c x y z w n hx hy hz hw = hx
length-branches false true c x y z w n hx hy hz hw = hy
length-branches false false true x y z w n hx hy hz hw = hz
length-branches false false false x y z w n hx hy hz hw = hw

module _ (v : ℕ) where
  copy_line-char :
      (folded : Bool) (out : UString) (rewind : Option UString) (c : ℕ) (cs : UString)
      → IsInline c
      → copy_line (standard v) folded out rewind (c ∷ cs)
        ≡ copy_line
            (standard v)
            folded
            (out ++ (c ∷ []))
            (if c == bsl && folded then some out else if c == sp || c == tab then rewind else none)
            cs
  unfolding copy_line
  copy_line-char folded out rewind c cs h =
      rw (class_of-eol v c, class_of-ws v c, inline_test c h)
        (push_if (λ r. copy_line (standard v) folded (out ++ (c ∷ [])) r cs) (c == bsl && folded)
          (c == sp || c == tab) (some out) rewind none)

  copy_line-inline :
      (folded : Bool) (out : UString) (rewind : Option UString) (seg rest : UString)
      → All IsInline seg
      → copy_line (standard v) folded out rewind (seg ++ rest)
        ≡ copy_line (standard v) folded (out ++ seg) (rewind_after folded out rewind seg) rest
  unfolding rewind_after
  copy_line-inline folded out rewind [] rest h = rw append-nil
  copy_line-inline folded out rewind (c ∷ cs) rest h =
      copy_line-char folded out rewind c (cs ++ rest) h.0
      ∙ copy_line-inline folded (out ++ (c ∷ [])) _ cs rest h.1
      ∙ rw append_assoc

  pub copy_line-nil :
      (folded : Bool) (out : UString) (rewind : Option UString)
      → copy_line (standard v) folded out rewind [] ≡ record { text = out; rest = [] }
  unfolding copy_line
  copy_line-nil folded out rewind = refl

  pub copy_line-nl :
      (folded : Bool) (out rest : UString)
      → copy_line (standard v) folded out none (nl ∷ rest)
        ≡ record { text = out ++ (nl ∷ []); rest = rest }
  unfolding copy_line
  copy_line-nl folded out rest = rw (class_of-eol v nl)

  copy_line-mark :
      (out : UString) (rewind : Option UString) (rest : UString)
      → copy_line (standard v) true out rewind (bsl ∷ nl ∷ rest)
        ≡ record { text = out; rest = rest }
  unfolding copy_line
  copy_line-mark out rewind rest = rw (class_of-eol v nl)

  -- A backslash at the end of a folded line joins it to the next one.
  pub copy_line-joined :
      (seg rest : UString)
      → All IsInline seg
      → copy_line (standard v) true [] none (seg ++ (bsl ∷ nl ∷ rest))
        ≡ record { text = seg; rest = rest }
  copy_line-joined seg rest h =
      copy_line-inline true [] none seg (bsl ∷ nl ∷ rest) h
      ∙ copy_line-mark seg (rewind_after true [] none seg) rest

  -- A line that no backslash joins to the next one keeps its line feed.
  pub copy_line-ended :
      (folded : Bool) (seg rest : UString)
      → All IsInline seg
      → rewind_after folded [] none seg ≡ none
      → copy_line (standard v) folded [] none (seg ++ (nl ∷ rest))
        ≡ record { text = seg ++ (nl ∷ []); rest = rest }
  copy_line-ended folded seg rest h e =
      copy_line-inline folded [] none seg (nl ∷ rest) h ∙ rw e (copy_line-nl folded seg rest)

  -- The last line ends with the text.
  pub copy_line-last :
      (folded : Bool) (seg : UString)
      → All IsInline seg
      → copy_line (standard v) folded [] none seg ≡ record { text = seg; rest = [] }
  copy_line-last folded seg h =
      ap (copy_line (standard v) folded [] none) (sym (append-nil seg))
      ∙ copy_line-inline folded [] none seg [] h
      ∙ copy_line-nil folded seg (rewind_after folded [] none seg)

  pub length-copy_line :
      (folded : Bool) (out : UString) (rewind : Option UString) (s : UString)
      → length (copy_line (standard v) folded out rewind s).rest ≤ length s - 1
  unfolding copy_line
  length-copy_line folded out rewind [] = omega arith
  length-copy_line folded out rewind (c ∷ cs) =
      let at : (r : Option UString)
          → length (copy_line (standard v) folded (out ++ (c ∷ [])) r cs).rest ≤ length cs =
        λ r. omega (arith, length-copy_line folded (out ++ (c ∷ [])) r cs) in
      let fits : length cs ≡ length (c ∷ cs) - 1 = omega arith in
      rw (← fits) (
        length-branches (c == bsl && folded) (is_eol (standard v) c) (is_ws (standard v) c)
          (copy_line (standard v) folded (out ++ (c ∷ [])) (some out) cs)
          (record {
            text = elim rewind [ none ↦ out ++ (nl ∷ []) | some start ↦ start ];
            rest = if c == cr then skip_nl cs else cs;
          })
          (copy_line (standard v) folded (out ++ (c ∷ [])) rewind cs)
          (copy_line (standard v) folded (out ++ (c ∷ [])) none cs) (length cs) (at (some out))
          (length-after_eol (c == cr) cs) (at rewind) (at none))
