-- ===== src/TextBlock/Segments.antt =====
-- The segments of one logical line, as `write_text` (src/ciffile.c) folds and prefixes them, are
-- joined again by `decode_text` (src/parser.c).
use cif_api.Base.{
  ℕ, zero, suc, Bool, true, false, ◌&&◌, ◌||◌, Option, none, some, List, [], ◌∷◌, ◌++◌, leb, ◌==◌,
  if◌then◌else◌, UString, length, take, drop, All, ◌≡◌, ◌≢◌, refl, sym, ap, subst, ◌∙◌, arith,
  append_assoc, append-nil, take-append-drop, Bool-cases, inl, inr, ◌⊎◌,
}
use mathlib.Core.Path.{subst₂}
use cif_api.Chars.{nl, tab, sp, bsl}
use cif_api.Code.{ok-injective, Result, ok, >>=-eq-ok, ◌>>=◌}
use cif_api.Scanner.Decode.OneLine.{IsInline, rewind_after}
use cif_api.Scanner.Decode.Block.{
  decoded, Tail, tail_value, decoded-Tail, decoded-ended, decoded-joined, IsPrefixText,
}
use cif_api.Writer.Text.{prefix_text, folding_window, target_length, needs_protection, segments}
use cif_api.Writer.Fold.{fold_line}

abbrev is_some {ℓ} : {A : Type ℓ} → Option A → Bool
is_some none = false
is_some (some a) = true

-- The writer protects exactly the lines whose last backslash the parser would take for a fold.
rewind_after-protected :
    (fold : Bool) (out : UString) (rewind : Option UString) (line : UString)
    → is_some (rewind_after fold out rewind line) ≡ needs_protection fold (is_some rewind) line
unfolding rewind_after needs_protection
rewind_after-protected fold out rewind [] = refl
rewind_after-protected fold out rewind (c ∷ cs) =
    rewind_after-protected fold (out ++ (c ∷ []))
      (if c == bsl && fold then some out else if c == sp || c == tab then rewind else none) cs
    ∙ ap (λ (p : Bool). needs_protection fold p cs) (same fold out rewind c)
  where
    same :
        (fold : Bool) (out : UString) (rewind : Option UString) (c : ℕ)
        → is_some
            (if c == bsl && fold then some out else if c == sp || c == tab then rewind else none)
          ≡ (if c == tab || c == sp then is_some rewind else if c == bsl then fold else false)
    same fold out rewind c = ground arith

no_rewind : (o : Option UString) → is_some o ≡ false → o ≡ none
no_rewind none h = refl
no_rewind (some a) h = cc

pub rewind_after-none :
    (fold : Bool) (line : UString)
    → needs_protection fold false line ≡ false
    → rewind_after fold [] none line ≡ none
rewind_after-none fold line h = no_rewind _ (rewind_after-protected fold [] none line ∙ h)

-- A line that needs no protection has only such ends.
needs_protection-weaken :
    (fold protect : Bool) (line : UString)
    → needs_protection fold protect line ≡ false
    → needs_protection fold false line ≡ false
unfolding needs_protection
needs_protection-weaken fold false line h = h
needs_protection-weaken fold true [] h = refl
needs_protection-weaken fold true (c ∷ cs) h = elim (Bool-cases (c == tab || c == sp)) [
  | inl b ↦ rw b (needs_protection-weaken fold true cs (rw b at h))
  | inr b ↦ rw b (rw b at h)
]

needs_protection-drop :
    (fold : Bool) (n : ℕ) (line : UString)
    → needs_protection fold false line ≡ false
    → needs_protection fold false (drop n line) ≡ false
unfolding needs_protection
needs_protection-drop fold zero line h = h
needs_protection-drop fold (suc n) [] h = h
needs_protection-drop fold (suc n) (c ∷ cs) h = needs_protection-drop fold n cs (
    needs_protection-weaken fold
      (if c == tab || c == sp then false else if c == bsl then fold else false) cs h)

All-append {ℓ κ} :
    {A : Type ℓ} (P : A → Type κ) (xs ys : List A) → All P (xs ++ ys) → All P xs × All P ys
All-append P [] ys h = (tt, h)
All-append P (x ∷ xs) ys h = let r = All-append P xs ys h.1 in ((h.0, r.0), r.1)

All-split :
    (n : ℕ) (line : UString)
    → All IsInline line
    → All IsInline (take n line) × All IsInline (drop n line)
All-split n line h =
    All-append IsInline (take n line) (drop n line) (rw (take-append-drop n line) h)

-- A list is empty, or is not and has a positive length.
List-cases : (s : UString) → (s ≡ []) ⊎ ((s ≢ []) × (leb 1 (length s) ≡ true))
List-cases [] = inl refl
List-cases (c ∷ cs) = inr ((λ e. cc), ground arith)

-- Behind a line, `write_text` puts the line feed of a protected line and then a tail.
abbrev pub guard_nl : Bool → UString
guard_nl protect = if protect then nl ∷ [] else []

-- What is written for a line, behind the line feed before it, reads as the line.
pub record ReadsAs (v : ℕ) (fold : Bool) (prefix : UString) (protect : Bool) (line text : UString)
    : Type 0 where
  pub stuff : UString
  pub led : text ≡ nl ∷ stuff
  pub reads :
      (plain : IsPrefixText prefix) (t : UString) (e : Tail t)
      → decoded v fold prefix (stuff ++ (guard_nl protect ++ t))
        ≡ line ++ tail_value v fold prefix plain e

module _ (v : ℕ) (prefix : Bool) where
  abbrev pub start : UString
  start = if prefix then prefix_text else []

  segments-nil :
      (fuel : ℕ) (protect : Bool) (tail : UString)
      → segments true prefix fuel protect [] ≡ ok tail
      → tail ≡ []
  unfolding segments
  segments-nil zero protect tail h = cc
  segments-nil (suc fuel) protect tail h = cc

  -- The last segment of a folded line.
  last_segment :
      (protect : Bool) (line : UString)
      → line ≢ []
      → All IsInline line
      → (protect ≡ false → needs_protection true false line ≡ false)
      → ReadsAs v true start protect line
          (nl ∷ (start ++ (line ++ ((if protect then bsl ∷ [] else []) ++ []))))
  last_segment true line ne h p = record {
    stuff = start ++ (line ++ (bsl ∷ []));
    led = refl;
    reads = λ plain t e.
        rw (append_assoc start (line ++ (bsl ∷ [])) (nl ∷ t), append_assoc line (bsl ∷ []) (nl ∷ t))
          (decoded-joined v start line h t
            ∙ ap (λ (x : UString). line ++ x) (decoded-Tail v true start plain e));
  }
  last_segment false line ne h p = record {
    stuff = start ++ (line ++ []);
    led = refl;
    reads = λ plain t e.
        rw (append-nil, append_assoc start line t)
          (decoded-ended v true start plain line ne h (rewind_after-none true line (p refl)) e);
  }

  -- A folded segment before the others.
  middle_segment :
      (protect : Bool) (seg rest tail : UString)
      → All IsInline seg
      → ReadsAs v true start protect rest tail
      → ReadsAs v true start protect (seg ++ rest) (nl ∷ (start ++ (seg ++ (bsl ∷ tail))))
  middle_segment protect seg rest tail h r = record {
    stuff = start ++ (seg ++ (bsl ∷ tail));
    led = refl;
    reads = λ plain t e.
        rw
          (
            r.led,
            append_assoc start (seg ++ (bsl ∷ nl ∷ r.stuff)) (guard_nl protect ++ t),
            append_assoc seg (bsl ∷ nl ∷ r.stuff) (guard_nl protect ++ t),
          )
          (decoded-joined v start seg h (r.stuff ++ (guard_nl protect ++ t))
            ∙ ap (λ (x : UString). seg ++ x) (r.reads plain t e)
            ∙ sym (append_assoc seg rest (tail_value v true start plain e)));
  }

  -- The text of one segment and of those behind it, whatever its length `n`.
  abbrev segment_text : ℕ → Bool → ℕ → UString → Result UString
  segment_text fuel protect n tok = do
    tail ← segments true prefix fuel protect (drop n tok)
    ok (
        nl
        ∷ (start
            ++ (take n tok
                ++ ((if leb 1 (length (drop n tok)) || protect then bsl ∷ [] else []) ++ tail))))

  abbrev pub LineReads : ℕ → Bool → Type 0
  LineReads fuel protect =
      (line text : UString)
      → line ≢ []
      → All IsInline line
      → (protect ≡ false → needs_protection true false line ≡ false)
      → segments true prefix fuel protect line ≡ ok text
      → ReadsAs v true start protect line text

  -- No characters are left: the segment is the last one.
  at_last :
      (fuel : ℕ) (protect : Bool) (n : ℕ) (tok tail : UString)
      → drop n tok ≡ []
      → segments true prefix fuel protect (drop n tok) ≡ ok tail
      → nl ∷ (start ++ (tok ++ ((if protect then bsl ∷ [] else []) ++ [])))
        ≡ nl
          ∷ (start
              ++ (take n tok
                  ++ ((if leb 1 (length (drop n tok)) || protect then bsl ∷ [] else []) ++ tail)))
  at_last fuel protect n tok tail d s =
      let whole : take n tok ≡ tok =
        sym (append-nil (take n tok)) ∙ rw d at (take-append-drop n tok) in
      let none_left : segments true prefix fuel protect [] ≡ ok tail = rw d at s in
      let no_tail : tail ≡ [] = segments-nil fuel protect tail none_left in rw (whole, d, no_tail)

  segment_text-ReadsAs :
      (fuel : ℕ) (protect : Bool) (n : ℕ) (tok text : UString)
      → LineReads fuel protect
      → tok ≢ []
      → All IsInline tok
      → (protect ≡ false → needs_protection true false tok ≡ false)
      → segment_text fuel protect n tok ≡ ok text
      → ReadsAs v true start protect tok text
  segment_text-ReadsAs fuel protect n tok text ih ne h p e =
      let (tail, s, q) = >>=-eq-ok (segments true prefix fuel protect (drop n tok)) _ e in
      elim (List-cases (drop n tok)) [
        | inl d ↦
            subst (ReadsAs v true start protect tok)
              (at_last fuel protect n tok tail d s ∙ ok-injective q)
              (last_segment protect tok ne h p)
        | inr d ↦
            let behind =
              ih (drop n tok) tail (λ z. d.0 z) (All-split n tok h).1
                (λ z. needs_protection-drop true n tok (p z)) s in
            subst₂ (ReadsAs v true start protect) (take-append-drop n tok)
              (rw d.1 at (ok-injective q))
              (middle_segment protect (take n tok) (drop n tok) tail (All-split n tok h).0 behind)
      ]

  -- Folding a line and joining its segments gives the line back.
  pub segments-LineReads : (fuel : ℕ) (protect : Bool) → LineReads fuel protect
  unfolding segments
  segments-LineReads fuel protect [] text ne h p e = absurd (ne refl)
  segments-LineReads zero protect (c ∷ cs) text ne h p e = cc
  segments-LineReads (suc fuel) protect (c ∷ cs) text ne h p e =
      let n = fold_line (c ∷ cs) true target_length folding_window prefix in
      elim (Bool-cases (n == 0)) [
        | inl z ↦ cc (rw z at e)
        | inr z ↦
            segment_text-ReadsAs fuel protect n (c ∷ cs) text (segments-LineReads fuel protect) ne h
              p (rw z at e)
      ]
