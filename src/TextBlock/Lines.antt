-- ===== src/TextBlock/Lines.antt =====
-- The logical lines of a text, as `write_text` (src/ciffile.c) writes them one after the other and
-- `decode_text` (src/parser.c) reads them.
use cif_api.Base.{
  ℕ, suc, Bool, true, false, ◌||◌, List, [], ◌∷◌, ◌++◌, ◌==◌, if◌then◌else◌, UString, length, take,
  drop, All, ◌≡◌, ◌≢◌, refl, sym, ap, subst, ◌∙◌, arith, append_assoc, append-nil,
}
use cif_api.Chars.{nl, tab, sp, bsl}
use cif_api.Code.{ok-injective, ok, >>=-eq-ok, ◌>>=◌}
use cif_api.Scanner.Decode.OneLine.{IsInline}
use cif_api.Scanner.Decode.Block.{
  decoded, Tail, ended, more, tail_value, decoded-Tail, decoded-ended, IsPrefixText,
}
use cif_api.Writer.Text.{prefix_text, needs_protection, segments, write_line, write_lines}
use cif_api.Writer.Fold.{fold_line}
use cif_api.TextBlock.Segments.{ReadsAs, guard_nl, start, segments-LineReads, rewind_after-none}

unprotected : (line : UString) → needs_protection false false line ≡ false
unfolding needs_protection
unprotected [] = refl
unprotected (c ∷ cs) =
    let same : (if c == tab || c == sp then false else if c == bsl then false else false) ≡ false =
      ground arith in
    ap (λ (p : Bool). needs_protection false p cs) same ∙ unprotected cs

take_whole : (s : UString) → take (length s) s ≡ s
take_whole [] = refl
take_whole (c ∷ cs) = ap (◌∷◌ c) (take_whole cs)

drop_whole : (s : UString) → drop (length s) s ≡ []
drop_whole [] = refl
drop_whole (c ∷ cs) = drop_whole cs

suc-ne_zero : (n : ℕ) → (suc n == 0) ≡ false
suc-ne_zero n = ground arith

-- With no folding a line is one segment.
write_line-unfolded :
    (prefix : Bool) (c : ℕ) (cs : UString)
    → write_line false prefix (c ∷ cs)
      ≡ ok (nl ∷ ((if prefix then prefix_text else []) ++ (c ∷ cs)))
unfolding write_line fold_line
write_line-unfolded prefix c cs =
    rw (unprotected (c ∷ cs), drop_whole cs, take_whole cs)
      (rw (suc-ne_zero (length cs), fold_line) (simp append-nil))

module _ (v : ℕ) (prefix : Bool) where
  unfolded_line :
      (line text : UString)
      → line ≢ []
      → All IsInline line
      → write_line false prefix line ≡ ok text
      → ReadsAs v false (start v prefix) false line text
  unfolded_line [] text ne h e = absurd (ne refl)
  unfolded_line (c ∷ cs) text ne h e = record {
    stuff = start v prefix ++ (c ∷ cs);
    led = ok-injective (sym e ∙ write_line-unfolded prefix c cs);
    reads = λ plain t e. rw (append_assoc (start v prefix) (c ∷ cs) t) (
        decoded-ended v false (start v prefix) plain (c ∷ cs) ne h
          (rewind_after-none false (c ∷ cs) (unprotected (c ∷ cs))) e);
  }

  -- What is written for a line reads as the line, whatever follows it.
  record LineText (fold : Bool) (line text : UString) : Type 0 where
    stuff : UString
    led : text ≡ nl ∷ stuff
    reads :
        (plain : IsPrefixText (start v prefix)) (t : UString) (e : Tail t)
        → decoded v fold (start v prefix) (stuff ++ t)
          ≡ line ++ tail_value v fold (start v prefix) plain e

  guarded :
      (fold protect : Bool) (line text : UString)
      → ReadsAs v fold (start v prefix) protect line text
      → LineText fold line (text ++ guard_nl protect)
  guarded fold protect line text r = record {
    stuff = r.stuff ++ guard_nl protect;
    led = rw r.led;
    reads = λ plain t e. rw (append_assoc r.stuff (guard_nl protect) t) (r.reads plain t e);
  }

  write_line-LineText :
      (fold : Bool) (line text : UString)
      → line ≢ []
      → All IsInline line
      → write_line fold prefix line ≡ ok text
      → LineText fold line text
  unfolding write_line
  write_line-LineText false line text ne h e =
      subst (LineText false line) (append-nil text)
        (guarded false false line text (unfolded_line line text ne h e))
  write_line-LineText true line text ne h e =
      let protect = needs_protection true false line in
      let (body, s, q) =
        >>=-eq-ok (segments true prefix (length line) protect line)
          (λ b. ok (b ++ guard_nl protect)) e in
      subst (LineText true line) (ok-injective q) (
        guarded true protect line body
          (segments-LineReads v prefix (length line) protect line body ne h (λ z. z) s))

  -- The lines as the parser reads them, each behind a line feed; an empty last line is lost.
  unfoldable pub read_back : List UString → UString
  read_back [] = []
  read_back ([] ∷ []) = []
  read_back ([] ∷ (l ∷ ls)) = nl ∷ read_back (l ∷ ls)
  read_back ((c ∷ cs) ∷ ls) = nl ∷ ((c ∷ cs) ++ read_back ls)

  pub record LinesText (fold : Bool) (ls : List UString) (body : UString) : Type 0 where
    pub tail : Tail body
    pub value :
        (plain : IsPrefixText (start v prefix))
        → tail_value v fold (start v prefix) plain tail ≡ read_back ls

  line_before :
      (fold : Bool) (c : ℕ) (cs line rest : UString) (ls : List UString)
      → LineText fold (c ∷ cs) line
      → LinesText fold ls rest
      → LinesText fold ((c ∷ cs) ∷ ls) (line ++ rest)
  unfolding read_back
  line_before fold c cs line rest ls t r =
      subst (LinesText fold ((c ∷ cs) ∷ ls)) (rw t.led) (record {
        tail = more (t.stuff ++ rest);
        value = λ plain.
            ap (◌∷◌ nl)
              (t.reads plain rest r.tail ∙ ap (λ (x : UString). (c ∷ cs) ++ x) (r.value plain));
      })

  pub write_lines-LinesText :
      (fold : Bool) (ls : List UString) (body : UString)
      → All (All IsInline) ls
      → write_lines fold prefix ls ≡ ok body
      → LinesText fold ls body
  unfolding write_lines read_back
  write_lines-LinesText fold [] body h e =
      subst (LinesText fold []) (ok-injective e) (record { tail = ended; value = λ plain. refl })
  write_lines-LinesText fold ([] ∷ []) body h e =
      subst (LinesText fold ([] ∷ [])) (ok-injective e)
        (record { tail = ended; value = λ plain. refl })
  write_lines-LinesText fold ([] ∷ (l ∷ ls)) body h e =
      let (rest, s, q) = >>=-eq-ok (write_lines fold prefix (l ∷ ls)) (λ r. ok (nl ∷ r)) e in
      let r = write_lines-LinesText fold (l ∷ ls) rest h.1 s in
      subst (LinesText fold ([] ∷ (l ∷ ls))) (ok-injective q) (record {
        tail = more rest;
        value = λ plain.
            ap (◌∷◌ nl) (decoded-Tail v fold (start v prefix) plain r.tail ∙ r.value plain);
      })
  write_lines-LinesText fold ((c ∷ cs) ∷ ls) body h e =
      let (line, s, q) =
        >>=-eq-ok (write_line fold prefix (c ∷ cs))
          (λ (line : UString). write_lines fold prefix ls >>= λ rest. ok (line ++ rest)) e in
      let (rest, s', q') = >>=-eq-ok (write_lines fold prefix ls) (λ rest. ok (line ++ rest)) q in
      subst (LinesText fold ((c ∷ cs) ∷ ls)) (ok-injective q') (
        line_before fold c cs line rest ls (write_line-LineText fold (c ∷ cs) line (λ z. cc) h.0 s)
          (write_lines-LinesText fold ls rest h.1 s'))
