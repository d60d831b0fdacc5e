-- ===== src/Scanner/Tokens/Progress.antt =====
-- `next_token` of src/parser.c ends and always finds a token.
use cif_api.Base.{
  ℕ, zero, suc, ◌+◌, ◌-◌, ◌≤◌, ◌<◌, Bool, true, false, [], ◌∷◌, leb, ◌==◌, if◌then◌else◌, UString,
  length, ◌≡◌, ◌≢◌, ◌⊎◌, inl, inr, refl, ap, ◌∙◌, Option-cases, arith,
}
use cif_api.Code.{Code, Result, ok, reserved_word, missing_space}
use cif_api.Scanner.Classes.{Class, Dialect, class_of}
use cif_api.Scanner.State.{
  Scanner, Callback, TokenType, metaclass_of, general_meta, raise, back_up, behind, advance, fault,
}
use cif_api.Scanner.Units.{replacement}
use cif_api.Scanner.Runs.{scan_ws}
use cif_api.Scanner.Keywords.{
  Word, plain, data_header, save_header, save_end, loop_keyword, reserved, word_of,
}
use cif_api.Scanner.Tokens.{
  Found, whitespace, comment, token, found, tvalue, is_empty, key_or, next_char, scan_token,
  separated, finish_word, finish_round, token_loop, next_token, needs_no_space,
}
use cif_api.Scanner.Yields.{
  Yields, yields, stops, Yields-value, Yields-split, Yields->>=, Yields-then, Yields-at_end,
}
use cif_api.Scanner.Tokens.Scans.{
  Within, widen, handle_eol-Has, scan_ws-Within, scan_to_ws-Within, scan_to_eol-Within,
  scan_unquoted-Within, scan_unquoted-first, scan_delim_string-Within, scan_text-Within,
}

-- How long the text of a token is: a key has a delimiter and its colon, and the end has no text.
abbrev pub Fitting : TokenType → ℕ → Type 0
Fitting TokenType.key n = 2 ≤ n
Fitting TokenType.tkey n = 2 ≤ n
Fitting TokenType.end n = n ≡ 0
Fitting _ n = Unit

abbrev FoundFitting : Found → ℕ → Type 0
FoundFitting (token t) n = Fitting t n
FoundFitting _ n = Unit

-- A kind of token that may be handed out; at most `n` code units are left, and `m` with those of the
-- token.
abbrev Proper : ℕ → ℕ → Found × Scanner × UString → Type 0
Proper n m r =
    (r.0 ≢ token TokenType.error)
    × (length (r.2) ≤ n)
    × (length (r.1.back) + length (r.2) ≡ m)
    × FoundFitting (r.0) (length (r.1.back))

found-Proper :
    {n m : ℕ} (f : Found) {r : Result (Scanner × UString)}
    → f ≢ token TokenType.error
    → ((b : ℕ) → FoundFitting f b)
    → Yields (Within n m) r
    → Yields (Proper n m) (found f r)
found-Proper f p q h = Yields->>= h λ (s, cs) k. yields (p, k.0, k.1, q (length s.back))

key_or-Proper :
    (n m : ℕ) (k v : TokenType) (s : Scanner) (cs : UString)
    → token k ≢ token TokenType.error
    → token v ≢ token TokenType.error
    → ((b : ℕ) → 2 ≤ b → Fitting k b)
    → ((b : ℕ) → Fitting v b)
    → n < m
    → Within n m (s, cs)
    → Yields (Proper n m) (key_or k v s cs)
key_or-Proper n m k v s [] p q x y l h = Yields-at_end s (yields (q, h.0, h.1, y (length s.back)))
key_or-Proper n m k v s (c ∷ cs) p q x y l h =
    Yields-split (c == b':')
      (λ _. yields (p, omega arith, omega arith, x (suc (length s.back)) (omega arith)))
      (λ _. yields (q, h.0, h.1, y (length s.back)))

empty : (b : UString) → is_empty b ≡ true → b ≡ []
empty [] h = refl
empty (c ∷ cs) h = cc

filled : (b : UString) → is_empty b ≡ false → 0 < length b
filled [] h = cc
filled (c ∷ cs) h = omega arith

module _ (callback : Callback) (d : Dialect)
    (free : metaclass_of d (replacement d) ≡ general_meta) where
  -- Behind a first character that is the whole token so far
  one :
      (c : ℕ) (cs : UString) (s : Scanner) {r : Result (Scanner × UString)}
      → s.back ≡ c ∷ []
      → Yields (Within (length cs) (length s.back + length cs)) r
      → Yields (Within (length cs) (suc (length cs))) r
  one c cs s e h = widen (omega arith) (omega (arith, ap length e)) h

  scan_token-Proper :
      (class : Class) (c : ℕ) (cs : UString) (s : Scanner)
      → class_of d c ≡ class
      → s.back ≡ c ∷ []
      → Yields (Proper (length cs) (suc (length cs))) (scan_token callback d class c cs s)
  unfolding scan_token scan_ws
  scan_token-Proper Class.eol c cs s h e =
      let none_left : length (behind s.back) ≡ 0 = rw e in
      found-Proper whitespace (cc) (λ b. tt)
        (rw h (
          Yields->>= (handle_eol-Has callback d c 0 (back_up s)) λ (state, t) k.
            widen (omega arith) (omega (arith, none_left))
              (scan_ws-Within callback d state cs (advance c t))))
  scan_token-Proper Class.ws c cs s h e =
      found-Proper whitespace (cc) (λ b. tt) (one c cs s e (scan_ws-Within callback d 0 cs s))
  scan_token-Proper Class.hash c cs s h e =
      found-Proper comment (cc) (λ b. tt) (one c cs s e (scan_to_eol-Within callback d false cs s))
  scan_token-Proper Class.underscore c cs s h e =
      found-Proper _ (cc) (λ b. tt) (one c cs s e (scan_to_ws-Within callback d false cs s))
  scan_token-Proper Class.obrak c cs s h e =
      yields (cc, omega arith, omega (arith, ap length e), tt)
  scan_token-Proper Class.cbrak c cs s h e =
      yields (cc, omega arith, omega (arith, ap length e), tt)
  scan_token-Proper Class.ocurl c cs s h e =
      yields (cc, omega arith, omega (arith, ap length e), tt)
  scan_token-Proper Class.ccurl c cs s h e =
      yields (cc, omega arith, omega (arith, ap length e), tt)
  scan_token-Proper Class.quote c cs s h e =
      Yields->>= (one c cs s e (scan_delim_string-Within callback d c false cs s)) λ (t, rest) k.
        key_or-Proper (length cs) (suc (length cs)) _ _ t rest (cc) (cc) (λ b l. l) (λ b. tt)
          (omega arith) k
  scan_token-Proper Class.semicolon c cs s h e =
      Yields-split (s.column == 1)
        (λ _. Yields->>= (one c cs s e (scan_text-Within callback d false 0 cs s)) λ (t, rest) k.
          Yields-split (leb 2 d.cif_version)
            (λ _.
              key_or-Proper (length cs) (suc (length cs)) _ _ t rest (cc) (cc) (λ b l. l) (λ b. tt)
                (omega arith) k)
            (λ _. yields (cc, k.0, k.1, tt)))
        (λ _.
          found-Proper _ (cc) (λ b. tt)
            (one c cs s e (scan_unquoted-Within callback d 0 true true false cs s)))
  scan_token-Proper _ c cs s h e =
      let none_left : length (behind s.back) ≡ 0 = rw e in
      found-Proper _ (cc) (λ b. tt)
        (widen (omega arith) (omega (arith, none_left))
          (scan_unquoted-first callback d c cs (back_up s) free (rw h refl)))

  -- Either the round's text was consumed, or its token may be handed out.
  abbrev Finished : ℕ → Scanner → Type 0
  Finished n s =
      (length s.back ≤ n)
      × ((is_empty s.back ≡ true) ⊎ ((s.ttype ≢ TokenType.error) × Fitting s.ttype (length s.back)))

  finish_word-Finished :
      (w : Word) (s : Scanner) → Yields (Finished (length s.back)) (finish_word callback d w s)
  unfolding finish_word
  finish_word-Finished plain s = yields (omega arith, inr (cc, tt))
  finish_word-Finished data_header s = yields (omega arith, inr (cc, tt))
  finish_word-Finished save_header s = yields (omega arith, inr (cc, tt))
  finish_word-Finished save_end s = yields (omega arith, inr (cc, tt))
  finish_word-Finished loop_keyword s = yields (omega arith, inr (cc, tt))
  finish_word-Finished reserved s =
      Yields-then (raise callback reserved_word _ (tvalue s) s) λ t. yields (omega arith, inl refl)

  finish_round-Finished :
      (f : Found) (after_ws : Bool) (s : Scanner)
      → f ≢ token TokenType.error
      → FoundFitting f (length s.back)
      → Yields (λ r. Finished (length s.back) (r.1)) (finish_round callback d f after_ws s)
  unfolding finish_round
  finish_round-Finished whitespace after_ws s p x = yields (omega arith, inl refl)
  finish_round-Finished comment after_ws s p x = yields (omega arith, inl refl)
  finish_round-Finished (token TokenType.value) after_ws s p x =
      Yields->>= (finish_word-Finished (word_of d (tvalue s)) s) λ t h. yields h
  finish_round-Finished (token TokenType.error) after_ws s p x = absurd (p refl)
  finish_round-Finished (token _) after_ws s p x = yields (omega arith, inr (cc, x))

  raise-keeps :
      (code : Code) (column : ℕ) (s : Scanner)
      → Yields (λ t. t.back ≡ s.back) (raise callback code column [] s)
  raise-keeps code column s =
      elim (Option-cases (callback (fault code s.line column [] ∷ s.reports))) [
        | inl e ↦ rw (e, raise) (yields refl)
        | inr (stop, e) ↦ rw (e, raise) stops
      ]

  required-keeps :
      (after_ws : Bool) (s : Scanner)
      → Yields
          (λ t. t.back ≡ s.back)
          (if after_ws then ok s else raise callback missing_space (s.column - 1) [] s)
  required-keeps after_ws s =
      Yields-split after_ws (λ _. yields refl) (λ _. raise-keeps missing_space (s.column - 1) s)

  separated-keeps :
      (after_ws : Bool) (class : Class) (s : Scanner)
      → Yields (λ t. t.back ≡ s.back) (separated callback d after_ws class s)
  unfolding separated
  separated-keeps after_ws Class.ws s = yields refl
  separated-keeps after_ws Class.eol s = yields refl
  separated-keeps after_ws Class.cbrak s = yields refl
  separated-keeps after_ws Class.ccurl s = yields refl
  separated-keeps after_ws Class.hash s = required-keeps after_ws s
  separated-keeps after_ws _ s = Yields->>= (required-keeps after_ws s) λ t e. yields e

  -- A token that may be handed out and the input behind it, which are not longer than the input
  -- before; it is the end of the input, or has some text.
  abbrev pub Advances : ℕ → Scanner × UString → Type 0
  Advances n (t, rest) =
      (t.ttype ≢ TokenType.error)
      × (length t.back + length rest ≤ n)
      × (((t.ttype ≡ TokenType.end) × (rest ≡ [])) ⊎ (0 < length t.back))
      × Fitting t.ttype (length t.back)

  nearer :
      (n m : ℕ) {r : Result (Scanner × UString)}
      → n ≤ m
      → Yields (Advances n) r
      → Yields (Advances m) r
  nearer n m h (yields (p, k, e, x)) = yields (p, omega arith, e, x)
  nearer n m h stops = stops

  token_loop-Advances :
      (fuel : ℕ) (after_ws : Bool) (s : Scanner) (cs : UString)
      → length cs < fuel
      → s.back ≡ []
      → Yields (Advances (length cs)) (token_loop callback d fuel after_ws s cs)
  unfolding token_loop
  token_loop-Advances zero after_ws s cs h e = absurd (omega arith)
  token_loop-Advances (suc fuel) after_ws s [] h e =
      Yields-at_end s (yields (cc, omega (arith, ap length e), inl (refl, refl), ap length e))
  token_loop-Advances (suc fuel) after_ws s (c ∷ cs) h e =
      Yields->>= (separated-keeps after_ws (class_of d c) (next_char c s)) λ t start.
        Yields->>= (scan_token-Proper (class_of d c) c cs t refl (start ∙ ap (◌∷◌ c) e))
          λ (kind, u, rest) (p, k, l, x).
            Yields->>= (finish_round-Finished kind after_ws u p x) λ (spaced, v) (m, f).
              Yields-split (is_empty v.back)
                (λ over.
                  nearer (length rest) _ (omega arith)
                    (token_loop-Advances fuel spaced v rest (omega arith) (empty v.back over)))
                (λ full. elim f [
                  | inl e ↦ cc
                  | inr (q, y) ↦ yields (q, omega arith, inr (filled v.back full), y)
                ])

  -- `next_token` at a token that is ready, or at the next one
  pub next_token-Advances :
      (s : Scanner) (cs : UString)
      → (0 < length s.back → (s.ttype ≢ TokenType.error) × Fitting s.ttype (length s.back))
      → Yields (Advances (length s.back + length cs)) (next_token callback d s cs)
  unfolding next_token
  next_token-Advances s cs ready =
      Yields-split (is_empty s.back)
        (λ over. nearer (length cs) _ (omega arith) (
          token_loop-Advances (suc (length cs)) (needs_no_space s.ttype) s cs (omega arith)
            (empty s.back over)))
        (λ full.
          let (p, x) = ready (filled s.back full) in
          yields (p, omega arith, inr (filled s.back full), x))

-- Where the caller's options do not make the replacement character white space: from a state between
-- tokens, `next_token` ends, never hands out an `ERROR` token, finds the end only where nothing of the
-- input is left, and takes each other token from the front of the input: its text is not empty, and
-- together with what is left it is not longer than the input was.
pub next_token-advances :
    (callback : Callback) (d : Dialect) (s : Scanner) (cs : UString) {t : Scanner} {rest : UString}
    → metaclass_of d (replacement d) ≡ general_meta
    → s.back ≡ []
    → next_token callback d s cs ≡ ok (t, rest)
    → (t.ttype ≢ TokenType.error)
      × (length t.back + length rest ≤ length cs)
      × (((t.ttype ≡ TokenType.end) × (rest ≡ [])) ⊎ (0 < length t.back))
next_token-advances callback d s cs free start h =
    let (p, k, e, x) =
      Yields-value
        (next_token-Advances callback d free s cs (λ l. absurd (omega (arith, ap length start))))
        h in
    (p, omega (arith, ap length start), e)
