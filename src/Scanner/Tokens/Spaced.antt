-- ===== src/Scanner/Tokens/Spaced.antt =====
-- A quoted string behind a blank, read by `next_token` of src/parser.c.
use cif_api.Base.{
  ℕ, suc, ◌+◌, ◌-◌, ◌≤◌, Bool, true, [], ◌∷◌, ◌++◌, append_assoc, UString, length, ◌≡◌, refl, ap,
  ◌∙◌, line_length,
}
use cif_api.Code.{ok}
use cif_api.Scanner.Classes.{Class, Dialect, class_of}
use cif_api.Scanner.State.{Scanner, Callback, notify, consume_token}
use cif_api.Scanner.Runs.{scan_ws}
use cif_api.Scanner.Tokens.{
  tvalue, is_empty, next_char, needs_no_space, separated, scan_token, finish_round, token_loop,
  next_token,
}
use cif_api.Scanner.Tokens.Quoted.{
  Readable, blank, after_quoted, token_loop-quoted, tvalue-after_quoted, write_quoted-fits,
  skip_depth-after_quoted,
}
use cif_api.Writer.Columns.Quoted.{write_quoted}

-- The scanner behind one blank
abbrev behind_blank : ℕ → Scanner → Scanner
behind_blank b s =
    let t = next_char b s in
    let u = record t { tvalue_start = 0; tvalue_length = length t.back - 0 - 0 } in
    consume_token (notify (tvalue u) u)

token_loop-blank :
    (callback : Callback) (d : Dialect) (fuel b c : ℕ) (cs : UString) (spaced : Bool) (s : Scanner)
    → class_of d b ≡ Class.ws
    → class_of d c ≡ Class.quote
    → s.skip_depth ≡ 0
    → token_loop callback d (suc fuel) spaced s (b ∷ (c ∷ cs))
      ≡ token_loop callback d fuel true (behind_blank b s) (c ∷ cs)
unfolding token_loop separated scan_token scan_ws finish_round
token_loop-blank callback d fuel b c cs spaced s white quote awake = rw (white, quote, awake) refl

-- The scanner with the quoted string behind the blank as its token
abbrev pub spaced_token : ℕ → ℕ → UString → Scanner → Scanner
spaced_token b delim text s =
    after_quoted delim text (notify [] (next_char delim (behind_blank b s)))

token_loop-spaced :
    (callback : Callback) (d : Dialect) (s : Scanner) (b delim : ℕ) (text : UString) (w fuel : ℕ)
    (rest : UString) (spaced : Bool)
    → Readable d delim text w
    → class_of d b ≡ Class.ws
    → s.skip_depth ≡ 0
    → token_loop callback d (suc (suc fuel)) spaced s (b ∷ (delim ∷ (text ++ (delim ∷ (w ∷ rest)))))
      ≡ ok (spaced_token b delim text s, w ∷ rest)
token_loop-spaced callback d s b delim text w fuel rest spaced readable white awake =
    token_loop-blank callback d (suc fuel) b delim (text ++ (delim ∷ (w ∷ rest))) spaced s white
      readable.quote awake
    ∙ token_loop-quoted callback d delim text w rest readable fuel (behind_blank b s)

next_token-loop :
    (callback : Callback) (d : Dialect) (s : Scanner) (cs : UString)
    → s.back ≡ []
    → next_token callback d s cs
      ≡ token_loop callback d (suc (length cs)) (needs_no_space s.ttype) s cs
unfolding next_token
next_token-loop callback d s cs start =
    let between : is_empty s.back ≡ true = ap is_empty start in rw between refl

pub next_token-spaced :
    (callback : Callback) (d : Dialect) (s : Scanner) (b delim : ℕ) (text : UString) (w : ℕ)
    (rest : UString)
    → Readable d delim text w
    → length text + 2 ≤ line_length
    → class_of d b ≡ Class.ws
    → s.back ≡ []
    → s.skip_depth ≡ 0
    → next_token callback d s (b ∷ ((write_quoted text delim blank).output ++ (w ∷ rest)))
      ≡ ok (spaced_token b delim text s, w ∷ rest)
next_token-spaced callback d s b delim text w rest readable fits white start awake =
    let input =
      ap (λ o. o ++ (w ∷ rest)) (write_quoted-fits delim text fits)
      ∙ ap (◌∷◌ delim) (append_assoc text (delim ∷ []) (w ∷ rest)) in
    ap (λ x. next_token callback d s (b ∷ x)) input
    ∙ next_token-loop callback d s (b ∷ (delim ∷ (text ++ (delim ∷ (w ∷ rest))))) start
    ∙ token_loop-spaced callback d s b delim text w (suc (length (text ++ (delim ∷ (w ∷ rest)))))
        rest (needs_no_space s.ttype) readable white awake

pub tvalue-spaced_token :
    (b delim : ℕ) (text : UString) (s : Scanner) → tvalue (spaced_token b delim text s) ≡ text
tvalue-spaced_token b delim text s =
    tvalue-after_quoted delim text (notify [] (next_char delim (behind_blank b s))) refl refl

pub skip_depth-spaced_token :
    (b delim : ℕ) (text : UString) (s : Scanner)
    → (spaced_token b delim text s).skip_depth ≡ s.skip_depth
skip_depth-spaced_token b delim text s =
    skip_depth-after_quoted delim text (notify [] (next_char delim (behind_blank b s)))
