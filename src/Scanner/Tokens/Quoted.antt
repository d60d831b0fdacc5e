-- ===== src/Scanner/Tokens/Quoted.antt =====
-- A string that the writer (src/ciffile.c) puts between quotes is read back by the scanner
-- (src/parser.c).
use cif_api.Base.{
  ℕ, suc, ◌+◌, ◌-◌, ◌≤◌, true, false, ◌&&◌, [], ◌∷◌, ◌++◌, append_assoc, append-nil, ltb, ◌==◌,
  UString, length, take, drop, All, ◌≡◌, inl, inr, refl, sym, ap, ◌∙◌, arith, Bool-cases, ==_iff,
  line_length,
}
use mathlib.Core.List.{reverse, reverse-append}
use cif_api.Code.{Result, ok}
use cif_api.Scanner.Classes.{Class, Dialect, class_of, is_eol_class}
use cif_api.Scanner.Classes.Letters.{colon-general}
use cif_api.Scanner.State.{
  Scanner, Callback, TokenType, metaclass_of, is_ws_meta, meta_class, space, advance, end_of_token,
  text_of, notify,
}
use cif_api.Scanner.Units.{
  scan_uchar, scan_bmp, handle_unpaired_lead, surrogate_mask, is_disallowed,
}
use cif_api.Scanner.Delimited.{scan_delim_string, after_delim}
use cif_api.Scanner.Tokens.{
  tvalue, is_empty, separated, scan_token, finish_round, token_loop, next_token, needs_no_space,
  next_char, token,
}
use cif_api.Writer.Columns.{Context}
use cif_api.Writer.Columns.Quoted.{write_quoted}

-- A code unit that is no surrogate and is allowed in the version of CIF
abbrev pub IsAllowed : Dialect → ℕ → Type 0
IsAllowed d c =
    ((surrogate_mask c == 0xdc00) ≡ false)
    × ((surrogate_mask c == 0xd800) ≡ false)
    × (is_disallowed d c ≡ false)
    × ((ltb d.cif_version 2 && ltb 0x7e c) ≡ false)

-- A code unit of the text between the delimiters
abbrev pub IsInside : Dialect → ℕ → ℕ → Type 0
IsInside d delim c = IsAllowed d c × ((c == delim) ≡ false) × (is_eol_class (class_of d c) ≡ false)

-- The scanner behind code units that need no report
abbrev pass_one : ℕ → Scanner → Scanner
pass_one c s = advance c (record s { column = s.column + 1 })

abbrev pass : UString → Scanner → Scanner
pass [] s = s
pass (c ∷ cs) s = pass cs (pass_one c s)

text_of-pass : (cs : UString) (s : Scanner) → text_of (pass cs s) ≡ text_of s ++ cs
text_of-pass [] s = sym (append-nil (text_of s))
text_of-pass (c ∷ cs) s =
    text_of-pass cs (pass_one c s)
    ∙ ap (λ t. t ++ cs) (reverse-append (c ∷ []) s.back)
    ∙ append_assoc (text_of s) (c ∷ []) cs

length-pass : (cs : UString) (s : Scanner) → length ((pass cs s).back) ≡ length s.back + length cs
length-pass [] s = omega arith
length-pass (c ∷ cs) s = omega (arith, length-pass cs (pass_one c s))

tvalue_start-pass : (cs : UString) (s : Scanner) → (pass cs s).tvalue_start ≡ s.tvalue_start
tvalue_start-pass [] s = refl
tvalue_start-pass (c ∷ cs) s = tvalue_start-pass cs (pass_one c s)

module _ (callback : Callback) (d : Dialect) where
  scan_uchar-allowed :
      (c : ℕ) (s : Scanner)
      → IsAllowed d c
      → scan_uchar callback d c false s ≡ ok (c, false, pass_one c s)
  unfolding scan_uchar scan_bmp handle_unpaired_lead
  scan_uchar-allowed c s (a, b, e, f) = rw (a, e, f, b) refl

  -- White space behind the closing delimiter ends the string.
  closes :
      (delim w : ℕ) (rest : UString) (s : Scanner) (more closed : Result (Scanner × UString))
      → is_ws_meta (metaclass_of d w) ≡ true
      → (w == delim) ≡ false
      → after_delim callback d delim more closed s (w ∷ rest) ≡ closed
  unfolding after_delim
  closes delim w rest s more closed white other = elim (Bool-cases (ltb d.cif_version 2)) [
    | inl v ↦ rw (v, white) refl
    | inr v ↦ rw (v, other) (ground arith)
  ]

  scan_delim_string-reads :
      (delim w : ℕ) (text rest : UString) (s : Scanner)
      → IsAllowed d delim
      → is_ws_meta (metaclass_of d w) ≡ true
      → (w == delim) ≡ false
      → All (IsInside d delim) text
      → scan_delim_string callback d delim false (text ++ (delim ∷ (w ∷ rest))) s
        ≡ end_of_token 1 1 (pass_one delim (pass text s)) (w ∷ rest)
  unfolding scan_delim_string
  scan_delim_string-reads delim w [] rest s allowed white other inside =
      rw (scan_uchar-allowed delim s allowed, (==_iff delim delim).1 refl)
        (closes delim w rest (pass_one delim s) _ _ white other)
  scan_delim_string-reads delim w (c ∷ cs) rest s allowed white other
        ((fine, differs, same_line), inside) =
      rw (scan_uchar-allowed c s fine, differs, same_line)
        (scan_delim_string-reads delim w cs rest (pass_one c s) allowed white other inside)

-- White space is neither a colon nor a quote.
white-other :
    (d : Dialect) (w c : ℕ)
    → is_ws_meta (metaclass_of d w) ≡ true
    → is_ws_meta (metaclass_of d c) ≡ false
    → (w == c) ≡ false
white-other d w c white other = elim (Bool-cases (w == c)) [
  | inl e ↦ cc (white, other, ap (λ x. is_ws_meta (metaclass_of d x)) ((==_iff w c).0 e))
  | inr e ↦ e
]

-- The scanner with a quoted string as its token
abbrev pub after_quoted : ℕ → UString → Scanner → Scanner
after_quoted delim text s =
    let t = pass_one delim (pass text s) in
    record t {
      ttype = TokenType.qvalue;
      tvalue_start = t.tvalue_start + 1;
      tvalue_length = length t.back - (t.tvalue_start + 1) - 1;
    }

take-length : (xs ys : UString) → take (length xs) (xs ++ ys) ≡ xs
take-length [] ys = refl
take-length (x ∷ xs) ys = ap (◌∷◌ x) (take-length xs ys)

-- Its value is what stands between the quotes.
pub tvalue-after_quoted :
    (delim : ℕ) (text : UString) (s : Scanner)
    → s.back ≡ delim ∷ []
    → s.tvalue_start ≡ 0
    → tvalue (after_quoted delim text s) ≡ text
tvalue-after_quoted delim text s start first =
    let whole : text_of (pass_one delim (pass text s)) ≡ (delim ∷ (text ++ (delim ∷ []))) =
      reverse-append (delim ∷ []) ((pass text s).back)
      ∙ ap (λ t. t ++ (delim ∷ [])) (text_of-pass text s ∙ ap (λ b. reverse b ++ text) start) in
    let size : length ((pass text s).back) ≡ 1 + length text =
      omega (arith, length-pass text s, ap length start) in
    let one : (pass text s).tvalue_start + 1 ≡ 1 = omega (arith, tvalue_start-pass text s, first) in
    let long : suc (length ((pass text s).back)) - ((pass text s).tvalue_start + 1) - 1
        ≡ length text =
      omega (arith, size, one) in
    ap
      (λ k. take k (drop ((pass text s).tvalue_start + 1) (text_of (pass_one delim (pass text s)))))
      long
    ∙ ap (λ k. take (length text) (drop k (text_of (pass_one delim (pass text s))))) one
    ∙ ap (λ t. take (length text) (drop 1 t)) whole
    ∙ take-length text (delim ∷ [])

reports-pass : (cs : UString) (s : Scanner) → (pass cs s).reports ≡ s.reports
reports-pass [] s = refl
reports-pass (c ∷ cs) s = reports-pass cs (pass_one c s)

pub skip_depth-after_quoted :
    (delim : ℕ) (cs : UString) (s : Scanner) → (after_quoted delim cs s).skip_depth ≡ s.skip_depth
skip_depth-after_quoted delim [] s = refl
skip_depth-after_quoted delim (c ∷ cs) s = skip_depth-after_quoted delim cs (pass_one c s)

-- What a text needs to be read back: a delimiter of the quote class, with white space behind it
pub record Readable (d : Dialect) (delim : ℕ) (text : UString) (w : ℕ) : Type 0 where
  pub quote : class_of d delim ≡ Class.quote
  pub allowed : IsAllowed d delim
  pub inside : All (IsInside d delim) text
  pub white : is_ws_meta (metaclass_of d w) ≡ true

module _ (callback : Callback) (d : Dialect) (delim : ℕ) (text : UString) (w : ℕ) (rest : UString)
    (ok_text : Readable d delim text w) where
  scan_token-quoted :
      (s : Scanner)
      → scan_token callback d Class.quote delim (text ++ (delim ∷ (w ∷ rest))) s
        ≡ ok (
          token TokenType.qvalue,
          record (after_quoted delim text s) { ttype = (pass text s).ttype },
          w ∷ rest,
        )
  unfolding scan_token
  scan_token-quoted s =
      let no_quote =
        white-other d w delim ok_text.white (ap (λ c. is_ws_meta (meta_class c)) ok_text.quote) in
      let no_colon =
        white-other d w b':' ok_text.white
          (ap (λ c. is_ws_meta (meta_class c)) (colon-general d)) in
      rw
        (
          scan_delim_string-reads callback d delim w text rest s ok_text.allowed ok_text.white
              no_quote ok_text.inside,
          no_colon,
        )
        refl

  pub token_loop-quoted :
      (fuel : ℕ) (s : Scanner)
      → token_loop callback d (suc fuel) true s (delim ∷ (text ++ (delim ∷ (w ∷ rest))))
        ≡ ok (after_quoted delim text (notify [] (next_char delim s)), w ∷ rest)
  unfolding token_loop separated finish_round
  token_loop-quoted fuel s =
      rw (ok_text.quote, scan_token-quoted (notify [] (next_char delim s))) refl

-- The output of the writer at the start of a line
abbrev pub blank : Context
blank = record { output = []; last_column = 0 }

pub write_quoted-fits :
    (delim : ℕ) (text : UString)
    → length text + 2 ≤ line_length
    → (write_quoted text delim blank).output ≡ delim ∷ (text ++ (delim ∷ []))
unfolding write_quoted
write_quoted-fits delim text fits =
    let short : ltb line_length (0 + length text + 2) ≡ false = ground arith in rw short refl

-- Where the scanner is between tokens and needs no white space: for a text of allowed code units with
-- neither the delimiter nor a line terminator, that fits on a line, what `write_quoted` writes with a
-- quote as delimiter is scanned, before white space, as one quoted value, which is the text; the
-- scanner reports no error, and leaves the white space.
pub next_token-write_quoted :
    (callback : Callback) (d : Dialect) (s : Scanner) (delim : ℕ) (text : UString) (w : ℕ)
    (rest : UString)
    → Readable d delim text w
    → length text + 2 ≤ line_length
    → s.back ≡ []
    → needs_no_space s.ttype ≡ true
    → (t : Scanner) × (next_token callback d s
          ((write_quoted text delim blank).output ++ (w ∷ rest))
        ≡ ok (t, w ∷ rest))
      × (t.ttype ≡ TokenType.qvalue)
      × (tvalue t ≡ text)
      × (t.reports ≡ space s.line (s.column + 1) [] ∷ s.reports)
unfolding next_token
next_token-write_quoted callback d s delim text w rest readable fits start free =
    let u = notify [] (next_char delim s) in
    let input =
      ap (λ o. o ++ (w ∷ rest)) (write_quoted-fits delim text fits)
      ∙ ap (◌∷◌ delim) (append_assoc text (delim ∷ []) (w ∷ rest)) in
    let between : is_empty s.back ≡ true = ap is_empty start in
    (
      after_quoted delim text u,
      rw (between, free, input)
          (token_loop-quoted callback d delim text w rest readable
            (length (delim ∷ (text ++ ((delim ∷ []) ++ (w ∷ rest))))) s),
      refl,
      tvalue-after_quoted delim text u (ap (◌∷◌ delim) start) refl,
      reports-pass text u,
    )
