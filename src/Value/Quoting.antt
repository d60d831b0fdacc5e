-- ===== src/Value/Quoting.antt =====
-- `cif_value_is_quoted`, `cif_value_set_quoted` and `cif_value_try_quoted` of src/value.c: whether
-- a value is presented between delimiters.
use cif_api.Base.{
  Bool, true, false, not, ◌||◌, Option, none, some, [], ◌∷◌, if◌then◌else◌, UString, equals,
  equals-other, All, any, ◌==◌, ◌≡◌, ◌≢◌, ◌↔◌, refl, Option-cases, inl, inr, arith,
}
use cif_api.Chars.{nl, cr, tab, sp}
use cif_api.Code.{Code, Result, ok, err, argument_error}
use cif_api.Icu.{Icu, from_first_in}
use cif_api.Reserved.{is_reserved_string}
use cif_api.Value.{Value, char, numb, list, table, na, unk, init, na_kind, unk_kind}

-- `cif_value_is_quoted`
pub is_quoted : Value → Bool
is_quoted (char text quoted) = quoted
is_quoted (numb n) = n.quoted
is_quoted _ = false

-- `cif_value_copy_char` of a string, by way of `cif_value_init_char`
abbrev pub copy_char : Value → UString → Value
copy_char value text = char text true

abbrev pub unk_string : UString
unk_string = b'?' ∷ []

abbrev pub na_string : UString
na_string = b'.' ∷ []

abbrev pub hard_disallowed_chars : UString
hard_disallowed_chars = sp ∷ tab ∷ nl ∷ cr ∷ []

abbrev pub disallowed_chars : UString
disallowed_chars = b'[' ∷ b']' ∷ b'{' ∷ b'}' ∷ hard_disallowed_chars

module _ (icu : Icu) where
  -- A string behind the checks for brackets and white space; `none` is `CIF_OK` as the conditional
  -- result, with which the value stays as it is.
  pub unquote_plain : UString → Option Code → Result Value
  unquote_plain text conditional = elim (icu.strpbrk text disallowed_chars) [
    | none ↦ ok (char text false)
    | some tail ↦ elim (icu.strpbrk tail hard_disallowed_chars) [
      | some more ↦ err argument_error
      | none ↦ elim conditional [ none ↦ ok (char text true) | some code ↦ err code ]
    ]
  ]

  -- "quoted to unquoted"
  pub unquote : UString → Option Code → Result Value
  unfolding unquote_plain is_reserved_string init
  unquote text conditional =
      let plain = unquote_plain text conditional in
      if equals text []
      then err argument_error
      else (if equals text unk_string
          then ok (init (char text true) unk_kind)
          else (if equals text na_string
              then ok (init (char text true) na_kind)
              else (if is_reserved_string text then err argument_error else plain)))

  -- `cif_value_set_quoted_impl`
  pub set_quoted_impl : Value → Bool → Option Code → Result Value
  unfolding unquote
  set_quoted_impl unk quoted conditional = ok (if quoted then copy_char unk unk_string else unk)
  set_quoted_impl na quoted conditional = ok (if quoted then copy_char na na_string else na)
  set_quoted_impl (list vs capacity) quoted conditional =
      if quoted then err argument_error else ok (list vs capacity)
  set_quoted_impl (table es is_standalone) quoted conditional =
      if quoted then err argument_error else ok (table es is_standalone)
  set_quoted_impl (numb n) quoted conditional = ok (numb (record n { quoted = quoted }))
  set_quoted_impl (char text was_quoted) quoted conditional =
      let unquoted = unquote text conditional in
      if quoted || not was_quoted then ok (char text quoted) else unquoted

  -- `cif_value_set_quoted`
  unfoldable pub set_quoted : Value → Bool → Result Value
  unfolding set_quoted_impl
  set_quoted value quoted = set_quoted_impl value quoted (some argument_error)

  -- `cif_value_try_quoted`
  pub try_quoted : Value → Bool → Result Value
  unfolding set_quoted_impl
  try_quoted value quoted = set_quoted_impl value quoted none

  -- A value has the quoting asked for.
  Quotes : Bool → Result Value → Type 0
  unfolding is_quoted
  Quotes quoted (ok v) = is_quoted v ≡ quoted
  Quotes quoted (err code) = Unit

  unquote_plain-Quotes : (text : UString) → Quotes false (unquote_plain text (some argument_error))
  unfolding unquote_plain Quotes
  unquote_plain-Quotes text = elim (Option-cases (icu.strpbrk text disallowed_chars)) [
    | inl e ↦ rw (e, unquote_plain, Quotes) refl
    | inr (tail, e) ↦ elim (Option-cases (icu.strpbrk tail hard_disallowed_chars)) [
      | inl f ↦ rw (e, f, unquote_plain, Quotes) tt
      | inr (more, f) ↦ rw (e, f, unquote_plain, Quotes) tt
    ]
  ]

  if-Quotes :
      (b : Bool) (x y : Result Value)
      → Quotes false x
      → Quotes false y
      → Quotes false (if b then x else y)
  if-Quotes true x y p q = p
  if-Quotes false x y p q = q

  unquote-Quotes : (text : UString) → Quotes false (unquote text (some argument_error))
  unfolding unquote Quotes
  unquote-Quotes text = if-Quotes (equals text []) _ _ tt (
      if-Quotes (equals text unk_string) _ _ refl (
        if-Quotes (equals text na_string) _ _ refl
          (if-Quotes (is_reserved_string text) _ _ tt (unquote_plain-Quotes text))))

  set_quoted-Quotes : (v : Value) (quoted : Bool) → Quotes quoted (set_quoted v quoted)
  unfolding set_quoted Quotes
  set_quoted-Quotes unk true = refl
  set_quoted-Quotes unk false = refl
  set_quoted-Quotes na true = refl
  set_quoted-Quotes na false = refl
  set_quoted-Quotes (list vs c) true = tt
  set_quoted-Quotes (list vs c) false = refl
  set_quoted-Quotes (table es b) true = tt
  set_quoted-Quotes (table es b) false = refl
  set_quoted-Quotes (numb n) quoted = refl
  set_quoted-Quotes (char text was) true = refl
  set_quoted-Quotes (char text false) false = refl
  set_quoted-Quotes (char text true) false = unquote-Quotes text

  -- When `cif_value_set_quoted` succeeds, the value has the quoting that was asked for.
  pub is_quoted-set_quoted :
      (v r : Value) (quoted : Bool) → set_quoted v quoted ≡ ok r → is_quoted r ≡ quoted
  unfolding Quotes
  is_quoted-set_quoted v r quoted h = rw h at (set_quoted-Quotes v quoted)

  from_first_in-none :
      (set s : UString) → (from_first_in set s ≡ none) ↔ All (λ c. any (◌==◌ c) set ≡ false) s
  from_first_in-none set [] = (λ _. tt, λ _. refl)
  from_first_in-none set (c ∷ cs) = ground (arith, from_first_in-none set cs)

  unquote-plain :
      (text : UString) (conditional : Option Code)
      → text ≢ []
      → text ≢ unk_string
      → text ≢ na_string
      → is_reserved_string text ≡ false
      → unquote text conditional ≡ unquote_plain text conditional
  unfolding unquote
  unquote-plain text conditional e u n r =
      rw (equals-other text [] e, equals-other text unk_string u, equals-other text na_string n, r)

  plain-refuses :
      (text tail : UString)
      → from_first_in disallowed_chars text ≡ some tail
      → unquote_plain text (some argument_error) ≢ ok (char text false)
  unfolding unquote_plain
  plain-refuses text tail f h = elim (Option-cases (icu.strpbrk tail hard_disallowed_chars)) [
    | inl g ↦ cc (rw (icu.strpbrk-first text disallowed_chars, f, g, unquote_plain) at h)
    | inr (more, g) ↦ cc (rw (icu.strpbrk-first text disallowed_chars, f, g, unquote_plain) at h)
  ]

  -- A quoted string that is no special word becomes an unquoted one if, and only if, it has no
  -- bracket, brace or white space.
  pub set_quoted-unquotes_iff :
      (text : UString)
      → text ≢ []
      → text ≢ unk_string
      → text ≢ na_string
      → is_reserved_string text ≡ false
      → (set_quoted (char text true) false ≡ ok (char text false))
        ↔ All (λ c. any (◌==◌ c) disallowed_chars ≡ false) text
  unfolding set_quoted unquote_plain
  set_quoted-unquotes_iff text e u n r =
      rw (unquote-plain text (some argument_error) e u n r)
        (elim (Option-cases (from_first_in disallowed_chars text)) [
          | inl f ↦
              rw (icu.strpbrk-first text disallowed_chars, f, unquote_plain)
                ((λ _. (from_first_in-none disallowed_chars text).0 f), (λ _. refl))
          | inr (tail, f) ↦ (
            (λ h. absurd (plain-refuses text tail f h)),
            (λ h. absurd (cc (f, (from_first_in-none disallowed_chars text).1 h))),
          )
        ])
