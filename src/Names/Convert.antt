-- ===== src/Names/Convert.antt =====
-- `cif_unicode_normalize`, `cif_fold_case` and `cif_normalize` of src/utils.c: conversions that
-- retry with a larger buffer, and the chain of three conversions behind caseless matching.
use cif_api.Base.{
  ℕ, zero, suc, ◌+◌, Bool, true, false, Option, none, some, ◌≡◌, ap, ◌∙◌, arith, ◌==◌,
  if◌then◌else◌, UString, length, take, Option-cases, inl, inr,
}
use cif_api.Code.{Result, ok, err, error, memory_error, ◌>>=◌}
use cif_api.Icu.{
  Icu, Form, nfd, nfc, folded, success, not_terminated, buffer_overflow, failure, Call, fit,
}

-- A result buffer: its content, and whether a NUL follows it.
pub record Buffer : Type 0 where
  pub content : UString
  pub terminated : Bool

-- `(srclen >= 0) ? srclen : u_strlen(src)` units of the source; `none` is a negative `srclen`.
abbrev pub initial : Option ℕ → UString → UString
initial none s = s
initial (some n) s = take n s

module _ (icu : Icu) where
  -- What one round does with the outcome of its call; `again` is the next round.
  after_call : Call → Bool → Result Buffer → Result Buffer
  after_call c terminate again = elim c.status [
    | success ↦ ok (record { content = c.written; terminated = true })
    | not_terminated ↦ ok (record { content = c.written; terminated = terminate })
    | buffer_overflow ↦ again
    | failure ↦ err error
  ]

  -- `while (buf)`; the code after the loop returns `CIF_MEMORY_ERROR`.
  convert_loop : ℕ → Form → UString → Bool → ℕ → Result Buffer
  convert_loop zero form src terminate capacity = err memory_error
  convert_loop (suc fuel) form src terminate capacity =
      let c = icu.convert form src capacity in
      let again = convert_loop fuel form src terminate (c.reported + 1) in
      after_call c terminate again

  unfoldable pub unicode_normalize : Form → UString → Option ℕ → Bool → Result Buffer
  unfolding convert_loop after_call
  unicode_normalize form src srclen terminate =
      let s = initial srclen src in convert_loop 2 form s terminate (length s + 1)

  -- The folded text is not terminated when it just fits.
  unfoldable pub fold_case : UString → Option ℕ → Result Buffer
  unfolding convert_loop after_call
  fold_case src srclen = let s = initial srclen src in convert_loop 2 folded s false (length s + 1)

  unfoldable pub normalize : UString → Option ℕ → Result Buffer
  unfolding unicode_normalize fold_case
  normalize src srclen = do
    decomposed ← unicode_normalize nfd src srclen false
    caseless ← fold_case decomposed.content none
    unicode_normalize nfc caseless.content none true

  -- The loop's result where the conversion yields `out`.
  abbrev filled : UString → Bool → ℕ → Buffer
  filled out terminate capacity = record {
    content = out;
    terminated = if length out == capacity then terminate else true;
  }

  after_fit :
      (out : UString) (terminate : Bool) (capacity : ℕ)
      → after_call
          (fit out capacity)
          terminate
          (after_call (fit out ((fit out capacity).reported + 1)) terminate (err memory_error))
        ≡ ok (filled out terminate capacity)
  unfolding after_call
  after_fit out terminate capacity = ground arith

  convert_loop-some :
      (form : Form) (s out : UString) (terminate : Bool) (capacity : ℕ)
      → icu.converted form s ≡ some out
      → convert_loop 2 form s terminate capacity ≡ ok (filled out terminate capacity)
  unfolding convert_loop
  convert_loop-some form s out terminate capacity h = rw (icu.convert-fit form s out capacity h) (
      rw (icu.convert-fit form s out ((fit out capacity).reported + 1) h)
        (after_fit out terminate capacity))

  convert_loop-none :
      (form : Form) (s : UString) (terminate : Bool) (capacity : ℕ)
      → icu.converted form s ≡ none
      → convert_loop 2 form s terminate capacity ≡ err error
  unfolding convert_loop after_call
  convert_loop-none form s terminate capacity h = rw (icu.convert_failure form s capacity h)

  -- Caseless matching by the Unicode standard: decompose, fold case, compose.
  pub caseless : UString → Option UString
  caseless s = elim (icu.converted nfd s) [
    | none ↦ none
    | some a ↦ elim (icu.converted folded a) [ none ↦ none | some b ↦ icu.converted nfc b ]
  ]

  -- The buffer that a caller is given.
  abbrev pub delivered : Option UString → Result Buffer
  delivered none = err error
  delivered (some c) = ok (record { content = c; terminated = true })

  filled-true :
      (out : UString) (capacity : ℕ)
      → filled out true capacity ≡ record { content = out; terminated = true }
  filled-true out capacity = ground arith

  compose_step : (s : UString) → unicode_normalize nfc s none true ≡ delivered (icu.converted nfc s)
  unfolding unicode_normalize
  compose_step s = elim (Option-cases (icu.converted nfc s)) [
    | inl e ↦ rw e (convert_loop-none nfc s true (length s + 1) e)
    | inr (c, e) ↦
        rw e
          (convert_loop-some nfc s c true (length s + 1) e ∙ ap ok (filled-true c (length s + 1)))
  ]

  -- The folding and composing steps after a decomposition to `a`.
  fold_step :
      (a : UString)
      → (fold_case a none >>= λ b. unicode_normalize nfc b.content none true)
        ≡ delivered (elim (icu.converted folded a) [ none ↦ none | some b ↦ icu.converted nfc b ])
  unfolding fold_case
  fold_step a = elim (Option-cases (icu.converted folded a)) [
    | inl e ↦ rw (e, convert_loop-none folded a false (length a + 1) e)
    | inr (b, e) ↦ rw (e, convert_loop-some folded a b false (length a + 1) e) (compose_step b)
  ]

  -- `cif_normalize` returns the NUL-terminated NFC form of the case-folded NFD form of the initial
  -- segment that `srclen` selects, and `CIF_ERROR` exactly when one of the conversions fails: the
  -- buffer loops never give up after their second round.
  pub normalize-caseless :
      (src : UString) (srclen : Option ℕ)
      → normalize src srclen ≡ delivered (caseless (initial srclen src))
  unfolding normalize unicode_normalize caseless
  normalize-caseless src srclen =
      let s = initial srclen src in
      elim (Option-cases (icu.converted nfd s)) [
        | inl e ↦ rw (e, caseless) (rw (convert_loop-none nfd s false (length s + 1) e, normalize))
        | inr (a, e) ↦
            rw (e, caseless)
              (rw (convert_loop-some nfd s a false (length s + 1) e, normalize) (fold_step a))
      ]

  -- `unicode_normalize` to the form that table keys take.
  pub compose-delivered :
      (src : UString) (srclen : Option ℕ)
      → unicode_normalize nfc src srclen true ≡ delivered (icu.converted nfc (initial srclen src))
  unfolding unicode_normalize
  compose-delivered src srclen = compose_step (initial srclen src)
