-- ===== src/Names/Utf16.antt =====
-- `cif_has_disallowed_chars` of src/utils.c, against the encoding of code points in UTF-16.
use cif_api.Base.{
  ℕ, ◌+◌, ◌-◌, ◌*◌, ◌/◌, ◌%◌, ◌≤◌, ◌<◌, Bool, true, false, ◌&&◌, ◌||◌, not, List, [], ◌∷◌, ◌++◌,
  ◌≡◌, refl, ap, ◌∙◌, subst, ◌≢◌, ◌↔◌, ◌⊎◌, inl, inr, arith, ltb, leb, ◌==◌, if◌then◌else◌, bit_and,
  UString, All, Bool-cases, holds_up_to, holds_up_to-below, ltb→lt,
}

-- A disallowed BMP character.
bmp_disallowed : ℕ → Bool
bmp_disallowed c =
    (ltb c 0x20 && not (c == 0x9) && not (c == 0xa) && not (c == 0xd))
    || c == 0x7f
    || (ltb 0xfdcf c && ltb c 0xfdf0)
    || ltb 0xfffd c

-- A code unit outside the surrogates.
abbrev outside : ℕ → Bool
outside c = ltb c 0xd800 || ltb 0xdfff c

-- The trail of the lead surrogate `high`: unpaired, or a pair that encodes "not a character".
bad_trail : ℕ → ℕ → Bool
bad_trail high c =
    if ltb c 0xdc00 || ltb 0xdfff c
    then true
    else bit_and c 0x3fe == 0x3fe && bit_and high 0x3f == 0x3f

-- `cif_has_disallowed_chars`; a lead surrogate at the end meets the terminating NUL.
unfoldable pub has_disallowed_chars : UString → Bool
unfolding bmp_disallowed bad_trail
has_disallowed_chars [] = false
has_disallowed_chars (c ∷ []) = if outside c then bmp_disallowed c else true
has_disallowed_chars (c ∷ d ∷ cs) =
    let next = bmp_disallowed c || has_disallowed_chars (d ∷ cs) in
    let paired = bad_trail c d || has_disallowed_chars cs in
    if outside c then next else if leb 0xdc00 c then true else paired

-- UTF-16: one unit for the BMP, a surrogate pair above it.
abbrev encode_point : ℕ → UString
encode_point p =
    if ltb p 0x10000
    then p ∷ []
    else (0xd800 + (p - 0x10000) / 0x400) ∷ (0xdc00 + (p - 0x10000) % 0x400) ∷ []

pub encode : List ℕ → UString
encode [] = []
encode (p ∷ ps) = encode_point p ++ encode ps

-- The code points that CIF allows: Unicode scalar values that are no control characters but tab,
-- line feed and carriage return, and none of Unicode's "not a character" values.
pub record IsAllowed (p : ℕ) : Type 0 where
  pub in_range : p < 0x110000
  pub no_surrogate : (p < 0xd800) ⊎ (0xdfff < p)
  pub no_control : (0x20 ≤ p) ⊎ (p ≡ 0x9) ⊎ (p ≡ 0xa) ⊎ (p ≡ 0xd)
  pub no_delete : p ≢ 0x7f
  pub no_gap : (p < 0xfdd0) ⊎ (0xfdef < p)
  pub is_character : p % 0x10000 < 0xfffe

-- What the masks test, by the units' low bits.
abbrev agree : Bool → Bool → Bool
agree true b = b
agree false b = not b

agree→eq : (a b : Bool) → agree a b ≡ true → a ≡ b
agree→eq a b h = ground arith

trail_mask_table :
    holds_up_to (λ k. agree (bit_and (0xdc00 + k) 0x3fe == 0x3fe) (leb 1022 k)) 1024 ≡ true
unfolding holds_up_to
trail_mask_table = refl

lead_mask_table :
    holds_up_to (λ k. agree (bit_and (0xd800 + k) 0x3f == 0x3f) (k % 64 == 63)) 1024 ≡ true
unfolding holds_up_to
lead_mask_table = refl

trail_mask : (k : ℕ) → k < 1024 → (bit_and (0xdc00 + k) 0x3fe == 0x3fe) ≡ leb 1022 k
trail_mask k h = agree→eq _ _ (holds_up_to-below _ 1024 trail_mask_table k h)

lead_mask : (k : ℕ) → k < 1024 → (bit_and (0xd800 + k) 0x3f == 0x3f) ≡ (k % 64 == 63)
lead_mask k h = agree→eq _ _ (holds_up_to-below _ 1024 lead_mask_table k h)

-- The pair of the units 0xd800 + i and 0xdc00 + k.
abbrev point : ℕ → ℕ → ℕ
point i k = 0x10000 + i * 0x400 + k

bad_trail-pair :
    (i k : ℕ)
    → i < 1024
    → k < 1024
    → bad_trail (0xd800 + i) (0xdc00 + k) ≡ leb 0xfffe (point i k % 0x10000)
unfolding bad_trail
bad_trail-pair i k hi hk = rw (trail_mask k hk, lead_mask i hi) (ground arith)

bmp_disallowed→IsAllowed : (c : ℕ) → outside c ≡ true → bmp_disallowed c ≡ false → IsAllowed c
unfolding bmp_disallowed
bmp_disallowed→IsAllowed c o h = record {
  in_range = ground arith;
  no_surrogate = ground arith;
  no_control = ground arith;
  no_delete = ground arith;
  no_gap = ground arith;
  is_character = ground arith;
}

encode_point-bmp : (c : ℕ) → bmp_disallowed c ≡ false → encode_point c ≡ c ∷ []
unfolding bmp_disallowed
encode_point-bmp c h = ground arith

encode_point-pair :
    (i k : ℕ) → i < 1024 → k < 1024 → encode_point (point i k) ≡ (0xd800 + i) ∷ (0xdc00 + k) ∷ []
encode_point-pair i k hi hk = ground arith

pair-IsAllowed :
    (i k : ℕ)
    → i < 1024
    → k < 1024
    → bad_trail (0xd800 + i) (0xdc00 + k) ≡ false
    → IsAllowed (point i k)
pair-IsAllowed i k hi hk h = ground (arith, bad_trail-pair i k hi hk)

-- A string that encodes allowed code points.
pub record Encodes (s : UString) : Type 0 where
  pub points : List ℕ
  pub allowed : All IsAllowed points
  pub encodes : encode points ≡ s

Encodes-bmp :
    (c : ℕ) {s : UString}
    → outside c ≡ true
    → bmp_disallowed c ≡ false
    → Encodes s
    → Encodes (c ∷ s)
unfolding encode
Encodes-bmp c o h e = record {
  points = c ∷ e.points;
  allowed = (bmp_disallowed→IsAllowed c o h, e.allowed);
  encodes = rw (encode_point-bmp c h) (ap (◌∷◌ c) e.encodes);
}

Encodes-pair :
    (i k : ℕ) {s : UString}
    → i < 1024
    → k < 1024
    → bad_trail (0xd800 + i) (0xdc00 + k) ≡ false
    → Encodes s
    → Encodes ((0xd800 + i) ∷ (0xdc00 + k) ∷ s)
unfolding encode
Encodes-pair i k hi hk h e = record {
  points = point i k ∷ e.points;
  allowed = (pair-IsAllowed i k hi hk h, e.allowed);
  encodes =
      rw (encode_point-pair i k hi hk)
        (ap (λ (t : UString). (0xd800 + i) ∷ (0xdc00 + k) ∷ t) e.encodes);
}

bad_trail-range : (c d : ℕ) → bad_trail c d ≡ false → (0xdc00 ≤ d) × (d ≤ 0xdfff)
unfolding bad_trail
bad_trail-range c d h = ground arith

Encodes-surrogates :
    (c d : ℕ) {s : UString}
    → outside c ≡ false
    → leb 0xdc00 c ≡ false
    → bad_trail c d ≡ false
    → Encodes s
    → Encodes (c ∷ d ∷ s)
Encodes-surrogates c d {s} o l b e =
    let r = bad_trail-range c d b in
    let ec : 0xd800 + (c - 0xd800) ≡ c = ground arith in
    let ed : 0xdc00 + (d - 0xdc00) ≡ d = omega arith in
    subst (λ (x : ℕ). Encodes (x ∷ d ∷ s)) ec
      (subst (λ (y : ℕ). Encodes ((0xd800 + (c - 0xd800)) ∷ y ∷ s)) ed
        (Encodes-pair (c - 0xd800) (d - 0xdc00) (ground arith) (omega arith) (rw (ec, ed) b) e))

has_disallowed_chars→Encodes : (s : UString) → has_disallowed_chars s ≡ false → Encodes s
unfolding has_disallowed_chars encode
has_disallowed_chars→Encodes [] h = record { points = []; allowed = tt; encodes = refl }
has_disallowed_chars→Encodes (c ∷ []) h =
    Encodes-bmp c (ground arith) (ground arith)
      (record { points = []; allowed = tt; encodes = refl })
has_disallowed_chars→Encodes (c ∷ d ∷ cs) h = elim (Bool-cases (outside c)) [
  | inl o ↦ Encodes-bmp c o (ground arith) (has_disallowed_chars→Encodes (d ∷ cs) (ground arith))
  | inr o ↦
      Encodes-surrogates c d o (ground arith) (ground arith)
        (has_disallowed_chars→Encodes cs (ground arith))
]

IsAllowed→bmp :
    (p : ℕ) → IsAllowed p → p < 0x10000 → (outside p ≡ true) × (bmp_disallowed p ≡ false)
unfolding bmp_disallowed
IsAllowed→bmp p a h = ground arith

has_disallowed_chars-bmp :
    (c : ℕ) (s : UString)
    → outside c ≡ true
    → bmp_disallowed c ≡ false
    → has_disallowed_chars (c ∷ s) ≡ has_disallowed_chars s
unfolding has_disallowed_chars
has_disallowed_chars-bmp c [] o h = ground arith
has_disallowed_chars-bmp c (d ∷ cs) o h = ground arith

has_disallowed_chars-pair :
    (i k : ℕ) (s : UString)
    → i < 1024
    → k < 1024
    → bad_trail (0xd800 + i) (0xdc00 + k) ≡ false
    → has_disallowed_chars ((0xd800 + i) ∷ (0xdc00 + k) ∷ s) ≡ has_disallowed_chars s
unfolding has_disallowed_chars
has_disallowed_chars-pair i k s hi hk h = ground arith

has_disallowed_chars-encode_point :
    (p : ℕ) (s : UString)
    → IsAllowed p
    → has_disallowed_chars (encode_point p ++ s) ≡ has_disallowed_chars s
has_disallowed_chars-encode_point p s a = elim (Bool-cases (ltb p 0x10000)) [
  | inl h ↦
      let b = IsAllowed→bmp p a (ltb→lt p 0x10000 h) in rw h (has_disallowed_chars-bmp p s b.0 b.1)
  | inr h ↦
      let i = (p - 0x10000) / 0x400 in
      let k = (p - 0x10000) % 0x400 in
      let range = a.in_range in
      let pair : bad_trail (0xd800 + i) (0xdc00 + k) ≡ false =
        bad_trail-pair i k (ground arith) (omega arith) ∙ ground arith in
      rw h (has_disallowed_chars-pair i k s (ground arith) (omega arith) pair)
]

Encodes→has_disallowed_chars :
    (ps : List ℕ) → All IsAllowed ps → has_disallowed_chars (encode ps) ≡ false
unfolding has_disallowed_chars encode
Encodes→has_disallowed_chars [] a = refl
Encodes→has_disallowed_chars (p ∷ ps) a =
    has_disallowed_chars-encode_point p (encode ps) a.0 ∙ Encodes→has_disallowed_chars ps a.1

pub has_disallowed_chars_iff : (s : UString) → (has_disallowed_chars s ≡ false) ↔ Encodes s
has_disallowed_chars_iff s = (
  has_disallowed_chars→Encodes s,
  λ e.
      subst (λ (t : UString). has_disallowed_chars t ≡ false) e.encodes
        (Encodes→has_disallowed_chars e.points e.allowed),
)
