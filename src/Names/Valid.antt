-- ===== src/Names/Valid.antt =====
-- `cif_is_valid_name` and the normalizers of names and keys in src/utils.c. A pointer that may be
-- NULL is an option; `UChar` strings end at their NUL, so `*name != 0` says that one is not empty.
use cif_api.Base.{
  ℕ, ◌+◌, ◌-◌, ◌≤◌, ◌<◌, Bool, true, false, not, ◌&&◌, ◌||◌, Option, none, some, [], ◌∷◌, leb, ◌==◌,
  if◌then◌else◌, UString, get_or, line_length, All, ◌≡◌, ◌≢◌, ◌↔◌, inl, inr, refl, arith,
  Bool-cases,
}
use cif_api.Code.{Code, Result, err}
use cif_api.Icu.{Icu, nfc}
use cif_api.Names.Convert.{
  Buffer, initial, normalize, unicode_normalize, caseless, delivered, normalize-caseless,
  compose-delivered,
}
use cif_api.Names.Utf16.{has_disallowed_chars, Encodes, has_disallowed_chars_iff}

-- `cif_has_whitespace`
pub has_whitespace : UString → Bool
has_whitespace [] = false
has_whitespace (c ∷ cs) = leb c 0x20 || has_whitespace cs

module _ (icu : Icu) where
  -- `cif_is_valid_name`, for an item name or for a block or frame code
  unfoldable pub is_valid_name : Option UString → Bool → Bool
  unfolding has_whitespace has_disallowed_chars
  is_valid_name none for_item = false
  is_valid_name (some name) for_item =
      (if for_item
        then get_or name 0 0 == b'_' && not (get_or name 1 0 == 0)
        else not (get_or name 0 0 == 0))
      && leb (icu.count_char32 name) (line_length - (if for_item then 0 else 5))
      && not (has_whitespace name)
      && not (has_disallowed_chars name)

  -- The shared shape of the two normalizers of names; a valid name is no NULL pointer.
  normalize_if_valid : Bool → Option UString → Option ℕ → Code → Result Buffer
  normalize_if_valid for_item none namelen invalidity = err invalidity
  normalize_if_valid for_item (some name) namelen invalidity =
      if is_valid_name (some name) for_item then normalize icu name namelen else err invalidity

  -- `cif_normalize_name`
  pub normalize_name : Option UString → Option ℕ → Code → Result Buffer
  unfolding normalize_if_valid
  normalize_name = normalize_if_valid false

  -- `cif_normalize_item_name`
  unfoldable pub normalize_item_name : Option UString → Option ℕ → Code → Result Buffer
  unfolding normalize_if_valid
  normalize_item_name = normalize_if_valid true

  -- `cif_normalize_table_index`
  unfoldable pub normalize_table_index : Option UString → Option ℕ → Code → Result Buffer
  normalize_table_index none namelen invalidity = err invalidity
  normalize_table_index (some name) namelen invalidity =
      if not (has_disallowed_chars name)
      then unicode_normalize icu nfc name namelen true
      else err invalidity

  -- What the CIF specifications ask of a name: a first character, a length, no white space and only
  -- allowed code points. A code leaves room for the five characters of `data_` on its line.
  pub record IsName (name : UString) (for_item : Bool) : Type 0 where
    pub start : (for_item ≡ true → (get_or name 0 0 ≡ b'_') × (get_or name 1 0 ≢ 0))
    pub nonempty : (for_item ≡ false → get_or name 0 0 ≢ 0)
    pub fits : icu.count_char32 name + (if for_item then 0 else 5) ≤ line_length
    pub no_space : All (λ c. 0x20 < c) name
    pub encodes : Encodes name

no_space_iff : (s : UString) → (has_whitespace s ≡ false) ↔ All (λ c. 0x20 < c) s
unfolding has_whitespace
no_space_iff [] = (λ _. tt, λ _. refl)
no_space_iff (c ∷ cs) = ground (arith, no_space_iff cs)

module _ (icu : Icu) where
  is_valid_name→IsName :
      (name : UString) (for_item : Bool)
      → is_valid_name icu (some name) for_item ≡ true
      → IsName icu name for_item
  unfolding is_valid_name
  is_valid_name→IsName name for_item h = record {
    start = ground arith;
    nonempty = ground arith;
    fits = ground arith;
    no_space = (no_space_iff name).0 (ground arith);
    encodes = (has_disallowed_chars_iff name).0 (ground arith);
  }

  IsName→is_valid_name :
      (name : UString) (for_item : Bool)
      → IsName icu name for_item
      → is_valid_name icu (some name) for_item ≡ true
  unfolding is_valid_name
  IsName→is_valid_name name for_item n =
      rw ((no_space_iff name).1 n.no_space, (has_disallowed_chars_iff name).1 n.encodes)
        (ground (arith, n.start, n.nonempty, n.fits))

  pub is_valid_name_iff :
      (name : UString) (for_item : Bool)
      → (is_valid_name icu (some name) for_item ≡ true) ↔ IsName icu name for_item
  is_valid_name_iff name for_item =
      (is_valid_name→IsName name for_item, IsName→is_valid_name name for_item)

  -- An item name that has the form CIF asks for is normalized to its caseless form, or gives
  -- `CIF_ERROR` where ICU cannot convert it.
  pub normalize_item_name-valid :
      (name : UString) (namelen : Option ℕ) (invalidity : Code)
      → IsName icu name true
      → normalize_item_name icu (some name) namelen invalidity
        ≡ delivered icu (caseless icu (initial namelen name))
  unfolding normalize_item_name
  normalize_item_name-valid name namelen invalidity n =
      rw (IsName→is_valid_name name true n) (normalize-caseless icu name namelen)

  -- Any other item name, and a NULL, give the code that the caller names.
  pub normalize_item_name-invalid :
      (name : UString) (namelen : Option ℕ) (invalidity : Code)
      → ¬ (IsName icu name true)
      → (normalize_item_name icu (some name) namelen invalidity ≡ err invalidity)
        × (normalize_item_name icu none namelen invalidity ≡ err invalidity)
  unfolding normalize_item_name
  normalize_item_name-invalid name namelen invalidity n = (
    elim (Bool-cases (is_valid_name icu (some name) true)) [
      | inl v ↦ absurd (n (is_valid_name→IsName name true v))
      | inr v ↦ rw v
    ],
    refl,
  )

  -- A table key all of whose code points are allowed is stored in NFC, or gives `CIF_ERROR` where
  -- ICU cannot convert it.
  pub normalize_table_index-valid :
      (key : UString) (keylen : Option ℕ) (invalidity : Code)
      → Encodes key
      → normalize_table_index icu (some key) keylen invalidity
        ≡ delivered icu (icu.converted nfc (initial keylen key))
  unfolding normalize_table_index
  normalize_table_index-valid key keylen invalidity e =
      rw ((has_disallowed_chars_iff key).1 e) (compose-delivered icu key keylen)

  -- Any other table key, and a NULL, give the code that the caller names.
  pub normalize_table_index-invalid :
      (key : UString) (keylen : Option ℕ) (invalidity : Code)
      → ¬ (Encodes key)
      → (normalize_table_index icu (some key) keylen invalidity ≡ err invalidity)
        × (normalize_table_index icu none keylen invalidity ≡ err invalidity)
  unfolding normalize_table_index
  normalize_table_index-invalid key keylen invalidity n = (
    elim (Bool-cases (has_disallowed_chars key)) [
      | inl v ↦ rw v
      | inr v ↦ absurd (n ((has_disallowed_chars_iff key).0 v))
    ],
    refl,
  )
