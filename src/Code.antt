-- ===== src/Code.antt =====
-- The result codes of src/cif.h, and the results of functions that return a code and, on success,
-- pass a value back through a pointer.
use cif_api.Base.{◌≡◌, refl}

-- Every code but `CIF_OK`, in the order of the header.
pub data Code : Type 0 where
  finished error memory_error invalid_handle internal_error argument_error misuse : Code
  not_supported environment_error client_error dup_blockcode invalid_blockcode : Code
  nosuch_block dup_framecode invalid_framecode nosuch_frame cat_not_unique : Code
  invalid_category nosuch_loop reserved_loop wrong_loop empty_loop null_loop : Code
  dup_itemname invalid_itemname nosuch_item ambiguous_item invalid_packet : Code
  partial_packet disallowed_value invalid_number invalid_index invalid_bare_value : Code
  invalid_char unmapped_char disallowed_char missing_space missing_endquote : Code
  unclosed_text overlength_line disallowed_initial_char wrong_encoding : Code
  no_block_header frame_not_allowed no_frame_term unexpected_term eof_in_frame : Code
  reserved_word missing_value unexpected_value unexpected_delim missing_delim : Code
  missing_key unquoted_key misquoted_key null_key missing_prefix : Code

-- A code that a function returns, or `CIF_OK` together with what is passed back.
pub data Result {ℓ} (A : Type ℓ) : Type ℓ where
  err : Code → Result A
  ok : A → Result A

module _ {ℓ κ} {Value : Type ℓ} {Next : Type κ} where
  infixl 5 ◌>>=◌
  -- "if the result is not `CIF_OK` then return it"
  abbrev pub ◌>>=◌ : Result Value → (Value → Result Next) → Result Next
  err code >>= next = err code
  ok value >>= next = next value

-- A chain that succeeds passed a value from its first step to the rest.
pub >>=-eq-ok {ℓ κ} :
    {Value : Type ℓ} {Next : Type κ} {last : Next} (first : Result Value)
    (rest : Value → Result Next)
    → (first >>= rest) ≡ ok last
    → (value : Value) × (first ≡ ok value) × (rest value ≡ ok last)
>>=-eq-ok (err code) rest done = cc
>>=-eq-ok (ok value) rest done = (value, refl, done)

pub ok-injective {ℓ} : {A : Type ℓ} {a b : A} → ok a ≡ ok b → a ≡ b
ok-injective h = cc
