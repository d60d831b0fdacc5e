-- ===== src/Icu.antt =====
-- What the sources use of ICU (a library that they only call), as an interface: the operations
-- with the documented behaviour that the theorems rest on.
use cif_api.Base.{
  ℕ, Bool, true, Option, none, some, [], ◌∷◌, any, ◌++◌, ◌≡◌, ltb, ◌==◌, if◌then◌else◌, UString,
  length, take,
}

-- `UNORM_NFD`, `UNORM_NFC`, and `u_strFoldCase` with `U_FOLD_CASE_DEFAULT`.
pub data Form : Type 0 where
  nfd nfc folded : Form

-- The outcomes that the sources tell apart in a `UErrorCode`.
pub data Status : Type 0 where
  success not_terminated buffer_overflow failure : Status

-- One call with an output buffer: its status, the length that it reports, and what it wrote.
pub record Call : Type 0 where
  pub status : Status
  pub reported : ℕ
  pub written : UString

-- How a conversion meets a buffer of `capacity` units, as the ICU manual documents it: an output
-- that leaves room for the terminator, one that fills the buffer, and one that does not fit.
abbrev pub fit : UString → ℕ → Call
fit out capacity =
    if ltb (length out) capacity
    then record { status = success; reported = length out; written = out }
    else if length out == capacity
    then record { status = not_terminated; reported = length out; written = out }
    else record { status = buffer_overflow; reported = length out; written = take capacity out }

-- The part of a string that starts at its first character out of a set.
abbrev pub from_first_in : UString → UString → Option UString
from_first_in set [] = none
from_first_in set (c ∷ cs) = if any (◌==◌ c) set then some (c ∷ cs) else from_first_in set cs

pub record Icu : Type 0 where
  -- the text in the given form, if the conversion does not fail
  pub converted : Form → UString → Option UString
  -- `unorm_normalize` and `u_strFoldCase` with an output buffer of the given capacity
  pub convert : Form → UString → ℕ → Call
  -- `u_countChar32(s, -1)`
  pub count_char32 : UString → ℕ
  -- `u_strstr(s, t) != NULL`
  pub strstr : UString → UString → Bool
  -- `u_strpbrk(s, set)`
  pub strpbrk : UString → UString → Option UString
  pub convert-fit :
      (f : Form) (s out : UString) (capacity : ℕ)
      → converted f s ≡ some out
      → convert f s capacity ≡ fit out capacity
  pub convert_failure :
      (f : Form) (s : UString) (capacity : ℕ)
      → converted f s ≡ none
      → (convert f s capacity).status ≡ failure
  -- a string found nowhere is not a part
  pub strstr_sound : (a t b : UString) → strstr (a ++ (t ++ b)) t ≡ true
  pub strpbrk-first : (s set : UString) → strpbrk s set ≡ from_first_in set s
