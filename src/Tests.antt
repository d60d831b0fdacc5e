-- ===== src/Tests.antt =====
-- Concrete inputs for the theorems: an ICU of plain ASCII text, and a hash table as a list.
mod Names
mod Texts
mod Maps
mod Packets
mod Values
mod Buffers
mod Columns
mod Scanners
mod Parsers
mod Windows
mod Walks
use cif_api.Base.{
  ℕ, Bool, true, false, ◌&&◌, ◌||◌, Option, none, some, List, [], ◌∷◌, ◌++◌, ◌==◌, ==_iff, UString,
  length, ◌≡◌, refl, arith,
}
use cif_api.Icu.{Icu, Form, Call, fit, failure, from_first_in}
use cif_api.Hash.{Entry, Uthash, lookup, without}

abbrev pub starts_with : UString → UString → Bool
starts_with [] s = true
starts_with (t ∷ ts) [] = false
starts_with (t ∷ ts) (c ∷ cs) = t == c && starts_with ts cs

abbrev pub contains : UString → UString → Bool
contains [] t = starts_with t []
contains (c ∷ cs) t = starts_with t (c ∷ cs) || contains cs t

starts_with-append : (t b : UString) → starts_with t (t ++ b) ≡ true
starts_with-append [] b = refl
starts_with-append (t ∷ ts) b = rw ((==_iff t t).1 refl) (starts_with-append ts b)

contains-starts : (s t : UString) → starts_with t s ≡ true → contains s t ≡ true
contains-starts [] t h = h
contains-starts (c ∷ cs) t h = rw h

pub contains-middle : (a t b : UString) → contains (a ++ (t ++ b)) t ≡ true
contains-middle [] t b = contains-starts (t ++ b) t (starts_with-append t b)
contains-middle (c ∷ cs) t b = ground (arith, contains-middle cs t b)

pub no_failure : (s : UString) (capacity : ℕ) → some s ≡ none → (fit s capacity).status ≡ failure
no_failure s capacity h = cc

pub fits_as :
    (s out : UString) (capacity : ℕ) → some s ≡ some out → fit s capacity ≡ fit out capacity
fits_as s out capacity h = cc

-- Every conversion leaves the text as it is.
abbrev pub plain_icu : Icu
plain_icu = record {
  converted = λ f s. some s;
  convert = λ f s capacity. fit s capacity;
  count_char32 = length;
  strstr = contains;
  strpbrk = λ s set. from_first_in set s;
  convert-fit = λ f s out capacity h. fits_as s out capacity h;
  convert_failure = λ f s capacity h. no_failure s capacity h;
  strstr_sound = contains-middle;
  strpbrk-first = λ s set. refl;
}

abbrev pub list_hash : (V : Type 0) → Uthash V
list_hash V = record {
  find = lookup;
  add = λ es e. es ++ (e ∷ []);
  delete = without;
  stale = λ k. [];
  find-lookup = λ es k. refl;
  add-append = λ es e. refl;
  delete-without = λ es k. refl;
}
