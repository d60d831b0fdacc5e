-- ===== src/Reserved/Words.antt =====
-- The tests of `cif_is_reserved_string` (src/utils.c), character by character, find the reserved
-- words in any case of letters.
use mathlib.Core.Bool.{and_assoc}
use cif_api.Base.{
  ℕ, Bool, true, false, ◌&&◌, ◌||◌, [], ◌∷◌, ◌≡◌, refl, arith, ◌==◌, ◌+◌, ◌<◌, ◌≤◌, if◌then◌else◌,
  UString, All,
}
use cif_api.Reserved.{
  is_letter, at, is_data_tail, is_global_tail, is_loop_tail, is_save_tail, is_stop_tail,
  is_reserved_string, is_reserved_start, lower, starts, is_word, ata_, ave_, lobal_, oop_, top_,
  is_reserved,
}

data_tail-starts : (c : ℕ) (cs : UString) → is_data_tail (c ∷ cs) ≡ starts ata_ cs
unfolding is_data_tail starts
data_tail-starts c [] = refl
data_tail-starts c (d ∷ []) = ground arith
data_tail-starts c (d ∷ e ∷ []) = ground arith
data_tail-starts c (d ∷ e ∷ f ∷ []) = ground arith
data_tail-starts c (d ∷ e ∷ f ∷ g ∷ cs) = ground arith

save_tail-starts :
    (c : ℕ) (cs : UString)
    → (is_letter b'A' b'a' (at cs 0) && is_save_tail (c ∷ cs)) ≡ starts ave_ cs
unfolding is_save_tail starts
save_tail-starts c [] = refl
save_tail-starts c (d ∷ []) = ground arith
save_tail-starts c (d ∷ e ∷ []) = ground arith
save_tail-starts c (d ∷ e ∷ f ∷ []) = ground arith
save_tail-starts c (d ∷ e ∷ f ∷ g ∷ cs) = ground arith

-- At the end of a word the NUL ends the string, which holds none before.
at_end : (cs : UString) → All (λ c. 0 < c) cs → (at cs 0 == 0) ≡ is_word [] cs
unfolding is_word
at_end [] h = refl
at_end (c ∷ cs) h = ground arith

stop_tail-is_word :
    (c : ℕ) (cs : UString)
    → All (λ x. 0 < x) cs
    → (is_letter b'T' b't' (at cs 0) && is_stop_tail (c ∷ cs)) ≡ is_word top_ cs
unfolding is_stop_tail is_word
stop_tail-is_word c [] h = refl
stop_tail-is_word c (d ∷ []) h = ground arith
stop_tail-is_word c (d ∷ e ∷ []) h = ground arith
stop_tail-is_word c (d ∷ e ∷ f ∷ []) h = ground arith
stop_tail-is_word c (d ∷ e ∷ f ∷ g ∷ cs) h = ground (arith, at_end cs h.1.1.1.1)

loop_tail-is_word :
    (c : ℕ) (cs : UString) → All (λ x. 0 < x) cs → is_loop_tail (c ∷ cs) ≡ is_word oop_ cs
unfolding is_loop_tail is_word
loop_tail-is_word c [] h = refl
loop_tail-is_word c (d ∷ []) h = ground arith
loop_tail-is_word c (d ∷ e ∷ []) h = ground arith
loop_tail-is_word c (d ∷ e ∷ f ∷ []) h = ground arith
loop_tail-is_word c (d ∷ e ∷ f ∷ g ∷ cs) h = ground (arith, at_end cs h.1.1.1.1)

letter : (u l c : ℕ) → 65 ≤ u → u ≤ 90 → u + 32 ≡ l → is_letter u l c ≡ (lower c == l)
letter u l c h k e = ground arith

underscore : (c : ℕ) → (c == b'_') ≡ (lower c == b'_')
underscore c = ground arith

global_tail-is_word :
    (c : ℕ) (cs : UString) → All (λ x. 0 < x) cs → is_global_tail (c ∷ cs) ≡ is_word lobal_ cs
unfolding is_global_tail is_word
global_tail-is_word c [] h = refl
global_tail-is_word c (d ∷ []) h = ground arith
global_tail-is_word c (d ∷ e ∷ []) h = ground arith
global_tail-is_word c (d ∷ e ∷ f ∷ []) h = ground arith
global_tail-is_word c (d ∷ e ∷ f ∷ g ∷ []) h = ground arith
global_tail-is_word c (d ∷ e ∷ f ∷ g ∷ i ∷ []) h = ground arith
global_tail-is_word c (d ∷ e ∷ f ∷ g ∷ i ∷ j ∷ cs) h =
    rw
      (
        letter b'L' b'l' d (omega arith) (omega arith) refl,
        letter b'O' b'o' e (omega arith) (omega arith) refl,
        letter b'B' b'b' f (omega arith) (omega arith) refl,
        letter b'A' b'a' g (omega arith) (omega arith) refl,
        letter b'L' b'l' i (omega arith) (omega arith) refl,
        underscore j,
        at_end cs h.1.1.1.1.1.1,
        is_word,
      )
      (simp and_assoc)

s_branch :
    (c : ℕ) (cs : UString)
    → All (λ x. 0 < x) cs
    → (if is_letter b'A' b'a' (at cs 0)
        then is_save_tail (c ∷ cs)
        else if is_letter b'T' b't' (at cs 0)
        then is_stop_tail (c ∷ cs)
        else false)
      ≡ (starts ave_ cs || is_word top_ cs)
s_branch c cs h = ground (arith, save_tail-starts c cs, stop_tail-is_word c cs h)

-- The switch on the first character, over the tests of the rest.
first_switch :
    (c : ℕ) (data_ save global loop stop : Bool)
    → (if is_reserved_start c
        then true
        else if is_letter b'D' b'd' c
        then data_
        else if is_letter b'G' b'g' c
        then global
        else if is_letter b'L' b'l' c
        then loop
        else if is_letter b'S' b's' c
        then save || stop
        else false)
      ≡ (is_reserved_start c
          || (lower c == b'd' && data_)
          || (lower c == b's' && save)
          || (lower c == b'g' && global)
          || (lower c == b'l' && loop)
          || (lower c == b's' && stop))
first_switch c data_ save global loop stop = ground arith

is_reserved_string-cons :
    (c : ℕ) (cs : UString)
    → All (λ x. 0 < x) cs
    → is_reserved_string (c ∷ cs) ≡ is_reserved (c ∷ cs)
is_reserved_string-cons c cs h =
    unfold is_reserved_string is_reserved in
    rw
      (data_tail-starts c cs, s_branch c cs h, loop_tail-is_word c cs h, global_tail-is_word c cs h)
      (first_switch c (starts ata_ cs) (starts ave_ cs) (is_word lobal_ cs) (is_word oop_ cs)
        (is_word top_ cs))

-- The tests find exactly the strings that start with a reserved character, with data_ or save_, or
-- that are global_, loop_ or stop_, letters counting in either case.
pub is_reserved_string_lem :
    (s : UString) → All (λ x. 0 < x) s → is_reserved_string s ≡ is_reserved s
is_reserved_string_lem [] h = unfold is_reserved_string is_reserved in refl
is_reserved_string_lem (c ∷ cs) h = is_reserved_string-cons c cs h.1
