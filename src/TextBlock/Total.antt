-- ===== src/TextBlock/Total.antt =====
-- `write_text` (src/ciffile.c) succeeds: it finds a place for every fold, and the segments that it
-- cuts off use up each line.
use cif_api.Base.{
  ℕ, zero, suc, ◌≤◌, ◌<◌, Bool, true, false, not, ◌&&◌, ◌||◌, List, [], ◌∷◌, ◌++◌, leb, ◌==◌,
  if◌then◌else◌, UString, length, take, drop, All, ◌≡◌, ◌≢◌, refl, arith, length-drop, Bool-cases,
  inl, inr,
}
use cif_api.Chars.{nl, semi, bsl}
use cif_api.Code.{Result, ok, ◌>>=◌}
use cif_api.Writer.Fold.{fold_line}
use cif_api.Writer.Fold.Positive.{FreeOfSemi, fold_line-pos}
use cif_api.Writer.Text.{
  prefix_text, folding_window, target_length, needs_protection, segments, write_line, write_lines,
  lines, cons_to_first, flags, write_text,
}

-- The result is no error.
pub record IsOk {ℓ} {A : Type ℓ} (r : Result A) : Type ℓ where
  pub value : A
  pub returned : r ≡ ok value

All-drop {ℓ κ} : {A : Type ℓ} (P : A → Type κ) (n : ℕ) (s : List A) → All P s → All P (drop n s)
All-drop P zero s h = h
All-drop P (suc n) [] h = tt
All-drop P (suc n) (x ∷ xs) h = All-drop P n xs h.1

FreeOfSemi-drop :
    (prefix : Bool) (n : ℕ) (s : UString) → FreeOfSemi prefix s → FreeOfSemi prefix (drop n s)
FreeOfSemi-drop prefix n s (inl p) = inl p
FreeOfSemi-drop prefix n s (inr h) = inr (All-drop (λ c. c ≢ semi) n s h)

map_ok {ℓ κ} :
    {A : Type ℓ} {B : Type κ} {r : Result A} (f : A → B) → IsOk r → IsOk (r >>= λ a. ok (f a))
map_ok f o = record { value = f o.value; returned = rw o.returned }

module _ (fold prefix : Bool) where
  -- Each round shortens the line, so its length is enough fuel.
  segments-IsOk :
      (fuel : ℕ) (protect : Bool) (line : UString)
      → length line ≤ fuel
      → FreeOfSemi prefix line
      → IsOk (segments fold prefix fuel protect line)
  unfolding segments
  segments-IsOk fuel protect [] h f = record { value = []; returned = refl }
  segments-IsOk zero protect (c ∷ cs) h f = absurd (omega arith)
  segments-IsOk (suc fuel) protect (c ∷ cs) h f =
      let n = fold_line (c ∷ cs) fold target_length folding_window prefix in
      let moves : 0 < n = (fold_line-pos c cs fold target_length 5 prefix f (omega arith)).0 in
      let some_length : (n == 0) ≡ false = ground arith in
      let shorter : length (drop n (c ∷ cs)) ≤ fuel = omega (arith, length-drop n (c ∷ cs)) in
      let more =
        segments-IsOk fuel protect (drop n (c ∷ cs)) shorter
          (FreeOfSemi-drop prefix n (c ∷ cs) f) in
      rw (some_length, segments)
        (map_ok
          (λ (tail : UString).
            nl
            ∷ ((if prefix then prefix_text else [])
                ++ (take n (c ∷ cs)
                    ++ ((if leb 1 (length (drop n (c ∷ cs))) || protect then bsl ∷ [] else [])
                        ++ tail))))
          more)

  write_line-IsOk : (line : UString) → FreeOfSemi prefix line → IsOk (write_line fold prefix line)
  unfolding write_line
  write_line-IsOk line f =
      let protect = needs_protection fold false line in
      map_ok (λ (text : UString). text ++ (if protect then nl ∷ [] else []))
        (segments-IsOk (length line) protect line (omega arith) f)

  both_ok : {r s : Result UString} → IsOk r → IsOk s → IsOk (r >>= λ a. s >>= λ b. ok (a ++ b))
  both_ok x y = record { value = x.value ++ y.value; returned = rw (x.returned, y.returned) }

  write_lines-IsOk :
      (ls : List UString) → All (FreeOfSemi prefix) ls → IsOk (write_lines fold prefix ls)
  unfolding write_lines
  write_lines-IsOk [] h = record { value = []; returned = refl }
  write_lines-IsOk ([] ∷ []) h = record { value = []; returned = refl }
  write_lines-IsOk ([] ∷ (l ∷ ls)) h = map_ok (◌∷◌ nl) (write_lines-IsOk (l ∷ ls) h.1)
  write_lines-IsOk ((c ∷ cs) ∷ ls) h =
      both_ok (write_line-IsOk (c ∷ cs) h.0) (write_lines-IsOk ls h.1)

  cons_to_first-All {κ} :
      (P : UString → Type κ) (c : ℕ) (ls : List UString)
      → P (c ∷ [])
      → ((l : UString) → P l → P (c ∷ l))
      → All P ls
      → All P (cons_to_first c ls)
  unfolding cons_to_first
  cons_to_first-All P c [] one more h = (one, tt)
  cons_to_first-All P c (l ∷ ls) one more h = (more l h.0, h.1)

  lines-prefixed : (s : UString) → prefix ≡ true → All (FreeOfSemi prefix) (lines s)
  unfolding lines
  lines-prefixed [] p = (inl p, tt)
  lines-prefixed (c ∷ cs) p = elim (Bool-cases (c == nl)) [
    | inl b ↦ rw b (inl p, lines-prefixed cs p)
    | inr b ↦ rw b (
        cons_to_first-All (FreeOfSemi prefix) c (lines cs) (inl p) (λ l h. inl p)
          (lines-prefixed cs p))
  ]

  lines-semi : (s : UString) → All (λ c. c ≢ semi) s → All (All (λ c. c ≢ semi)) (lines s)
  unfolding lines
  lines-semi [] h = (tt, tt)
  lines-semi (c ∷ cs) h = elim (Bool-cases (c == nl)) [
    | inl b ↦ rw b (tt, lines-semi cs h.1)
    | inr b ↦ rw b (
        cons_to_first-All (All (λ c. c ≢ semi)) c (lines cs) (h.0, tt) (λ l g. (h.0, g))
          (lines-semi cs h.1))
  ]

  All-map {ℓ κ μ} :
      {A : Type ℓ} {P : A → Type κ} {Q : A → Type μ} (xs : List A)
      → ((x : A) → P x → Q x)
      → All P xs
      → All Q xs
  All-map [] f h = tt
  All-map (x ∷ xs) f h = (f x h.0, All-map xs f h.1)

  lines-FreeOfSemi : (s : UString) → FreeOfSemi prefix s → All (FreeOfSemi prefix) (lines s)
  lines-FreeOfSemi s (inl p) = lines-prefixed s p
  lines-FreeOfSemi s (inr h) = All-map (lines s) (λ l g. inr g) (lines-semi s h)

  -- `write_text` writes every text that is not empty and whose lines can be folded: any such text
  -- under the line prefix, and without it any such text that holds no semicolon.
  pub write_text-IsOk :
      (text : UString) → text ≢ [] → FreeOfSemi prefix text → IsOk (write_text fold prefix text)
  unfolding write_text
  write_text-IsOk text some_text f = elim (Bool-cases (not fold && not prefix)) [
    | inl b ↦ rw b (record { value = nl ∷ semi ∷ (text ++ (nl ∷ semi ∷ [])); returned = refl })
    | inr b ↦ rw b (
        map_ok (λ (content : UString). nl ∷ semi ∷ (content ++ (nl ∷ semi ∷ [])))
          (map_ok (λ (body : UString). flags fold prefix ++ body)
            (write_lines-IsOk (lines text) (lines-FreeOfSemi text f))))
  ]
