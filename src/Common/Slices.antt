-- ===== src/Common/Slices.antt =====
-- Parts of lists: `take` and `drop` over native numbers, and how they compose.
use Prim.Native.Nat.{ℕ, zero, suc, ◌+◌, ◌-◌, ◌≤◌, min}
use mathlib.Core.Path.{◌≡◌, refl, ap, sym, ◌∙◌}
use mathlib.Core.List.{List, [], ◌∷◌, ◌++◌}
use native.Mathlib.Omega.{arith}
use deno_core.Common.Lists.{length}

module _ {ℓ} {A : Type ℓ} where
  abbrev pub take : ℕ → List A → List A
  take zero xs = []
  take (suc n) [] = []
  take (suc n) (x ∷ xs) = x ∷ take n xs

  abbrev pub drop : ℕ → List A → List A
  drop zero xs = xs
  drop (suc n) [] = []
  drop (suc n) (x ∷ xs) = drop n xs

  pub length-take : (n : ℕ) (xs : List A) → length (take n xs) ≡ min n (length xs)
  length-take zero xs = omega arith
  length-take (suc n) [] = omega arith
  length-take (suc n) (x ∷ xs) = omega (arith, length-take n xs)

  pub length-drop : (n : ℕ) (xs : List A) → length (drop n xs) ≡ length xs - n
  length-drop zero xs = omega arith
  length-drop (suc n) [] = omega arith
  length-drop (suc n) (x ∷ xs) = omega (arith, length-drop n xs)

  -- A part of a part.
  pub take_of_take : (k n : ℕ) (xs : List A) → k ≤ n → take k (take n xs) ≡ take k xs
  take_of_take zero n xs h = refl
  take_of_take (suc k) zero xs h = absurd (omega arith)
  take_of_take (suc k) (suc n) [] h = refl
  take_of_take (suc k) (suc n) (x ∷ xs) h = ap (◌∷◌ x) (take_of_take k n xs (omega arith))

  pub drop_nil : (k : ℕ) (xs : List A) → xs ≡ [] → drop k xs ≡ []
  drop_nil zero xs e = e
  drop_nil (suc k) [] e = refl
  drop_nil (suc k) (x ∷ xs) e = absurd (ground (arith, ap length e))

  pub take_nil : (k : ℕ) (xs : List A) → xs ≡ [] → take k xs ≡ []
  take_nil zero xs e = refl
  take_nil (suc k) [] e = refl
  take_nil (suc k) (x ∷ xs) e = absurd (ground (arith, ap length e))

  pub take_by : {k n : ℕ} (xs : List A) → k ≡ n → take k xs ≡ take n xs
  take_by xs e = ap (λ i. take i xs) e

  pub drop_by : {k n : ℕ} (xs : List A) → k ≡ n → drop k xs ≡ drop n xs
  drop_by xs e = ap (λ i. drop i xs) e

  pub drop-take : (k n : ℕ) (xs : List A) → drop k (take n xs) ≡ take (n - k) (drop k xs)
  drop-take zero n xs = take_by xs (omega arith)
  drop-take (suc k) zero xs = take_by {k = 0} {n = 0 - suc k} (drop (suc k) xs) (omega arith)
  drop-take (suc k) (suc n) [] = sym (take_nil (suc n - suc k) [] refl)
  drop-take (suc k) (suc n) (x ∷ xs) =
      drop-take k n xs ∙ take_by {k = n - k} {n = suc n - suc k} (drop k xs) (omega arith)

  pub drop-drop : (k n : ℕ) (xs : List A) → drop k (drop n xs) ≡ drop (n + k) xs
  drop-drop k zero xs = drop_by {k = k} {n = 0 + k} xs (omega arith)
  drop-drop k (suc n) [] = drop_nil k [] refl ∙ sym (drop_nil (suc n + k) [] refl)
  drop-drop k (suc n) (x ∷ xs) =
      drop-drop k n xs ∙ drop_by {k = suc (n + k)} {n = suc n + k} (x ∷ xs) (omega arith)

  pub take_all : (n : ℕ) (xs : List A) → length xs ≤ n → take n xs ≡ xs
  take_all zero [] h = refl
  take_all zero (x ∷ xs) h = absurd (omega arith)
  take_all (suc n) [] h = refl
  take_all (suc n) (x ∷ xs) h = ap (◌∷◌ x) (take_all n xs (omega arith))

  -- A part of a part, the shorter one of the two.
  pub take-take : (k n : ℕ) (xs : List A) → take k (take n xs) ≡ take (min k n) xs
  take-take zero n xs = take_by {k = 0} {n = min 0 n} xs (omega arith)
  take-take (suc k) zero xs = take_by {k = 0} {n = min (suc k) 0} xs (omega arith)
  take-take (suc k) (suc n) [] = sym (take_nil (min (suc k) (suc n)) [] refl)
  take-take (suc k) (suc n) (x ∷ xs) =
      ap (◌∷◌ x) (take-take k n xs)
      ∙ take_by {k = suc (min k n)} {n = min (suc k) (suc n)} (x ∷ xs) (omega arith)

  pub take-append-drop : (n : ℕ) (xs : List A) → take n xs ++ drop n xs ≡ xs
  take-append-drop zero xs = refl
  take-append-drop (suc n) [] = refl
  take-append-drop (suc n) (x ∷ xs) = ap (◌∷◌ x) (take-append-drop n xs)
