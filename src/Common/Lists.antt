-- ===== src/Common/Lists.antt =====
-- Lists measured, indexed and counted by native numbers.
use Prim.Native.Nat.{ℕ, zero, suc, ◌+◌, ◌<◌}
use mathlib.Core.Path.{◌≡◌, refl, ap, ◌∙◌}
use mathlib.Core.Logic.{inl, inr}
use mathlib.Core.Bool.{Bool}
use mathlib.Core.List.{List, map, [], ◌∷◌, ◌++◌}
use mathlib.Core.Option.{Option, none, some}
use native.Mathlib.Omega.{arith}
use deno_core.Common.Tests.{◌==◌, if◌then◌else◌, Option-cases}

module _ {ℓ} {A : Type ℓ} where
  abbrev pub length : List A → ℕ
  length [] = 0
  length (x ∷ xs) = suc (length xs)

  abbrev pub get_elem? : List A → ℕ → Option A
  get_elem? [] i = none
  get_elem? (x ∷ xs) zero = some x
  get_elem? (x ∷ xs) (suc i) = get_elem? xs i

  -- A write out of bounds changes nothing.
  abbrev pub set : List A → ℕ → A → List A
  set [] i v = []
  set (x ∷ xs) zero v = v ∷ xs
  set (x ∷ xs) (suc i) v = x ∷ set xs i v

  pub length-append : (xs ys : List A) → length (xs ++ ys) ≡ length xs + length ys
  length-append [] ys = omega arith
  length-append (x ∷ xs) ys = omega (arith, length-append xs ys)

  -- The element at a position with the list without it.
  abbrev pub take_at : ℕ → List A → Option (A × List A)
  take_at i [] = none
  take_at zero (x ∷ xs) = some (x, xs)
  take_at (suc i) (x ∷ xs) = elim (take_at i xs) [ none ↦ none | some (y, ys) ↦ some (y, x ∷ ys) ]

module _ {ℓ} {A : Type ℓ} where
  pub length-set : (xs : List A) (i : ℕ) (v : A) → length (set xs i v) ≡ length xs
  length-set [] i v = refl
  length-set (x ∷ xs) zero v = refl
  length-set (x ∷ xs) (suc i) v = ap suc (length-set xs i v)

module _ {ℓ} {A : Type ℓ} where
  pub get_elem?-set :
      (xs : List A) (i j : ℕ) (u v : A)
      → get_elem? xs i ≡ some u
      → get_elem? (set xs i v) j ≡ (if i == j then some v else get_elem? xs j)
  get_elem?-set [] i j u v e = ground arith
  get_elem?-set (x ∷ xs) zero zero u v e = ground arith
  get_elem?-set (x ∷ xs) zero (suc j) u v e = ground arith
  get_elem?-set (x ∷ xs) (suc i) zero u v e = ground arith
  get_elem?-set (x ∷ xs) (suc i) (suc j) u v e = ground (arith, get_elem?-set xs i j u v e)

  pub get_elem?-append_end :
      (xs : List A) (j : ℕ) (v : A)
      → get_elem? (xs ++ v ∷ []) j ≡ (if length xs == j then some v else get_elem? xs j)
  get_elem?-append_end [] zero v = ground arith
  get_elem?-append_end [] (suc j) v = ground arith
  get_elem?-append_end (x ∷ xs) zero v = ground arith
  get_elem?-append_end (x ∷ xs) (suc j) v = ground (arith, get_elem?-append_end xs j v)

  pub lt_of_get_elem? : (xs : List A) (i : ℕ) (u : A) → get_elem? xs i ≡ some u → i < length xs
  lt_of_get_elem? [] i u e = ground arith
  lt_of_get_elem? (x ∷ xs) zero u e = omega arith
  lt_of_get_elem? (x ∷ xs) (suc i) u e = omega (arith, lt_of_get_elem? xs i u e)

  pub get_elem?_of_lt : (xs : List A) (i : ℕ) → i < length xs → (u : A) × (get_elem? xs i ≡ some u)
  get_elem?_of_lt [] i h = absurd (omega arith)
  get_elem?_of_lt (x ∷ xs) zero h = (x, refl)
  get_elem?_of_lt (x ∷ xs) (suc i) h = get_elem?_of_lt xs i (omega arith)

module _ {ℓ} {A : Type ℓ} (p : A → Bool) where
  -- How many elements pass the test.
  abbrev pub count : List A → ℕ
  count [] = 0
  count (x ∷ xs) = (if p x then 1 else 0) + count xs

  pub count-take_at :
      (i : ℕ) (xs : List A) (y : A) (ys : List A)
      → take_at i xs ≡ some (y, ys)
      → count xs ≡ (if p y then 1 else 0) + count ys
  count-take_at i [] y ys h = ground arith
  count-take_at zero (x ∷ xs) y ys h = ground arith
  count-take_at (suc i) (x ∷ xs) y ys h = elim (Option-cases (take_at i xs)) [
    | inl e ↦ ground arith
    | inr ((z, zs), e) ↦ ground (arith, count-take_at i xs z zs e)
  ]

module _ {ℓ} {A : Type ℓ} where
  pub get_elem?-append_right :
      (xs ys : List A) (i : ℕ) → get_elem? (xs ++ ys) (length xs + i) ≡ get_elem? ys i
  get_elem?-append_right [] ys i = ap (get_elem? ys) {y = i} (omega arith)
  get_elem?-append_right (x ∷ xs) ys i =
      ap (get_elem? (x ∷ (xs ++ ys))) {y = suc (length xs + i)} (omega arith)
      ∙ get_elem?-append_right xs ys i

module _ {ℓ κ} {A : Type ℓ} {B : Type κ} (f : A → B) where
  pub length-map : (xs : List A) → length (map f xs) ≡ length xs
  length-map [] = refl
  length-map (x ∷ xs) = ap suc (length-map xs)

  pub get_elem?-map :
      (xs : List A) (i : ℕ) (b : B)
      → get_elem? (map f xs) i ≡ some b
      → (a : A) × (get_elem? xs i ≡ some a) × (f a ≡ b)
  get_elem?-map [] i b e = absurd (ground (arith, e))
  get_elem?-map (x ∷ xs) zero b e = (x, refl, ground (arith, e))
  get_elem?-map (x ∷ xs) (suc i) b e = get_elem?-map xs i b e
