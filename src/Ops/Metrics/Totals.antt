-- ===== src/Ops/Metrics/Totals.antt =====
-- core/ops_metrics.rs: sums of counters modulo 2 ^ 64.
use deno_core.Common.{
  ℕ, zero, suc, ◌%◌, ◌^◌, ◌<◌, ◌≡◌, refl, ap, ◌∙◌, List, [], ◌∷◌, some, get_elem?, set, arith,
  some_value,
}
use deno_core.Ops.Metrics.{add_u64}

module _ {A : Type 0} (p : A → ℕ) where
  abbrev pub total : ℕ → List A → ℕ
  total n [] = n
  total n (x ∷ xs) = total (add_u64 n (p x)) xs

  pub total_bound : (n : ℕ) (xs : List A) → n < 2 ^ 64 → total n xs < 2 ^ 64
  total_bound n [] h = h
  total_bound n (x ∷ xs) h = total_bound (add_u64 n (p x)) xs (omega arith)

  total_shift : (n k : ℕ) (xs : List A) → total (add_u64 n k) xs ≡ add_u64 (total n xs) k
  total_shift n k [] = refl
  total_shift n k (x ∷ xs) = ap (λ m. total m xs) (omega arith) ∙ total_shift (add_u64 n (p x)) k xs

  -- A counter that grows makes the total grow.
  pub total-set :
      (n k : ℕ) (xs : List A) (i : ℕ) (x y : A)
      → get_elem? xs i ≡ some x
      → p y % 2 ^ 64 ≡ add_u64 (p x) k
      → total n (set xs i y) ≡ add_u64 (total n xs) k
  total-set n k [] i x y e h = absurd (ground (arith, e))
  total-set n k (z ∷ xs) zero x y e h =
      ap (λ m. total m xs) (omega (arith, h, ap p (some_value e)))
      ∙ total_shift (add_u64 n (p z)) k xs
  total-set n k (z ∷ xs) (suc i) x y e h = total-set (add_u64 n (p z)) k xs i x y e h
