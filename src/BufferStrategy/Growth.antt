-- ===== src/BufferStrategy/Growth.antt =====
-- core/io/buffer_strategy.rs: the size hint is kept, and the buffers grow by doubling up to a limit.
use native.Mathlib.Nat.{pow-suc, pow-le-pow_right}
use deno_core.Common.{
  ◌&&◌, ◌++◌, ◌∙◌, ap, subst, ℕ, zero, suc, ◌+◌, ◌-◌, ◌*◌, ◌%◌, ◌^◌, ◌≤◌, ◌<◌, ◌≡◌, refl, max, min,
  Bool, true, false, List, [], ◌∷◌, Option, none, some, arith, inl, inr, Bool-cases, ltb, leb,
  if◌then◌else◌, ◌⊎◌, sym,
}
use deno_core.BufferStrategy.{
  SizeClass, AdaptiveBufferStrategy, standard_buffer_size, tiny_buffer_size, max_grow_len,
  from_size_hint, to_size_hint, power_from, next_power_of_two, class_size, initial_buffer_size,
  new_from_hint, buffer_size, notify_read, notify_reads,
}

-- A size class keeps the hint that it was made from.
pub to_size_hint-from_size_hint :
    (n : ℕ) (m : Option ℕ) → to_size_hint (from_size_hint n m) ≡ (n, m)
unfolding to_size_hint from_size_hint
to_size_hint-from_size_hint zero none = refl
to_size_hint-from_size_hint (suc n) none = refl
to_size_hint-from_size_hint zero (some zero) = refl
to_size_hint-from_size_hint zero (some (suc m)) = refl
to_size_hint-from_size_hint (suc n) (some m) = ground arith

abbrev pub PowerOfTwo : ℕ → Type 0
PowerOfTwo g = (k : ℕ) × (g ≡ 2 ^ k)

power_from-PowerOfTwo : (fuel k n : ℕ) → (j : ℕ) × (power_from fuel k n ≡ 2 ^ j) × (j ≤ k + fuel)
unfolding power_from
power_from-PowerOfTwo zero k n = (k, refl, omega arith)
power_from-PowerOfTwo (suc fuel) k n = elim (Bool-cases (leb n (2 ^ k))) [
  | inl fits ↦ (k, ground arith, omega arith)
  | inr more ↦
      let (j, e, le) = power_from-PowerOfTwo fuel (suc k) n in (j, ground arith, omega arith)
]

power_mono : {k j : ℕ} → k ≤ j → 2 ^ k ≤ 2 ^ j
power_mono h = pow-le-pow_right (omega arith) h

-- 0 or a power of two, as `next_power_of_two` returns.
abbrev ZeroOrPower : ℕ → Type 0
ZeroOrPower g = (g ≡ 0) ⊎ PowerOfTwo g

mod_small : (g : ℕ) → g < 2 ^ 64 → g % 2 ^ 64 ≡ g
mod_small g h = omega arith

next_power_of_two-ZeroOrPower : (n : ℕ) → ZeroOrPower (next_power_of_two n)
unfolding next_power_of_two
next_power_of_two-ZeroOrPower n =
    let (j, e, le) = power_from-PowerOfTwo 64 0 n in
    subst (λ g. ZeroOrPower (g % 2 ^ 64)) (sym e) (wrapped j le)
  where
    wrapped : (j : ℕ) → j ≤ 64 → ZeroOrPower (2 ^ j % 2 ^ 64)
    wrapped j le = elim (le-or-eq j le) [
      | inl lt ↦ inr (j, mod_small (2 ^ j) (omega (arith, power_mono lt)))
      | inr e ↦ inl (omega (arith, ap (λ i. 2 ^ i) e))
    ]
      where
        le-or-eq : (j : ℕ) → j ≤ 64 → (j ≤ 63) ⊎ (j ≡ 64)
        le-or-eq j h = ground arith

pick : (P : ℕ → Type 0) (a b c : ℕ) → (c ≡ a) ⊎ (c ≡ b) → P a → P b → P c
pick P a b c (inl e) pa pb = subst P (sym e) pa
pick P a b c (inr e) pa pb = subst P (sym e) pb

max_cases : (a b : ℕ) → (max a b ≡ a) ⊎ (max a b ≡ b)
max_cases a b = ground arith

min_cases : (a b : ℕ) → (min a b ≡ a) ⊎ (min a b ≡ b)
min_cases a b = ground arith

standard-ZeroOrPower : ZeroOrPower standard_buffer_size
standard-ZeroOrPower = inr (16, refl)

class_size-ZeroOrPower : (c : SizeClass) → ZeroOrPower (class_size c)
unfolding class_size
class_size-ZeroOrPower SizeClass.unknown = standard-ZeroOrPower
class_size-ZeroOrPower SizeClass.likely_empty = inl refl
class_size-ZeroOrPower (SizeClass.likely_known n) = next_power_of_two-ZeroOrPower n
class_size-ZeroOrPower (SizeClass.bounded_min n) =
    pick ZeroOrPower standard_buffer_size (next_power_of_two n) _ (max_cases _ _)
      standard-ZeroOrPower (next_power_of_two-ZeroOrPower n)
class_size-ZeroOrPower (SizeClass.bounded_max n) =
    pick ZeroOrPower standard_buffer_size (next_power_of_two n) _ (min_cases _ _)
      standard-ZeroOrPower (next_power_of_two-ZeroOrPower n)
class_size-ZeroOrPower (SizeClass.between n m) =
    pick ZeroOrPower standard_buffer_size (next_power_of_two n) _ (max_cases _ _)
      standard-ZeroOrPower (next_power_of_two-ZeroOrPower n)

initial-PowerOfTwo : (c : SizeClass) → PowerOfTwo (initial_buffer_size c)
unfolding initial_buffer_size
initial-PowerOfTwo c = go (class_size c) (class_size-ZeroOrPower c)
  where
    go : (g : ℕ) → ZeroOrPower g → PowerOfTwo (max g tiny_buffer_size)
    go g (inl e) = (10, omega arith)
    go g (inr p) = pick PowerOfTwo g tiny_buffer_size _ (max_cases _ _) p (10, refl)

-- What reads keep of a buffer's size: it stays a power of two, never shrinks, and doubles only
-- below the limit.
abbrev Grown : AdaptiveBufferStrategy → AdaptiveBufferStrategy → Type 0
Grown s t =
    PowerOfTwo t.grow_len × (s.grow_len ≤ t.grow_len) × (t.grow_len ≤ max s.grow_len max_grow_len)

double_below :
    (k g : ℕ) → g ≡ 2 ^ k → g < max_grow_len → (g * 2 ≡ 2 ^ suc k) × (g * 2 ≤ max_grow_len)
double_below k g e lt = elim (split k) [
  | inl small ↦
      (omega (arith, pow-suc 2 k), omega (arith, pow-suc 2 k, power_mono (suc-le-suc small)))
  | inr large ↦ absurd (omega (arith, power_mono large))
]
  where
    split : (k : ℕ) → (k < 24) ⊎ (24 ≤ k)
    split k = ground arith

    suc-le-suc : {k : ℕ} → k < 24 → suc k ≤ 24
    suc-le-suc h = omega arith

grow_step : (s : AdaptiveBufferStrategy) (n : ℕ) → PowerOfTwo s.grow_len → Grown s (notify_read s n)
unfolding notify_read
grow_step s n (k, e) =
    go (leb s.grow_len n && (ltb s.grow_len max_grow_len && ltb 0 (s.remaining - n)))
      (λ grows. ground arith)
  where
    go :
        (b : Bool)
        → (b ≡ true → s.grow_len < max_grow_len)
        → PowerOfTwo (if b then s.grow_len * 2 else s.grow_len)
          × (s.grow_len ≤ (if b then s.grow_len * 2 else s.grow_len))
          × ((if b then s.grow_len * 2 else s.grow_len) ≤ max s.grow_len max_grow_len)
    go true lt =
        let (power, le) = double_below k s.grow_len e (lt refl) in
        ((suc k, power), omega arith, omega arith)
    go false lt = ((k, e), omega arith, omega arith)

grow_steps :
    (s : AdaptiveBufferStrategy) (ns : List ℕ) → PowerOfTwo s.grow_len → Grown s (notify_reads s ns)
unfolding notify_reads
grow_steps s [] p = (p, omega arith, omega arith)
grow_steps s (n ∷ ns) p =
    let (q, up, low) = grow_step s n p in
    let (r, up', low') = grow_steps (notify_read s n) ns q in (r, omega arith, omega arith)

-- After any reads on a new strategy, the next buffer is a power of two, at least
-- TINY_BUFFER_SIZE, not smaller than the first buffer, and never larger than the larger of the
-- first buffer and 16 MB.
pub growth_bounds :
    (n : ℕ) (m : Option ℕ) (reads : List ℕ)
    → let first = new_from_hint n m in
      let size = buffer_size (notify_reads first reads) in
      PowerOfTwo size
      × (tiny_buffer_size ≤ size)
      × (buffer_size first ≤ size)
      × (size ≤ max (buffer_size first) max_grow_len)
unfolding new_from_hint buffer_size initial_buffer_size
growth_bounds n m reads =
    let (p, up, low) =
      grow_steps (new_from_hint n m) reads (initial-PowerOfTwo (from_size_hint n m)) in
    (p, omega (arith, tiny-le (from_size_hint n m)), up, low)
  where
    tiny-le : (c : SizeClass) → tiny_buffer_size ≤ initial_buffer_size c
    tiny-le c = omega arith

-- The bytes that reads returned.
unfoldable pub total : List ℕ → ℕ
total [] = 0
total (n ∷ ns) = n + total ns

remaining-notify_reads :
    (s : AdaptiveBufferStrategy) (ns : List ℕ)
    → (notify_reads s ns).remaining ≡ s.remaining - total ns
unfolding notify_reads notify_read total
remaining-notify_reads s [] = omega arith
remaining-notify_reads s (n ∷ ns) = omega (arith, remaining-notify_reads (notify_read s n) ns)

settled :
    (s : AdaptiveBufferStrategy) (ns : List ℕ)
    → s.remaining ≡ 0
    → (notify_reads s ns).grow_len ≡ s.grow_len
unfolding notify_reads notify_read
settled s [] h = refl
settled s (n ∷ ns) h = settled (notify_read s n) ns (omega arith) ∙ same
  where
    same : (notify_read s n).grow_len ≡ s.grow_len
    same = ground arith

notify_reads_append :
    (s : AdaptiveBufferStrategy) (ns ms : List ℕ)
    → notify_reads s (ns ++ ms) ≡ notify_reads (notify_reads s ns) ms
unfolding notify_reads
notify_reads_append s [] ms = refl
notify_reads_append s (n ∷ ns) ms = notify_reads_append (notify_read s n) ns ms

-- Once the reads have returned as many bytes as the strategy expected, no later read changes the
-- size of the buffers.
pub no_growth_after_hint :
    (s : AdaptiveBufferStrategy) (reads more : List ℕ)
    → s.remaining ≤ total reads
    → buffer_size (notify_reads s (reads ++ more)) ≡ buffer_size (notify_reads s reads)
unfolding buffer_size
no_growth_after_hint s reads more h =
    ap (λ t. t.grow_len) (notify_reads_append s reads more)
    ∙ settled (notify_reads s reads) more (omega (arith, remaining-notify_reads s reads))
