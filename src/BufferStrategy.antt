-- ===== src/BufferStrategy.antt =====
-- core/io/buffer_strategy.rs: how large a buffer the next read gets. `usize` has 64 bits.
pub mod Growth
mod Tests
use deno_core.Common.{
  ℕ, zero, suc, ◌+◌, ◌-◌, ◌*◌, ◌%◌, ◌^◌, max, min, Bool, ◌&&◌, List, [], ◌∷◌, Option, none, some,
  ltb, leb, ◌==◌, if◌then◌else◌,
}

abbrev pub standard_buffer_size : ℕ
standard_buffer_size = 64 * 1024

abbrev pub tiny_buffer_size : ℕ
tiny_buffer_size = 1024

abbrev pub max_grow_len : ℕ
max_grow_len = 16 * 1024 * 1024

abbrev pub usize_max : ℕ
usize_max = 2 ^ 64 - 1

pub data SizeClass : Type 0 where
  unknown likely_empty : SizeClass
  likely_known : ℕ → SizeClass
  between : ℕ → ℕ → SizeClass
  bounded_max bounded_min : ℕ → SizeClass

unfoldable pub from_size_hint : ℕ → Option ℕ → SizeClass
from_size_hint zero none = SizeClass.unknown
from_size_hint (suc n) none = SizeClass.bounded_min (suc n)
from_size_hint zero (some zero) = SizeClass.likely_empty
from_size_hint zero (some (suc m)) = SizeClass.bounded_max (suc m)
from_size_hint (suc n) (some m) =
    if suc n == m then SizeClass.likely_known (suc n) else SizeClass.between (suc n) m

unfoldable pub to_size_hint : SizeClass → ℕ × Option ℕ
to_size_hint SizeClass.unknown = (0, none)
to_size_hint SizeClass.likely_empty = (0, some 0)
to_size_hint (SizeClass.likely_known n) = (n, some n)
to_size_hint (SizeClass.bounded_min n) = (n, none)
to_size_hint (SizeClass.bounded_max n) = (0, some n)
to_size_hint (SizeClass.between n m) = (n, some m)

-- The least power of two from `2 ^ k` on that is at least `n`; the first argument is the fuel.
unfoldable pub power_from : ℕ → ℕ → ℕ → ℕ
power_from zero k n = 2 ^ k
power_from (suc fuel) k n =
    let next = power_from fuel (suc k) n in if leb n (2 ^ k) then 2 ^ k else next

-- `usize::next_power_of_two`, which wraps to 0 where the power does not fit (a release build).
unfoldable pub next_power_of_two : ℕ → ℕ
next_power_of_two n = power_from 64 0 n % 2 ^ 64

unfoldable pub class_size : SizeClass → ℕ
class_size SizeClass.unknown = standard_buffer_size
class_size SizeClass.likely_empty = 0
class_size (SizeClass.likely_known n) = next_power_of_two n
class_size (SizeClass.bounded_min n) = max standard_buffer_size (next_power_of_two n)
class_size (SizeClass.bounded_max n) = min standard_buffer_size (next_power_of_two n)
class_size (SizeClass.between n m) = max standard_buffer_size (next_power_of_two n)

unfoldable pub initial_buffer_size : SizeClass → ℕ
unfolding class_size
initial_buffer_size c = max (class_size c) tiny_buffer_size

unfoldable pub expected_remaining : SizeClass → ℕ
expected_remaining SizeClass.unknown = usize_max
expected_remaining SizeClass.likely_empty = 0
expected_remaining (SizeClass.likely_known n) = n
expected_remaining (SizeClass.bounded_min n) = usize_max
expected_remaining (SizeClass.bounded_max n) = n
expected_remaining (SizeClass.between n m) = m

pub record AdaptiveBufferStrategy : Type 0 where
  pub grow_len : ℕ
  pub remaining : ℕ

unfoldable pub new_from_hint : ℕ → Option ℕ → AdaptiveBufferStrategy
new_from_hint n maybe_max =
    let size_class = from_size_hint n maybe_max in
    record { grow_len = initial_buffer_size size_class; remaining = expected_remaining size_class }

unfoldable pub buffer_size : AdaptiveBufferStrategy → ℕ
buffer_size s = s.grow_len

-- `saturating_sub` is `-` on ℕ.
unfoldable pub notify_read : AdaptiveBufferStrategy → ℕ → AdaptiveBufferStrategy
notify_read s nread =
    let left = s.remaining - nread in
    record {
      grow_len =
          if leb s.grow_len nread && (ltb s.grow_len max_grow_len && ltb 0 left)
          then s.grow_len * 2
          else s.grow_len;
      remaining = left;
    }

unfoldable pub notify_reads : AdaptiveBufferStrategy → List ℕ → AdaptiveBufferStrategy
notify_reads s [] = s
notify_reads s (n ∷ ns) = notify_reads (notify_read s n) ns
