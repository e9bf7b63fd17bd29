-- ===== src/V8Slice/Tests.antt =====
-- A slice of a store of four two-byte elements, and a slice whose range ends past the store.
use deno_core.Common.{ℕ, ◌-◌, ◌%◌, ◌^◌, ◌≡◌, refl, [], ◌∷◌, some, none, arith}
use deno_core.V8Slice.{
  BackingStore, V8Slice, len, as_slice, split_to, split_off, from_parts, into_parts,
}
use deno_core.V8Slice.Split.{split_panics, into_parts-from_parts}

abbrev numbers : BackingStore ℕ
numbers = record { data_of = some (10 ∷ 20 ∷ 30 ∷ 40 ∷ []); byte_length = 8 }

abbrev last_three : V8Slice ℕ
last_three = record { store = numbers; start = 1; end = 9 }

last_three_shown : as_slice 2 last_three ≡ 20 ∷ 30 ∷ 40 ∷ []
unfolding as_slice
last_three_shown = refl

split_panics_example : (split_to 2 last_three 4 ≡ none) × (split_off 2 last_three 4 ≡ none)
unfolding len
split_panics_example = split_panics 2 last_three 4 (omega arith)

-- Bytes 3 to 7 are rounded down to whole elements.
into_parts-from_parts_example :
    (into_parts 2 (from_parts 2 numbers 3 7) ≡ some (numbers, 3 - 3 % 2, 7 - 7 % 2))
    × (from_parts 2 numbers (3 - 3 % 2) (7 - 7 % 2) ≡ from_parts 2 numbers 3 7)
into_parts-from_parts_example =
    into_parts-from_parts 2 numbers 3 7 (omega arith) (omega arith) (omega arith)

overflows : into_parts 2 (record last_three { end = 2 ^ 63 }) ≡ none
unfolding into_parts
overflows = refl
