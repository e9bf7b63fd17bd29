-- ===== src/BufferStrategy/Tests.antt =====
-- The buffers of two reads of 64 KB, and of a hint of 100,000 bytes.
use deno_core.Common.{ℕ, ◌≤◌, max, List, [], ◌∷◌, some, none, arith}
use deno_core.BufferStrategy.{
  tiny_buffer_size, max_grow_len, expected_remaining, from_size_hint, new_from_hint, buffer_size,
  notify_reads,
}
use deno_core.BufferStrategy.Growth.{PowerOfTwo, total, growth_bounds}

abbrev full_reads : List ℕ
full_reads = 65536 ∷ 131072 ∷ []

growth_bounds_example :
    let first = new_from_hint 0 none in
    let size = buffer_size (notify_reads first full_reads) in
    PowerOfTwo size
    × (tiny_buffer_size ≤ size)
    × (buffer_size first ≤ size)
    × (size ≤ max (buffer_size first) max_grow_len)
growth_bounds_example = growth_bounds 0 none full_reads

hinted_reads : (new_from_hint 100000 (some 100000)).remaining ≤ total (100000 ∷ [])
unfolding new_from_hint total expected_remaining from_size_hint
hinted_reads = omega arith
