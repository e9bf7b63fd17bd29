-- ===== src/Buffers.antt =====
-- core/io/buffers.rs: views of a buffer that a cursor moves over. `Buffer` is what the views use
-- of the buffer below, a slice of a V8 store (serde_v8/magic/v8slice.rs) or a buffer of the crate
-- `bytes`, which is a parameter of the model.
pub mod View
pub mod Inner
pub mod BufView
pub mod BufMutView
mod Tests
use deno_core.Common.{
  ℕ, ◌+◌, ◌-◌, ◌≤◌, ◌≡◌, Bool, List, Option, some, none, length, take, drop, leb, ◌>>◌, assert,
}

-- The operations, and what the documentation of `bytes` and of `V8Slice` promises of them. The
-- parts of a split are the buffer that is left, then the one that is returned.
pub record Buffer (B : Type 0) : Type 1 where
  pub bytes_of : B → List ℕ
  pub len_of : B → ℕ
  pub shorten : B → ℕ → B
  pub cut_off : B → ℕ → Option (B × B)
  pub cut_to : B → ℕ → Option (B × B)
  pub IsValid : B → Type 0
  pub length-bytes_of : (b : B) → IsValid b → length (bytes_of b) ≡ len_of b
  pub shorten-bytes_of :
      (b : B) (n : ℕ)
      → IsValid b
      → (bytes_of (shorten b n) ≡ take n (bytes_of b)) × IsValid (shorten b n)
  pub cut_off_lem :
      (b : B) (at : ℕ)
      → IsValid b
      → at ≤ len_of b
      → (left : B) × (other : B) × (cut_off b at ≡ some (left, other))
        × (bytes_of left ≡ take at (bytes_of b))
        × (bytes_of other ≡ drop at (bytes_of b))
        × IsValid left
        × IsValid other
  pub cut_to_lem :
      (b : B) (at : ℕ)
      → IsValid b
      → at ≤ len_of b
      → (left : B) × (other : B) × (cut_to b at ≡ some (left, other))
        × (bytes_of other ≡ take at (bytes_of b))
        × (bytes_of left ≡ drop at (bytes_of b))
        × IsValid left
        × IsValid other

-- A `usize` subtraction, which panics below 0.
abbrev pub checked_sub : ℕ → ℕ → Option ℕ
checked_sub n m = assert (leb m n) >> some (n - m)
