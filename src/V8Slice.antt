-- ===== src/V8Slice.antt =====
-- serde_v8/magic/v8slice.rs: a typed view of a range of a V8 backing store.
pub mod Split
mod Tests
use deno_core.Common.{
  ℕ, zero, suc, ◌+◌, ◌-◌, ◌*◌, ◌/◌, ◌≡◌, min, Bool, List, [], ◌∷◌, Option, none, some, leb, ◌==◌,
  ◌>>◌, ◌>>=◌, ltb, ◌^◌, assert, if◌then◌else◌, length, take, drop,
}

-- What the code reads of a `v8::BackingStore`: `data()`, as elements of the slice's type, and
-- `len()`, in bytes.
pub record BackingStore (A : Type 0) : Type 0 where
  pub data_of : Option (List A)
  pub byte_length : ℕ

pub record V8Slice (A : Type 0) : Type 0 where
  pub store : BackingStore A
  pub start : ℕ
  pub end : ℕ

-- The product with the size of an element; `none` is an overflow of usize.
abbrev pub in_bytes : ℕ → ℕ → Option ℕ
in_bytes size_of n = let bytes = n * size_of in if ltb bytes (2 ^ 64) then some bytes else none

module _ {A : Type 0} (size_of : ℕ) where
  unfoldable pub clamped_end : V8Slice A → ℕ
  clamped_end s = min s.end (s.store.byte_length / size_of)

  unfoldable pub len : V8Slice A → ℕ
  unfolding clamped_end
  len s = clamped_end s - s.start

  unfoldable pub is_empty : V8Slice A → Bool
  unfolding len
  is_empty s = len s == 0

  abbrev read_at : ℕ → ℕ → Option (List A) → List A
  read_at start n none = []
  read_at start n (some elements) = if n == 0 then [] else take n (drop start elements)

  unfoldable pub as_slice : V8Slice A → List A
  unfolding clamped_end
  as_slice s = read_at s.start (clamped_end s - s.start) s.store.data_of

  unfoldable pub into_parts : V8Slice A → Option (BackingStore A × ℕ × ℕ)
  into_parts s = do
    start ← in_bytes size_of s.start
    end ← in_bytes size_of s.end
    some (s.store, start, end)

  unfoldable pub from_parts : BackingStore A → ℕ → ℕ → V8Slice A
  from_parts store start end = record {
    store = store;
    start = start / size_of;
    end = end / size_of;
  }

  -- The slice that is left, then the one that is returned.
  unfoldable pub split_to : V8Slice A → ℕ → Option (V8Slice A × V8Slice A)
  unfolding len
  split_to s at =
      let n = len s in
      assert (leb at n)
      >> some (
        record { store = s.store; start = s.start + at; end = s.start + n },
        record { store = s.store; start = s.start; end = s.start + at },
      )

  unfoldable pub split_off : V8Slice A → ℕ → Option (V8Slice A × V8Slice A)
  unfolding len
  split_off s at =
      let n = len s in
      assert (leb at n)
      >> some (
        record { store = s.store; start = s.start; end = s.start + at },
        record { store = s.store; start = s.start + at; end = s.start + n },
      )

  unfoldable pub truncate : V8Slice A → ℕ → V8Slice A
  truncate s n = record { store = s.store; start = s.start; end = min (s.start + n) s.end }
