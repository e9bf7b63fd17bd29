-- ===== src/Buffers/Inner.antt =====
-- core/io/buffers.rs: what a view is over. The slice of a V8 store fills `Buffer` with the
-- theorems of V8Slice, at elements of one byte.
use deno_core.Common.{leb-true, ℕ, ◌+◌, Option, some, none, assert-some}
use deno_core.V8Slice.{V8Slice}
use deno_core.V8Slice
use deno_core.V8Slice.Split.{IsStore, over, front, back, length-as_slice, truncate_lem}
use deno_core.Buffers.{Buffer}

unfoldable pub js_buffer_ops : Buffer (V8Slice ℕ)
unfolding V8Slice.split_off V8Slice.split_to V8Slice.truncate
js_buffer_ops = record {
  bytes_of = V8Slice.as_slice 1;
  len_of = V8Slice.len 1;
  shorten = V8Slice.truncate 1;
  cut_off = V8Slice.split_off 1;
  cut_to = V8Slice.split_to 1;
  IsValid = λ s. IsStore 1 s.store;
  length-bytes_of = length-as_slice 1;
  shorten-bytes_of = λ s n valid. (truncate_lem 1 s n, valid);
  cut_off_lem = λ s at valid h. (
    over 1 s s.start (s.start + at),
    over 1 s (s.start + at) (s.start + V8Slice.len 1 s),
    assert-some (leb-true h),
    front 1 s at h,
    back 1 s at h,
    valid,
    valid,
  );
  cut_to_lem = λ s at valid h. (
    over 1 s (s.start + at) (s.start + V8Slice.len 1 s),
    over 1 s s.start (s.start + at),
    assert-some (leb-true h),
    front 1 s at h,
    back 1 s at h,
    valid,
    valid,
  );
}

-- Both parts of a split, in a variant of an enum.
abbrev pub both {ℓ κ} : {B : Type ℓ} {C : Type κ} → (B → C) → Option (B × B) → Option (C × C)
both f none = none
both f (some (left, other)) = some (f left, f other)
