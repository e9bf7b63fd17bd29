-- ===== src/Buffers/BufView.antt =====
-- core/io/buffers.rs: `BufView`, a read-only view of nothing, of `bytes::Bytes` or of a slice of a
-- V8 store.
use deno_core.Common.{
  ℕ, ◌+◌, ◌≡◌, ◌≤◌, refl, List, [], Option, some, length, take, drop, arith, ap, sym, ◌∙◌,
  drop-take, take_by, length-take, drop_nil, take_nil,
}
use deno_core.V8Slice.{V8Slice}
use deno_core.Buffers.{Buffer}
use deno_core.Buffers.Inner.{js_buffer_ops, both}
use deno_core.Buffers.View.{View}
use deno_core.Buffers.View.Laws.{WellFormed, rest_of}

pub data BufViewInner (B : Type 0) : Type 0 where
  empty : BufViewInner B
  bytes : B → BufViewInner B
  js_buffer : V8Slice ℕ → BufViewInner B

module _ {B : Type 0} (buffer : Buffer B) where
  abbrev pub shown : BufViewInner B → List ℕ
  shown empty = []
  shown (bytes b) = buffer.bytes_of b
  shown (js_buffer s) = js_buffer_ops.bytes_of s

  abbrev pub inner_len : BufViewInner B → ℕ
  inner_len empty = 0
  inner_len (bytes b) = buffer.len_of b
  inner_len (js_buffer s) = js_buffer_ops.len_of s

  abbrev pub inner_truncate : BufViewInner B → ℕ → BufViewInner B
  inner_truncate empty n = empty
  inner_truncate (bytes b) n = bytes (buffer.shorten b n)
  inner_truncate (js_buffer s) n = js_buffer (js_buffer_ops.shorten s n)

  abbrev pub inner_split_off : BufViewInner B → ℕ → Option (BufViewInner B × BufViewInner B)
  inner_split_off empty at = some (empty, empty)
  inner_split_off (bytes b) at = both bytes (buffer.cut_off b at)
  inner_split_off (js_buffer s) at = both js_buffer (js_buffer_ops.cut_off s at)

  abbrev pub inner_split_to : BufViewInner B → ℕ → Option (BufViewInner B × BufViewInner B)
  inner_split_to empty at = some (empty, empty)
  inner_split_to (bytes b) at = both bytes (buffer.cut_to b at)
  inner_split_to (js_buffer s) at = both js_buffer (js_buffer_ops.cut_to s at)

  abbrev pub InnerValid : BufViewInner B → Type 0
  InnerValid empty = Unit
  InnerValid (bytes b) = buffer.IsValid b
  InnerValid (js_buffer s) = js_buffer_ops.IsValid s

  pub cut_off-inner :
      (b : BufViewInner B) (at : ℕ)
      → InnerValid b
      → at ≤ inner_len b
      → (left : BufViewInner B) × (other : BufViewInner B) × (inner_split_off b at
          ≡ some (left, other))
        × (shown left ≡ take at (shown b))
        × (shown other ≡ drop at (shown b))
        × InnerValid left
        × InnerValid other
  cut_off-inner empty at valid h =
      (empty, empty, refl, sym (take_nil at [] refl), sym (drop_nil at [] refl), valid, valid)
  cut_off-inner (bytes b) at valid h =
      let (left, other, e, l, o, vl, vo) = buffer.cut_off_lem b at valid h in
      (bytes left, bytes other, ap (both bytes) e, l, o, vl, vo)
  cut_off-inner (js_buffer s) at valid h =
      let (left, other, e, l, o, vl, vo) = js_buffer_ops.cut_off_lem s at valid h in
      (js_buffer left, js_buffer other, ap (both js_buffer) e, l, o, vl, vo)

  pub cut_to-inner :
      (b : BufViewInner B) (at : ℕ)
      → InnerValid b
      → at ≤ inner_len b
      → (left : BufViewInner B) × (other : BufViewInner B) × (inner_split_to b at
          ≡ some (left, other))
        × (shown other ≡ take at (shown b))
        × (shown left ≡ drop at (shown b))
        × InnerValid left
        × InnerValid other
  cut_to-inner empty at valid h =
      (empty, empty, refl, sym (take_nil at [] refl), sym (drop_nil at [] refl), valid, valid)
  cut_to-inner (bytes b) at valid h =
      let (left, other, e, l, o, vl, vo) = buffer.cut_to_lem b at valid h in
      (bytes left, bytes other, ap (both bytes) e, l, o, vl, vo)
  cut_to-inner (js_buffer s) at valid h =
      let (left, other, e, l, o, vl, vo) = js_buffer_ops.cut_to_lem s at valid h in
      (js_buffer left, js_buffer other, ap (both js_buffer) e, l, o, vl, vo)

  pub length-inner : (b : BufViewInner B) → InnerValid b → length (shown b) ≡ inner_len b
  length-inner empty valid = refl
  length-inner (bytes b) valid = buffer.length-bytes_of b valid
  length-inner (js_buffer s) valid = js_buffer_ops.length-bytes_of s valid

  pub truncate-inner :
      (b : BufViewInner B) (n : ℕ)
      → InnerValid b
      → (shown (inner_truncate b n) ≡ take n (shown b)) × InnerValid (inner_truncate b n)
  truncate-inner empty n valid = (sym (take_nil n [] refl), valid)
  truncate-inner (bytes b) n valid = buffer.shorten-bytes_of b n valid
  truncate-inner (js_buffer s) n valid = js_buffer_ops.shorten-bytes_of s n valid

  abbrev pub inner_buffer : Buffer (BufViewInner B)
  inner_buffer = record {
    bytes_of = shown;
    len_of = inner_len;
    shorten = inner_truncate;
    cut_off = inner_split_off;
    cut_to = inner_split_to;
    IsValid = InnerValid;
    length-bytes_of = length-inner;
    shorten-bytes_of = truncate-inner;
    cut_off_lem = cut_off-inner;
    cut_to_lem = cut_to-inner;
  }

  unfoldable pub truncate : View (BufViewInner B) → ℕ → View (BufViewInner B)
  truncate v size = record { inner = inner_truncate v.inner (size + v.cursor); cursor = v.cursor }

  -- Truncating a well-formed BufView keeps it well-formed, and keeps the first `size` of its
  -- bytes.
  pub view_truncate_lem :
      (v : View (BufViewInner B)) (size : ℕ)
      → WellFormed inner_buffer v
      → WellFormed inner_buffer (truncate v size)
        × (rest_of inner_buffer (truncate v size) ≡ take size (rest_of inner_buffer v))
  unfolding truncate
  view_truncate_lem v size (valid, le) =
      let (e, valid') = truncate-inner v.inner (size + v.cursor) valid in
      (
        (
          valid',
          omega (
            arith,
            le,
            length-inner v.inner valid,
            length-inner (inner_truncate v.inner (size + v.cursor)) valid',
            ap length e,
            length-take (size + v.cursor) (shown v.inner),
          ),
        ),
        ap (drop v.cursor) e
            ∙ drop-take v.cursor (size + v.cursor) (shown v.inner)
            ∙ take_by (drop v.cursor (shown v.inner)) (omega arith),
      )
