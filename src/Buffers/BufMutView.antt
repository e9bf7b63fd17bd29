-- ===== src/Buffers/BufMutView.antt =====
-- core/io/buffers.rs: `BufMutView`, a writable view of a slice of a V8 store or of
-- `bytes::BytesMut`.
pub mod Truncate
pub mod Resize
use deno_core.Common.{
  ℕ, ◌+◌, ◌-◌, ◌≡◌, ◌≤◌, refl, Bool, List, [], Option, some, none, length, take, drop, ◌>>=◌, arith,
  inl, inr, ap, sym, ◌∙◌, min, drop-take, take_by, length-take, drop_by, drop_nil, take_nil,
}
use deno_core.V8Slice.{V8Slice}
use deno_core.Buffers.{Buffer}
use deno_core.Buffers.Inner.{js_buffer_ops, both}
use deno_core.Buffers.View.{View, len, advance_cursor, reset_cursor, deref, split_off, split_to}
use deno_core.Buffers.View.Laws.{WellFormed, rest_of}

pub data BufMutViewInner (M : Type 0) : Type 0 where
  bytes : M → BufMutViewInner M
  js_buffer : V8Slice ℕ → BufMutViewInner M

module _ {M : Type 0} (buffer : Buffer M) where
  abbrev pub shown : BufMutViewInner M → List ℕ
  shown (bytes b) = buffer.bytes_of b
  shown (js_buffer s) = js_buffer_ops.bytes_of s

  abbrev pub inner_len : BufMutViewInner M → ℕ
  inner_len (bytes b) = buffer.len_of b
  inner_len (js_buffer s) = js_buffer_ops.len_of s

  abbrev pub inner_truncate : BufMutViewInner M → ℕ → BufMutViewInner M
  inner_truncate (bytes b) n = bytes (buffer.shorten b n)
  inner_truncate (js_buffer s) n = js_buffer (js_buffer_ops.shorten s n)

  abbrev pub inner_split_off :
      BufMutViewInner M → ℕ → Option (BufMutViewInner M × BufMutViewInner M)
  inner_split_off (bytes b) at = both bytes (buffer.cut_off b at)
  inner_split_off (js_buffer s) at = both js_buffer (js_buffer_ops.cut_off s at)

  abbrev pub inner_split_to : BufMutViewInner M → ℕ → Option (BufMutViewInner M × BufMutViewInner M)
  inner_split_to (bytes b) at = both bytes (buffer.cut_to b at)
  inner_split_to (js_buffer s) at = both js_buffer (js_buffer_ops.cut_to s at)

  abbrev pub InnerValid : BufMutViewInner M → Type 0
  InnerValid (bytes b) = buffer.IsValid b
  InnerValid (js_buffer s) = js_buffer_ops.IsValid s

  pub cut_off-inner :
      (b : BufMutViewInner M) (at : ℕ)
      → InnerValid b
      → at ≤ inner_len b
      → (left : BufMutViewInner M) × (other : BufMutViewInner M) × (inner_split_off b at
          ≡ some (left, other))
        × (shown left ≡ take at (shown b))
        × (shown other ≡ drop at (shown b))
        × InnerValid left
        × InnerValid other
  cut_off-inner (bytes b) at valid h =
      let (left, other, e, l, o, vl, vo) = buffer.cut_off_lem b at valid h in
      (bytes left, bytes other, ap (both bytes) e, l, o, vl, vo)
  cut_off-inner (js_buffer s) at valid h =
      let (left, other, e, l, o, vl, vo) = js_buffer_ops.cut_off_lem s at valid h in
      (js_buffer left, js_buffer other, ap (both js_buffer) e, l, o, vl, vo)

  pub cut_to-inner :
      (b : BufMutViewInner M) (at : ℕ)
      → InnerValid b
      → at ≤ inner_len b
      → (left : BufMutViewInner M) × (other : BufMutViewInner M) × (inner_split_to b at
          ≡ some (left, other))
        × (shown other ≡ take at (shown b))
        × (shown left ≡ drop at (shown b))
        × InnerValid left
        × InnerValid other
  cut_to-inner (bytes b) at valid h =
      let (left, other, e, l, o, vl, vo) = buffer.cut_to_lem b at valid h in
      (bytes left, bytes other, ap (both bytes) e, l, o, vl, vo)
  cut_to-inner (js_buffer s) at valid h =
      let (left, other, e, l, o, vl, vo) = js_buffer_ops.cut_to_lem s at valid h in
      (js_buffer left, js_buffer other, ap (both js_buffer) e, l, o, vl, vo)

  pub length-inner : (b : BufMutViewInner M) → InnerValid b → length (shown b) ≡ inner_len b
  length-inner (bytes b) valid = buffer.length-bytes_of b valid
  length-inner (js_buffer s) valid = js_buffer_ops.length-bytes_of s valid

  pub truncate-inner :
      (b : BufMutViewInner M) (n : ℕ)
      → InnerValid b
      → (shown (inner_truncate b n) ≡ take n (shown b)) × InnerValid (inner_truncate b n)
  truncate-inner (bytes b) n valid = buffer.shorten-bytes_of b n valid
  truncate-inner (js_buffer s) n valid = js_buffer_ops.shorten-bytes_of s n valid

  abbrev pub inner_buffer : Buffer (BufMutViewInner M)
  inner_buffer = record {
    bytes_of = shown;
    len_of = inner_len;
    shorten = inner_truncate;
    cut_off = inner_split_off;
    cut_to = inner_split_to;
    IsValid = InnerValid;
    length-bytes_of = length-inner;
    shorten-bytes_of = truncate-inner;
    cut_off_lem = cut_off-inner;
    cut_to_lem = cut_to-inner;
  }

  unfoldable pub truncate : View (BufMutViewInner M) → ℕ → Option (View (BufMutViewInner M))
  truncate v size = do
    let shorter : View (BufMutViewInner M) = record {
      inner = inner_truncate v.inner (size + v.cursor);
      cursor = v.cursor;
    }
    rest ← len inner_buffer shorter
    some (record { inner = shorter.inner; cursor = min v.cursor rest })

  -- The operations that `BufMutView` shares with `BufView`.
  unfoldable pub mut_len : View (BufMutViewInner M) → Option ℕ
  mut_len = len inner_buffer

  unfoldable pub mut_advance_cursor :
      View (BufMutViewInner M) → ℕ → Option (View (BufMutViewInner M))
  mut_advance_cursor = advance_cursor inner_buffer

  unfoldable pub mut_reset_cursor : View (BufMutViewInner M) → View (BufMutViewInner M) × ℕ
  mut_reset_cursor = reset_cursor inner_buffer

  unfoldable pub mut_deref : View (BufMutViewInner M) → Option (List ℕ)
  mut_deref = deref inner_buffer

  unfoldable pub mut_split_off :
      View (BufMutViewInner M) → ℕ → Option (View (BufMutViewInner M) × View (BufMutViewInner M))
  mut_split_off = split_off inner_buffer

  unfoldable pub mut_split_to :
      View (BufMutViewInner M) → ℕ → Option (View (BufMutViewInner M) × View (BufMutViewInner M))
  mut_split_to = split_to inner_buffer
