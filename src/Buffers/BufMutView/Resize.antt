-- ===== src/Buffers/BufMutView/Resize.antt =====
-- core/io/buffers.rs: growing and converting a `BufMutView`. What the code uses of
-- `bytes::BytesMut` beyond `Buffer` is a parameter.
use deno_core.Common.{
  take_of_take, ℕ, ◌+◌, ◌≤◌, ◌<◌, ◌≡◌, refl, ap, sym, ◌∙◌, Bool, true, false, Option, some, none,
  length, take, drop, min, ltb, if◌then◌else◌, arith, length-take, take_by, take_all,
}
use deno_core.Buffers.{Buffer}
use deno_core.Buffers.View.{View, from_inner}
use deno_core.Buffers.View.Laws.{WellFormed, rest_of}
use deno_core.Buffers.BufView.{BufViewInner}
use deno_core.Buffers.BufView
use deno_core.Buffers.BufMutView.{BufMutViewInner, inner_buffer}

-- `resize(n, 0)`, `zeroed(n)` and the conversion to `Bytes`, and what their documentation says.
pub record BytesMutApi {M B : Type 0} (buffer : Buffer M) (frozen : Buffer B) : Type 0 where
  pub resize : M → ℕ → M
  pub zeroed : ℕ → M
  pub freeze : M → B
  pub resize_lem :
      (b : M) (n : ℕ)
      → buffer.IsValid b
      → buffer.len_of b ≤ n
      → buffer.IsValid (resize b n)
        × (buffer.len_of (resize b n) ≡ n)
        × (take (buffer.len_of b) (buffer.bytes_of (resize b n)) ≡ buffer.bytes_of b)
  pub zeroed_lem : (n : ℕ) → buffer.IsValid (zeroed n) × (buffer.len_of (zeroed n) ≡ n)
  pub freeze_lem :
      (b : M)
      → buffer.IsValid b
      → frozen.IsValid (freeze b) × (frozen.bytes_of (freeze b) ≡ buffer.bytes_of b)

module _ {M B : Type 0} (buffer : Buffer M) (frozen : Buffer B)
    (api : BytesMutApi buffer frozen) where
  unfoldable pub new : ℕ → View (BufMutViewInner M)
  new n = from_inner (inner_buffer buffer) (BufMutViewInner.bytes (api.zeroed n))

  abbrev view_inner : BufMutViewInner M → BufViewInner B
  view_inner (BufMutViewInner.js_buffer s) = BufViewInner.js_buffer s
  view_inner (BufMutViewInner.bytes b) = BufViewInner.bytes (api.freeze b)

  unfoldable pub into_view : View (BufMutViewInner M) → View (BufViewInner B)
  into_view v = record { inner = view_inner v.inner; cursor = v.cursor }

  abbrev resized : M → ℕ → ℕ → M
  resized b target limit =
      let n = buffer.len_of b in
      if ltb n target
      then api.resize b (min target (n + limit))
      else if ltb target n
      then buffer.shorten b target
      else b

  -- The view, and the new length of the buffer below it.
  unfoldable pub maybe_resize :
      View (BufMutViewInner M) → ℕ → ℕ → View (BufMutViewInner M) × Option ℕ
  maybe_resize v target limit = go v.inner
    where
      go : BufMutViewInner M → View (BufMutViewInner M) × Option ℕ
      go (BufMutViewInner.js_buffer s) = (v, none)
      go (BufMutViewInner.bytes b) =
          let b' = resized b (target + v.cursor) limit in
          (record { inner = BufMutViewInner.bytes b'; cursor = v.cursor }, some (buffer.len_of b'))

  unfoldable pub maybe_grow : View (BufMutViewInner M) → ℕ → View (BufMutViewInner M) × Option ℕ
  maybe_grow v target = go v.inner
    where
      go : BufMutViewInner M → View (BufMutViewInner M) × Option ℕ
      go (BufMutViewInner.js_buffer s) = (v, none)
      go (BufMutViewInner.bytes b) =
          let b' =
            if ltb (buffer.len_of b) (target + v.cursor)
            then api.resize b (target + v.cursor)
            else b in
          (record { inner = BufMutViewInner.bytes b'; cursor = v.cursor }, some (buffer.len_of b'))

  -- What resizing a valid buffer promises of the result.
  abbrev Resized : M → ℕ → ℕ → M → Type 0
  Resized b target limit b' =
      buffer.IsValid b'
      × (buffer.len_of b' ≡ min target (buffer.len_of b + limit))
      × (take (min (buffer.len_of b) target) (buffer.bytes_of b')
          ≡ take (min (buffer.len_of b) target) (buffer.bytes_of b))

  grows_lem :
      (b : M) (target limit : ℕ)
      → buffer.IsValid b
      → buffer.len_of b < target
      → Resized b target limit (api.resize b (min target (buffer.len_of b + limit)))
  grows_lem b target limit valid h =
      let n : ℕ = min target (buffer.len_of b + limit) in
      let (valid', e, kept) = api.resize_lem b n valid (omega arith) in
      (
        valid',
        e,
        take_by (buffer.bytes_of (api.resize b n)) (omega arith)
            ∙ kept
            ∙ sym (
                take_all (min (buffer.len_of b) target) (buffer.bytes_of b)
                  (omega (arith, buffer.length-bytes_of b valid))),
      )

  shrinks_lem :
      (b : M) (target limit : ℕ)
      → buffer.IsValid b
      → target ≤ buffer.len_of b
      → Resized b target limit (buffer.shorten b target)
  shrinks_lem b target limit valid h =
      let (e, valid') = buffer.shorten-bytes_of b target valid in
      (
        valid',
        omega (
          arith,
          h,
          ap length e,
          length-take target (buffer.bytes_of b),
          buffer.length-bytes_of b valid,
          buffer.length-bytes_of (buffer.shorten b target) valid',
        ),
        ap (take (min (buffer.len_of b) target)) e
            ∙ take_of_take (min (buffer.len_of b) target) target (buffer.bytes_of b) (omega arith),
      )

  resized_lem :
      (b : M) (target limit : ℕ)
      → buffer.IsValid b
      → Resized b target limit (resized b target limit)
  resized_lem b target limit valid =
      go (ltb (buffer.len_of b) target) (ltb target (buffer.len_of b)) refl refl
    where
      go :
          (more less : Bool)
          → more ≡ ltb (buffer.len_of b) target
          → less ≡ ltb target (buffer.len_of b)
          → Resized b target limit (
              if more
              then api.resize b (min target (buffer.len_of b + limit))
              else if less
              then buffer.shorten b target
              else b)
      go true less more_e less_e = grows_lem b target limit valid (ground arith)
      go false true more_e less_e = shrinks_lem b target limit valid (ground arith)
      go false false more_e less_e = (valid, ground arith, refl)

  -- maybe_resize of a view of a valid BytesMut returns the wanted length, cursor included, or
  -- the old one plus the increment where that is less, and keeps the bytes below both the old
  -- and the wanted length.
  pub maybe_resize_lem :
      (b : M) (cursor target limit : ℕ)
      → buffer.IsValid b
      → (b' : M) × (maybe_resize
            (record { inner = BufMutViewInner.bytes b; cursor = cursor })
            target
            limit
          ≡ (
            record { inner = BufMutViewInner.bytes b'; cursor = cursor },
            some (min (target + cursor) (buffer.len_of b + limit)),
          ))
        × (take (min (buffer.len_of b) (target + cursor)) (buffer.bytes_of b')
            ≡ take (min (buffer.len_of b) (target + cursor)) (buffer.bytes_of b))
  unfolding maybe_resize
  maybe_resize_lem b cursor target limit valid =
      let (valid', n, kept) = resized_lem b (target + cursor) limit valid in
      (
        resized b (target + cursor) limit,
        ap
            (λ n. (
              record {
                inner = BufMutViewInner.bytes (resized b (target + cursor) limit);
                cursor = cursor;
              },
              some n,
            ))
            n,
        kept,
      )

  -- The read-only view of a well-formed BufMutView is well-formed and shows the same bytes.
  pub into_view_lem :
      (v : View (BufMutViewInner M))
      → WellFormed (inner_buffer buffer) v
      → WellFormed (BufView.inner_buffer frozen) (into_view v)
        × (rest_of (BufView.inner_buffer frozen) (into_view v) ≡ rest_of (inner_buffer buffer) v)
  unfolding into_view
  into_view_lem v wf = go v.inner v.cursor wf
    where
      go :
          (b : BufMutViewInner M) (c : ℕ)
          → WellFormed (inner_buffer buffer) (record { inner = b; cursor = c })
          → WellFormed (BufView.inner_buffer frozen) (into_view (record { inner = b; cursor = c }))
            × (rest_of (BufView.inner_buffer frozen) (into_view (record { inner = b; cursor = c }))
                ≡ rest_of (inner_buffer buffer) (record { inner = b; cursor = c }))
      go (BufMutViewInner.js_buffer s) c wf = (wf, refl)
      go (BufMutViewInner.bytes b) c (valid, le) =
          let (valid', e) = api.freeze_lem b valid in
          (
            (
              valid',
              omega (
                arith,
                le,
                ap length e,
                buffer.length-bytes_of b valid,
                frozen.length-bytes_of (api.freeze b) valid',
              ),
            ),
            ap (drop c) e,
          )
