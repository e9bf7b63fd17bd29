-- ===== src/Buffers/BufMutView/Truncate.antt =====
-- core/io/buffers.rs: truncating a `BufMutView`.
use deno_core.Common.{
  ℕ, ◌+◌, ◌≤◌, ◌<◌, ◌≡◌, ap, ◌∙◌, some, length, take, drop, min, arith, length-take, bind-some,
  take_by, drop-take,
}
use deno_core.Buffers.{Buffer}
use deno_core.Buffers.View.{View}
use deno_core.Buffers.View.Laws.{WellFormed, rest_of, len_lem, length-rest_of}
use deno_core.Buffers.BufMutView.{
  BufMutViewInner, inner_buffer, truncate, inner_truncate, truncate-inner, length-inner, shown,
}

module _ {M : Type 0} (buffer : Buffer M) where
  abbrev shortened : View (BufMutViewInner M) → ℕ → View (BufMutViewInner M)
  shortened v size = record {
    inner = inner_truncate buffer v.inner (size + v.cursor);
    cursor = v.cursor;
  }

  abbrev moved : View (BufMutViewInner M) → ℕ → View (BufMutViewInner M)
  moved v rest = record { inner = v.inner; cursor = min v.cursor rest }

  shortened_lem :
      (v : View (BufMutViewInner M)) (size : ℕ)
      → WellFormed (inner_buffer buffer) v
      → WellFormed (inner_buffer buffer) (shortened v size)
        × (rest_of (inner_buffer buffer) (shortened v size)
            ≡ take size (rest_of (inner_buffer buffer) v))
  shortened_lem v size (valid, le) =
      let (e, valid') = truncate-inner buffer v.inner (size + v.cursor) valid in
      (
        (
          valid',
          omega (
            arith,
            le,
            length-inner buffer v.inner valid,
            length-inner buffer (inner_truncate buffer v.inner (size + v.cursor)) valid',
            ap length e,
            length-take (size + v.cursor) (shown buffer v.inner),
          ),
        ),
        ap (drop v.cursor) e
            ∙ drop-take v.cursor (size + v.cursor) (shown buffer v.inner)
            ∙ take_by (drop v.cursor (shown buffer v.inner)) (omega arith),
      )

  truncate_run :
      (v : View (BufMutViewInner M)) (size : ℕ)
      → WellFormed (inner_buffer buffer) v
      → truncate buffer v size
        ≡ some (moved (shortened v size) (min size (length (rest_of (inner_buffer buffer) v))))
  unfolding truncate
  truncate_run v size wf =
      let (wf', e) = shortened_lem v size wf in
      bind-some (λ rest. some (moved (shortened v size) rest))
        (len_lem (inner_buffer buffer) (shortened v size) wf')
      ∙ ap (λ rest. some (moved (shortened v size) rest))
          (ap length e ∙ length-take size (rest_of (inner_buffer buffer) v))

  -- Where at least as many bytes of a well-formed BufMutView remain, and are kept, as the cursor
  -- has passed, truncate does not panic, keeps the view well-formed, and keeps the first `size`
  -- of its bytes.
  pub truncate_keeps :
      (v : View (BufMutViewInner M)) (size : ℕ)
      → WellFormed (inner_buffer buffer) v
      → v.cursor ≤ min size (length (rest_of (inner_buffer buffer) v))
      → (w : View (BufMutViewInner M)) × (truncate buffer v size ≡ some w)
        × WellFormed (inner_buffer buffer) w
        × (rest_of (inner_buffer buffer) w ≡ take size (rest_of (inner_buffer buffer) v))
  truncate_keeps v size wf h =
      let (wf', e) = shortened_lem v size wf in
      (
        shortened v size,
        truncate_run v size wf
            ∙ ap
                (λ c.
                  some (record {
                    inner = inner_truncate buffer v.inner (size + v.cursor);
                    cursor = c;
                  }))
                (omega arith),
        wf',
        e,
      )

  -- Where fewer bytes of a well-formed BufMutView remain, or are kept, than the cursor has
  -- passed, truncate moves the cursor back: the view then shows as many bytes as the cursor had
  -- passed.
  pub truncate_rewinds :
      (v : View (BufMutViewInner M)) (size : ℕ)
      → WellFormed (inner_buffer buffer) v
      → min size (length (rest_of (inner_buffer buffer) v)) < v.cursor
      → (w : View (BufMutViewInner M)) × (truncate buffer v size ≡ some w)
        × (length (rest_of (inner_buffer buffer) w) ≡ v.cursor)
  truncate_rewinds v size wf h =
      let (wf', e) = shortened_lem v size wf in
      let kept = min size (length (rest_of (inner_buffer buffer) v)) in
      (
        moved (shortened v size) kept,
        truncate_run v size wf,
        omega (
          arith,
          h,
          wf.1,
          wf'.1,
          length-rest_of (inner_buffer buffer) (shortened v size) wf',
          length-rest_of (inner_buffer buffer) (moved (shortened v size) kept)
              (wf'.0, omega (arith, wf'.1)),
          ap length e,
          length-take size (rest_of (inner_buffer buffer) v),
        ),
      )
