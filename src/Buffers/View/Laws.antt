-- ===== src/Buffers/View/Laws.antt =====
-- core/io/buffers.rs: what the operations of a view do to the bytes that it shows.
use deno_core.Common.{
  leb-true, leb-false, bind-some, ℕ, ◌+◌, ◌-◌, ◌≤◌, ◌<◌, ◌≡◌, sym, ap, ◌∙◌, List, Option, some,
  none, length, take, drop, leb, ◌>>=◌, ◌>>◌, assert, assert-some, assert-none, arith, drop-drop,
  drop-take, length-take, length-drop, drop_by, take_by,
}
use deno_core.Buffers.{Buffer}
use deno_core.Buffers.View.{View, len, deref, advance_cursor, split_off, split_to}

module _ {B : Type 0} (buffer : Buffer B) where
  -- The buffer is valid, and the cursor is within it.
  abbrev pub WellFormed : View B → Type 0
  WellFormed v = buffer.IsValid v.inner × (v.cursor ≤ buffer.len_of v.inner)

  -- The bytes that a well-formed view shows.
  abbrev pub rest_of : View B → List ℕ
  rest_of v = drop v.cursor (buffer.bytes_of v.inner)

  pub deref_lem : (v : View B) → WellFormed v → deref buffer v ≡ some (rest_of v)
  unfolding deref
  deref_lem v (valid, le) =
      assert-some (leb-true (omega (arith, le, buffer.length-bytes_of v.inner valid)))

  pub len_lem : (v : View B) → WellFormed v → len buffer v ≡ some (length (rest_of v))
  unfolding len
  len_lem v (valid, le) =
      assert-some (leb-true le)
      ∙ ap some (
          omega (
            arith,
            length-drop v.cursor (buffer.bytes_of v.inner),
            buffer.length-bytes_of v.inner valid,
          ))

  pub length-rest_of :
      (v : View B) → WellFormed v → length (rest_of v) ≡ buffer.len_of v.inner - v.cursor
  length-rest_of v (valid, le) =
      omega (
        arith,
        length-drop v.cursor (buffer.bytes_of v.inner),
        buffer.length-bytes_of v.inner valid,
      )

  abbrev advanced : View B → ℕ → View B
  advanced v n = record { inner = v.inner; cursor = v.cursor + n }

  -- Advancing a well-formed view within its length does not panic, keeps it well-formed and
  -- drops that many of its bytes.
  pub advance_lem :
      (v : View B) (n : ℕ)
      → WellFormed v
      → n ≤ length (rest_of v)
      → (w : View B) × (advance_cursor buffer v n ≡ some w)
        × WellFormed w
        × (rest_of w ≡ drop n (rest_of v))
  unfolding advance_cursor
  advance_lem v n wf h = (
    advanced v n,
    bind-some (λ rest. assert (leb n rest) >> some (advanced v n)) (len_lem v wf)
        ∙ assert-some (leb-true h),
    (wf.0, omega (arith, wf.1, length-rest_of v wf)),
    sym (drop-drop n v.cursor (buffer.bytes_of v.inner)),
  )

  pub advance_panics :
      (v : View B) (n : ℕ)
      → WellFormed v
      → length (rest_of v) < n
      → advance_cursor buffer v n ≡ none
  unfolding advance_cursor
  advance_panics v n wf h =
      bind-some (λ rest. assert (leb n rest) >> some (advanced v n)) (len_lem v wf)
      ∙ assert-none {b = leb n (length (rest_of v))} (some (advanced v n)) (leb-false h)

  abbrev pub Split : View B → ℕ → View B → View B → Type 0
  Split v at first second =
      WellFormed first
      × WellFormed second
      × (rest_of first ≡ take at (rest_of v))
      × (rest_of second ≡ drop at (rest_of v))

  abbrev at_start : B → View B
  at_start b = record { inner = b; cursor = 0 }

  abbrev at_cursor : View B → B → View B
  at_cursor v b = record { inner = b; cursor = v.cursor }

  abbrev off_parts : View B → B × B → Option (View B × View B)
  off_parts v (left, other) = some (at_cursor v left, at_start other)

  abbrev to_parts : View B → B × B → Option (View B × View B)
  to_parts v (left, other) = some (at_start left, at_cursor v other)

  front_part :
      (v : View B) (b : B) (at : ℕ)
      → WellFormed v
      → buffer.IsValid b
      → at + v.cursor ≤ buffer.len_of v.inner
      → buffer.bytes_of b ≡ take (at + v.cursor) (buffer.bytes_of v.inner)
      → WellFormed (at_cursor v b) × (rest_of (at_cursor v b) ≡ take at (rest_of v))
  front_part v b at wf valid within e = (
    (
      valid,
      omega (
        arith,
        within,
        buffer.length-bytes_of b valid,
        ap length e,
        length-take (at + v.cursor) (buffer.bytes_of v.inner),
        buffer.length-bytes_of v.inner wf.0,
      ),
    ),
    ap (drop v.cursor) e
        ∙ drop-take v.cursor (at + v.cursor) (buffer.bytes_of v.inner)
        ∙ take_by (rest_of v) (omega arith),
  )

  back_part :
      (v : View B) (b : B) (at : ℕ)
      → buffer.IsValid b
      → buffer.bytes_of b ≡ drop (at + v.cursor) (buffer.bytes_of v.inner)
      → WellFormed (at_start b) × (rest_of (at_start b) ≡ drop at (rest_of v))
  back_part v b at valid e = (
    (valid, omega arith),
    e
        ∙ drop_by (buffer.bytes_of v.inner) (omega arith)
        ∙ sym (drop-drop at v.cursor (buffer.bytes_of v.inner)),
  )

  -- split_to of a well-formed view, within its length, returns a view of the first `at` bytes
  -- and leaves one of the rest; both are well-formed.
  pub view_split_to_lem :
      (v : View B) (at : ℕ)
      → WellFormed v
      → at ≤ length (rest_of v)
      → (left : View B) × (other : View B) × (split_to buffer v at ≡ some (left, other))
        × Split v at other left
  unfolding split_to
  view_split_to_lem v at wf h =
      let within : at + v.cursor ≤ buffer.len_of v.inner =
        omega (arith, wf.1, length-rest_of v wf) in
      let (left, other, e, eo, el, vl, vo) =
        buffer.cut_to_lem v.inner (at + v.cursor) wf.0 within in
      let (first_wf, first) = front_part v other at wf vo within eo in
      let (second_wf, second) = back_part v left at vl el in
      (
        at_start left,
        at_cursor v other,
        bind-some
              (λ rest.
                assert (leb at rest) >> (buffer.cut_to v.inner (at + v.cursor) >>= to_parts v))
              (len_lem v wf)
            ∙ bind-some (λ u. buffer.cut_to v.inner (at + v.cursor) >>= to_parts v)
                (ap assert (leb-true h))
            ∙ bind-some (to_parts v) e,
        (first_wf, second_wf, first, second),
      )

  -- split_off of a well-formed view, where `at` and the cursor together are within its length,
  -- leaves the first `at` bytes and returns a view of the rest; both are well-formed.
  pub view_split_off_lem :
      (v : View B) (at : ℕ)
      → WellFormed v
      → at + v.cursor ≤ length (rest_of v)
      → (left : View B) × (other : View B) × (split_off buffer v at ≡ some (left, other))
        × Split v at left other
  unfolding split_off
  view_split_off_lem v at wf h =
      let within : at + v.cursor ≤ buffer.len_of v.inner =
        omega (arith, wf.1, length-rest_of v wf) in
      let (left, other, e, el, eo, vl, vo) =
        buffer.cut_off_lem v.inner (at + v.cursor) wf.0 within in
      let (first_wf, first) = front_part v left at wf vl within el in
      let (second_wf, second) = back_part v other at vo eo in
      (
        at_cursor v left,
        at_start other,
        bind-some
              (λ rest.
                assert (leb (at + v.cursor) rest)
                >> (buffer.cut_off v.inner (at + v.cursor) >>= off_parts v))
              (len_lem v wf)
            ∙ bind-some (λ u. buffer.cut_off v.inner (at + v.cursor) >>= off_parts v)
                (ap assert (leb-true h))
            ∙ bind-some (off_parts v) e,
        (first_wf, second_wf, first, second),
      )

  -- The assertion is made with the cursor added to `at`.
  split_off_panics :
      (v : View B) (at : ℕ)
      → WellFormed v
      → length (rest_of v) < at + v.cursor
      → split_off buffer v at ≡ none
  unfolding split_off
  split_off_panics v at wf h =
      bind-some
        (λ rest.
          assert (leb (at + v.cursor) rest)
          >> (buffer.cut_off v.inner (at + v.cursor) >>= off_parts v))
        (len_lem v wf)
      ∙ assert-none {b = leb (at + v.cursor) (length (rest_of v))}
          (buffer.cut_off v.inner (at + v.cursor) >>= off_parts v) (leb-false h)

  -- Where `at` is within the length of a well-formed view, but together with the cursor exceeds
  -- it, split_off panics, while split_to returns a view of the first `at` bytes and leaves one
  -- of the rest, both well-formed.
  pub split_off_differs :
      (v : View B) (at : ℕ)
      → WellFormed v
      → at ≤ length (rest_of v)
      → length (rest_of v) < at + v.cursor
      → (split_off buffer v at ≡ none)
        × ((left : View B) × (other : View B) × (split_to buffer v at ≡ some (left, other))
            × Split v at other left)
  split_off_differs v at wf h beyond =
      (split_off_panics v at wf beyond, view_split_to_lem v at wf h)

  pub split_to_panics :
      (v : View B) (at : ℕ) → WellFormed v → length (rest_of v) < at → split_to buffer v at ≡ none
  unfolding split_to
  split_to_panics v at wf h =
      bind-some
        (λ rest. assert (leb at rest) >> (buffer.cut_to v.inner (at + v.cursor) >>= to_parts v))
        (len_lem v wf)
      ∙ assert-none {b = leb at (length (rest_of v))}
          (buffer.cut_to v.inner (at + v.cursor) >>= to_parts v) (leb-false h)
