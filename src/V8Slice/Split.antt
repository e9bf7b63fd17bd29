-- ===== src/V8Slice/Split.antt =====
-- serde_v8/magic/v8slice.rs: the parts of a slice are the parts of the elements that it shows.
use deno_core.Common.{
  take-take, take_by, drop_by, assert-some, assert-none, ◌≡⟨◌⟩◌, ◌∎, true, false, take_nil,
  drop_nil, ℕ, ◌+◌, ◌-◌, ◌/◌, ◌%◌, ◌*◌, ◌^◌, ◌≡◌, ◌≤◌, ◌<◌, min, Bool, List, [], Option, none, some,
  leb, ◌==◌, if◌then◌else◌, length, take, drop, refl, ap, arith, sym, ◌∙◌, length-take, length-drop,
  drop-drop, drop-take, take_of_take, take_all,
}
use native.Mathlib.Nat.{mul-div_cancel, div-add-mod'}
use mathlib.Core.Path.{ap₂}
use deno_core.V8Slice.{
  in_bytes, from_parts, into_parts, read_at, BackingStore, V8Slice, clamped_end, len, as_slice,
  split_to, split_off, truncate,
}

module _ (size_of : ℕ) where
  in_bytes-div : (b : ℕ) → b < 2 ^ 64 → in_bytes size_of (b / size_of) ≡ some (b - b % size_of)
  in_bytes-div b lt =
      let e : b / size_of * size_of ≡ b - b % size_of = omega (arith, div-add-mod' b size_of) in
      ground (arith, e)

  rounded : (b : ℕ) → 0 < size_of → (b - b % size_of) / size_of ≡ b / size_of
  rounded b pos =
      let e : b - b % size_of ≡ b / size_of * size_of = omega (arith, div-add-mod' b size_of) in
      ap (λ n. n / size_of) e ∙ mul-div_cancel (b / size_of) pos

module _ {A : Type 0} (size_of : ℕ) where
  abbrev shown : Option (List A) → List A
  shown none = []
  shown (some xs) = xs

  -- The elements of the store: none where `data()` is none.
  abbrev pub elements : BackingStore A → List A
  elements store = shown store.data_of

  -- `len()` counts the elements that `data()` shows.
  abbrev pub IsStore : BackingStore A → Type 0
  IsStore store = length (elements store) ≡ store.byte_length / size_of

  pub as_slice-elements :
      (s : V8Slice A) → as_slice size_of s ≡ take (len size_of s) (drop s.start (elements s.store))
  unfolding as_slice len clamped_end
  as_slice-elements s =
      go s.start (min s.end (s.store.byte_length / size_of) - s.start) s.store.data_of
    where
      or_nothing :
          (b : Bool) (n : ℕ) (ys : List A)
          → (b ≡ true → n ≡ 0)
          → (if b then [] else take n ys) ≡ take n ys
      or_nothing true n ys h = sym (ap (λ i. take i ys) (h refl))
      or_nothing false n ys h = refl

      go :
          (start n : ℕ) (data_of : Option (List A))
          → read_at size_of start n data_of ≡ take n (drop start (shown data_of))
      go start n none = sym (take_nil n _ (drop_nil start [] refl))
      go start n (some xs) = or_nothing (n == 0) n (drop start xs) (λ e. ground arith)

  pub length-as_slice :
      (s : V8Slice A) → IsStore s.store → length (as_slice size_of s) ≡ len size_of s
  unfolding len clamped_end
  length-as_slice s h = omega (
    arith,
    ap length (as_slice-elements s),
    length-take (len size_of s) (drop s.start (elements s.store)),
    length-drop s.start (elements s.store),
  )

  abbrev pub over : V8Slice A → ℕ → ℕ → V8Slice A
  over s b e = record { store = s.store; start = b; end = e }

  -- A slice over a part of another's range shows that part of its elements.
  part :
      (s : V8Slice A) (b e from to : ℕ)
      → b ≡ s.start + from
      → e ≡ s.start + to
      → to ≤ len size_of s
      → as_slice size_of (over s b e) ≡ take (to - from) (drop from (as_slice size_of s))
  unfolding len clamped_end
  part s b e from to eb ee h =
      let all = drop s.start (elements s.store) in
      as_slice size_of (over s b e)
      ≡⟨ as_slice-elements (over s b e) ⟩
        take (min e (s.store.byte_length / size_of) - b) (drop b (elements s.store))
      ≡⟨ take_by (drop b (elements s.store)) (omega arith) ⟩
        take (to - from) (drop b (elements s.store))
      ≡⟨ ap (take (to - from)) (drop_by (elements s.store) eb) ⟩
        take (to - from) (drop (s.start + from) (elements s.store))
      ≡⟨ ap (take (to - from)) (sym (drop-drop from s.start (elements s.store))) ⟩
        take (to - from) (drop from all)
      ≡⟨ sym (take_of_take (to - from) (len size_of s - from) (drop from all) (omega arith)) ⟩
        take (to - from) (take (len size_of s - from) (drop from all))
      ≡⟨ ap (take (to - from)) (sym (drop-take from (len size_of s) all)) ⟩
        take (to - from) (drop from (take (len size_of s) all))
      ≡⟨ ap (λ xs. take (to - from) (drop from xs)) (sym (as_slice-elements s)) ⟩
        take (to - from) (drop from (as_slice size_of s)) ∎

  pub front :
      (s : V8Slice A) (at : ℕ)
      → at ≤ len size_of s
      → as_slice size_of (over s s.start (s.start + at)) ≡ take at (as_slice size_of s)
  front s at h =
      part s s.start (s.start + at) 0 at (omega arith) refl h
      ∙ take_by (as_slice size_of s) (omega arith)

  pub back :
      (s : V8Slice A) (at : ℕ)
      → at ≤ len size_of s
      → as_slice size_of (over s (s.start + at) (s.start + len size_of s))
        ≡ drop at (as_slice size_of s)
  back s at h =
      part s (s.start + at) (s.start + len size_of s) at (len size_of s) refl refl (omega arith)
      ∙ take_all _ _ (
          omega (
            arith,
            length-drop at (as_slice size_of s),
            ap length (as_slice-elements s),
            length-take (len size_of s) (drop s.start (elements s.store)),
          ))

  -- Within the length of the slice, split_to does not panic, returns a slice of the first `at`
  -- elements and leaves the rest.
  pub split_to_lem :
      (s : V8Slice A) (at : ℕ)
      → at ≤ len size_of s
      → (rest : V8Slice A) × (other : V8Slice A) × (split_to size_of s at ≡ some (rest, other))
        × (as_slice size_of other ≡ take at (as_slice size_of s))
        × (as_slice size_of rest ≡ drop at (as_slice size_of s))
  unfolding split_to
  split_to_lem s at h = (
    over s (s.start + at) (s.start + len size_of s),
    over s s.start (s.start + at),
    assert-some (ground arith),
    front s at h,
    back s at h,
  )

  -- Within the length of the slice, split_off does not panic, leaves the first `at` elements and
  -- returns a slice of the rest.
  pub split_off_lem :
      (s : V8Slice A) (at : ℕ)
      → at ≤ len size_of s
      → (rest : V8Slice A) × (other : V8Slice A) × (split_off size_of s at ≡ some (rest, other))
        × (as_slice size_of rest ≡ take at (as_slice size_of s))
        × (as_slice size_of other ≡ drop at (as_slice size_of s))
  unfolding split_off
  split_off_lem s at h = (
    over s s.start (s.start + at),
    over s (s.start + at) (s.start + len size_of s),
    assert-some (ground arith),
    front s at h,
    back s at h,
  )

  -- Past the length, both panic.
  pub split_panics :
      (s : V8Slice A) (at : ℕ)
      → len size_of s < at
      → (split_to size_of s at ≡ none) × (split_off size_of s at ≡ none)
  unfolding split_to split_off
  split_panics s at h = (
    assert-none {b = leb at (len size_of s)} _ (ground arith),
    assert-none {b = leb at (len size_of s)} _ (ground arith),
  )

  -- truncate keeps the first `n` elements of what the slice shows, also where the range ends
  -- past the store.
  pub truncate_lem :
      (s : V8Slice A) (n : ℕ)
      → as_slice size_of (truncate size_of s n) ≡ take n (as_slice size_of s)
  unfolding truncate len clamped_end
  truncate_lem s n =
      let shown_end = drop s.start (elements s.store) in
      as_slice-elements (truncate size_of s n)
      ∙ take_by shown_end (omega arith)
      ∙ sym (take-take n (len size_of s) shown_end)
      ∙ ap (take n) (sym (as_slice-elements s))

  -- For elements of at least one byte and a range of bytes below 2 ^ 64, the slice that is made
  -- of the range gives it back with both ends rounded down to whole elements, without an
  -- overflow of the products; and the rounded range makes the same slice.
  pub into_parts-from_parts :
      (store : BackingStore A) (b e : ℕ)
      → 0 < size_of
      → b < 2 ^ 64
      → e < 2 ^ 64
      → (into_parts size_of (from_parts size_of store b e)
          ≡ some (store, b - b % size_of, e - e % size_of))
        × (from_parts size_of store (b - b % size_of) (e - e % size_of)
            ≡ from_parts size_of store b e)
  unfolding from_parts into_parts
  into_parts-from_parts store b e pos lb le = (
    rw (in_bytes-div size_of b lb) (rw (in_bytes-div size_of e le) refl),
    ap₂ (λ m n. record { store = store; start = m; end = n }) (rounded size_of b pos)
        (rounded size_of e pos),
  )
