-- ===== src/Buffers/Tests.antt =====
-- Views of four bytes with the cursor at 2, in a slice of a V8 store and in a list that stands for
-- a buffer of `bytes`.
use deno_core.Common.{
  zero, suc, ℕ, ◌≡◌, ◌≤◌, refl, List, [], ◌∷◌, some, none, length, take, drop, leb, assert, ◌>>◌,
  assert-some, leb-true, arith, ap,
}
use deno_core.V8Slice.{V8Slice, as_slice, len}
use deno_core.Buffers.{Buffer}
use deno_core.Buffers.Inner.{js_buffer_ops}
use deno_core.Buffers.View.{View, split_off, split_to}
use deno_core.Buffers.View.Laws.{WellFormed, Split, split_off_differs}
use deno_core.Buffers.BufView.{BufViewInner, view_truncate_lem}
use deno_core.Buffers.BufView
use deno_core.Buffers.BufMutView.{BufMutViewInner}
use deno_core.Buffers.BufMutView
use deno_core.Buffers.BufMutView.Resize.{BytesMutApi}

-- A buffer that is a list of bytes.
abbrev list_buffer : Buffer (List ℕ)
list_buffer = record {
  bytes_of = λ xs. xs;
  len_of = λ xs. length xs;
  shorten = λ xs n. take n xs;
  cut_off = λ xs at. assert (leb at (length xs)) >> some (take at xs, drop at xs);
  cut_to = λ xs at. assert (leb at (length xs)) >> some (drop at xs, take at xs);
  IsValid = λ xs. Unit;
  length-bytes_of = λ xs valid. refl;
  shorten-bytes_of = λ xs n valid. (refl, tt);
  cut_off_lem =
      λ xs at valid h. (take at xs, drop at xs, assert-some (leb-true h), refl, refl, tt, tt);
  cut_to_lem =
      λ xs at valid h. (drop at xs, take at xs, assert-some (leb-true h), refl, refl, tt, tt);
}

abbrev zeros : ℕ → List ℕ
zeros zero = []
zeros (suc n) = 0 ∷ zeros n

abbrev four_bytes : V8Slice ℕ
four_bytes = record {
  store = record { data_of = some (1 ∷ 2 ∷ 3 ∷ 4 ∷ []); byte_length = 4 };
  start = 0;
  end = 4;
}

abbrev js_view : ℕ → View (V8Slice ℕ)
js_view cursor = record { inner = four_bytes; cursor = cursor }

abbrev buf_view : View (BufViewInner (List ℕ))
buf_view = record { inner = BufViewInner.js_buffer four_bytes; cursor = 1 }

abbrev mut_view : ℕ → View (BufMutViewInner (List ℕ))
mut_view cursor = record { inner = BufMutViewInner.bytes (1 ∷ 2 ∷ 3 ∷ 4 ∷ []); cursor = cursor }

js_view-WellFormed : WellFormed js_buffer_ops (js_view 1)
unfolding len js_buffer_ops
js_view-WellFormed = (refl, omega arith)

buf_view-WellFormed : WellFormed (BufView.inner_buffer list_buffer) buf_view
unfolding len js_buffer_ops
buf_view-WellFormed = (refl, omega arith)

mut_view-WellFormed :
    (cursor : ℕ) → cursor ≤ 4 → WellFormed (BufMutView.inner_buffer list_buffer) (mut_view cursor)
mut_view-WellFormed cursor h = (tt, h)

-- Three bytes remain; of the splits at the third, one panics.
split_off_differs_example :
    (split_off js_buffer_ops (js_view 1) 3 ≡ none)
    × ((left : View (V8Slice ℕ)) × (other : View (V8Slice ℕ)) × (split_to js_buffer_ops
            (js_view 1)
            3
          ≡ some (left, other))
        × Split js_buffer_ops (js_view 1) 3 other left)
unfolding as_slice js_buffer_ops
split_off_differs_example =
    split_off_differs js_buffer_ops (js_view 1) 3 js_view-WellFormed (omega arith) (omega arith)

length-zeros : (n : ℕ) → length (zeros n) ≡ n
length-zeros zero = refl
length-zeros (suc n) = omega (arith, length-zeros n)

abbrev list_resize : List ℕ → ℕ → List ℕ
list_resize [] n = zeros n
list_resize (x ∷ xs) zero = []
list_resize (x ∷ xs) (suc n) = x ∷ list_resize xs n

length-list_resize : (xs : List ℕ) (n : ℕ) → length (list_resize xs n) ≡ n
length-list_resize [] n = length-zeros n
length-list_resize (x ∷ xs) zero = refl
length-list_resize (x ∷ xs) (suc n) = omega (arith, length-list_resize xs n)

take-list_resize : (xs : List ℕ) (n : ℕ) → length xs ≤ n → take (length xs) (list_resize xs n) ≡ xs
take-list_resize [] n h = refl
take-list_resize (x ∷ xs) zero h = absurd (omega arith)
take-list_resize (x ∷ xs) (suc n) h = ap (◌∷◌ x) (take-list_resize xs n (omega arith))

abbrev list_api : BytesMutApi list_buffer list_buffer
list_api = record {
  resize = list_resize;
  zeroed = zeros;
  freeze = λ xs. xs;
  resize_lem = λ xs n valid h. (tt, length-list_resize xs n, take-list_resize xs n h);
  zeroed_lem = λ n. (tt, length-zeros n);
  freeze_lem = λ xs valid. (tt, refl);
}
