-- ===== src/Buffers/View.antt =====
-- core/io/buffers.rs: the operations that `BufView` and `BufMutView` share, over any buffer.
pub mod Laws
use deno_core.Common.{
  ℕ, ◌+◌, ◌-◌, ◌≡◌, Bool, List, Option, some, none, length, drop, leb, ◌==◌, ◌>>=◌, ◌>>◌, assert,
}
use deno_core.Buffers.{Buffer, checked_sub}

pub record View (B : Type 0) : Type 0 where
  pub inner : B
  pub cursor : ℕ

module _ {B : Type 0} (buffer : Buffer B) where
  unfoldable pub from_inner : B → View B
  from_inner b = record { inner = b; cursor = 0 }

  unfoldable pub len : View B → Option ℕ
  len v = checked_sub (buffer.len_of v.inner) v.cursor

  unfoldable pub is_empty : View B → Option Bool
  is_empty v = do n ← len v; some (n == 0)

  unfoldable pub advance_cursor : View B → ℕ → Option (View B)
  advance_cursor v n = do
    rest ← len v
    assert (leb n rest)
    some (record { inner = v.inner; cursor = v.cursor + n })

  -- The view, then the old cursor.
  unfoldable pub reset_cursor : View B → View B × ℕ
  reset_cursor v = (record { inner = v.inner; cursor = 0 }, v.cursor)

  -- The bytes of the view, `&buf[self.cursor..]`.
  unfoldable pub deref : View B → Option (List ℕ)
  deref v =
      let buf = buffer.bytes_of v.inner in
      assert (leb v.cursor (length buf)) >> some (drop v.cursor buf)

  -- The view that is left, then the one that is returned.
  unfoldable pub split_off : View B → ℕ → Option (View B × View B)
  split_off v at = do
    rest ← len v
    assert (leb (at + v.cursor) rest)
    (left, other) ← buffer.cut_off v.inner (at + v.cursor)
    some (record { inner = left; cursor = v.cursor }, record { inner = other; cursor = 0 })

  unfoldable pub split_to : View B → ℕ → Option (View B × View B)
  split_to v at = do
    rest ← len v
    assert (leb at rest)
    (left, other) ← buffer.cut_to v.inner (at + v.cursor)
    some (record { inner = left; cursor = 0 }, record { inner = other; cursor = v.cursor })
