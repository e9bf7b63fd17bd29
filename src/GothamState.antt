-- ===== src/GothamState.antt =====
-- core/gotham_state.rs: a store of one value for each type. `Ty` stands for the types, `El t` for
-- the values of the type `t`; a `Box<dyn Any>` is a value with its type.
pub mod Laws
mod Tests
use mathlib.Core.Logic.{ite}
use deno_core.Common.{
  ◌≡◌, subst, Bool, true, false, List, [], Option, none, some, lookup, insert, remove, ◌>>=◌,
}

module _ {Ty : Type 0} (El : Ty → Type 0) (dec : Discrete Ty) where
  abbrev pub AnyBox : Type 0
  AnyBox = (t : Ty) × El t

  pub record GothamState : Type 0 where
    pub entries : List (Ty × AnyBox)

  abbrev pub downcast_by : (t s : Ty) → Dec (s ≡ t) → El s → Option (El t)
  downcast_by t s (yes e) x = some (subst El e x)
  downcast_by t s (no _) x = none

  -- `downcast`, which compares the types at run time.
  abbrev pub downcast : (t : Ty) → AnyBox → Option (El t)
  downcast t (s, x) = downcast_by t s (dec s t) x

  unfoldable pub new_state : GothamState
  new_state = record { entries = [] }

  unfoldable pub put : GothamState → (t : Ty) → El t → GothamState
  put g t x = record { entries = insert dec t (t, x) g.entries }

  abbrev is_some : Option AnyBox → Bool
  is_some none = false
  is_some (some _) = true

  unfoldable pub has : GothamState → Ty → Bool
  has g t = is_some (lookup dec t g.entries)

  unfoldable pub try_borrow : GothamState → (t : Ty) → Option (El t)
  try_borrow g t = lookup dec t g.entries >>= downcast t

  -- The store without the type's entry, and the value, where it has the type.
  unfoldable pub try_take : GothamState → (t : Ty) → GothamState × Option (El t)
  try_take g t =
      (record { entries = remove dec t g.entries }, lookup dec t g.entries >>= downcast t)

  -- `none` is the panic of `missing`.
  unfoldable pub take_value : GothamState → (t : Ty) → Option (GothamState × El t)
  unfolding try_take
  take_value g t = do let (left, taken) = try_take g t; x ← taken; some (left, x)
