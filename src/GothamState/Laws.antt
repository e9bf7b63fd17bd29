-- ===== src/GothamState/Laws.antt =====
-- core/gotham_state.rs: what putting and taking a value do to the values of every type.
use mathlib.Core.Logic.{ite}
use mathlib.Core.Path.{subst_refl}
use mathlib.Core.HLevel.{hedberg}
use deno_core.Common.{
  ◌≡◌, ◌≢◌, refl, ap, ◌∙◌, subst, none, some, lookup-insert, lookup-remove, ◌>>=◌,
}
use deno_core.GothamState.{GothamState, downcast_by, downcast, put, try_borrow, try_take}

module _ {P A : Type 0} where
  ite_yes : (d : Dec P) (a b : A) → P → ite d a b ≡ a
  ite_yes (yes p) a b h = refl
  ite_yes (no n) a b h = absurd (n h)

  ite_no : (d : Dec P) (a b : A) → (P → ⊥) → ite d a b ≡ b
  ite_no (yes p) a b n = absurd (n p)
  ite_no (no m) a b n = refl

module _ {Ty : Type 0} (El : Ty → Type 0) (dec : Discrete Ty) where
  downcast_same : (t : Ty) (x : El t) → downcast El dec t (t, x) ≡ some x
  downcast_same t x = go (dec t t)
    where
      go : (d : Dec (t ≡ t)) → downcast_by El dec t t d x ≡ some x
      go (yes e) = ap some (ap (λ p. subst El p x) (hedberg dec t t e refl) ∙ subst_refl El x)
      go (no n) = absurd (n refl)

  -- A value that was put is borrowed under its type, and every other type keeps its value.
  pub put_lem :
      (g : GothamState El dec) (t : Ty) (x : El t)
      → (try_borrow El dec (put El dec g t x) t ≡ some x)
        × ((s : Ty) → t ≢ s → try_borrow El dec (put El dec g t x) s ≡ try_borrow El dec g s)
  unfolding try_borrow put
  put_lem g t x = (
    ap (λ o. o >>= downcast El dec t)
          (lookup-insert dec t t (t, x) g.entries ∙ ite_yes (dec t t) _ _ refl)
        ∙ downcast_same t x,
    λ s n.
        ap (λ o. o >>= downcast El dec s)
          (lookup-insert dec t s (t, x) g.entries ∙ ite_no (dec t s) _ _ n),
  )

  -- Taking the value of a type returns what borrowing it finds; no value of the type is left,
  -- and every other type keeps its value.
  pub try_take_lem :
      (g : GothamState El dec) (t : Ty)
      → let (left, taken) = try_take El dec g t in
        (taken ≡ try_borrow El dec g t)
        × (try_borrow El dec left t ≡ none)
        × ((s : Ty) → t ≢ s → try_borrow El dec left s ≡ try_borrow El dec g s)
  unfolding try_borrow try_take
  try_take_lem g t = (
    refl,
    ap (λ o. o >>= downcast El dec t)
        (lookup-remove dec t t g.entries ∙ ite_yes (dec t t) _ _ refl),
    λ s n.
        ap (λ o. o >>= downcast El dec s)
          (lookup-remove dec t s g.entries ∙ ite_no (dec t s) _ _ n),
  )
