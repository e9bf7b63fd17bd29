-- ===== src/Common/Panics.antt =====
-- Computations that may panic: `none` is a panic, and `do` blocks chain them.
use Prim.Native.Nat.{ℕ, zero, suc}
use mathlib.Core.Bool.{Bool, true, false}
use mathlib.Core.Path.{◌≡◌, refl, ap, subst}
use native.Mathlib.Omega.{arith}
use mathlib.Core.Option.{Option, none, some}

infixl 5 ◌>>=◌ ◌>>◌
abbrev pub ◌>>=◌ {ℓ κ} : {A : Type ℓ} {B : Type κ} → Option A → (A → Option B) → Option B
none >>= f = none
some a >>= f = f a

abbrev pub ◌>>◌ {ℓ κ} : {A : Type ℓ} {B : Type κ} → Option A → Option B → Option B
m >> k = m >>= λ _. k

-- `assert!`
abbrev pub assert : Bool → Option (Unit {0})
assert true = some tt
assert false = none

module _ {ℓ} {A : Type ℓ} where
  pub assert-some : {b : Bool} {a : A} → b ≡ true → assert b >> some a ≡ some a
  assert-some {a = a} e = ap (λ b. assert b >> some a) e

  pub assert-none : {b : Bool} (m : Option A) → b ≡ false → assert b >> m ≡ none
  assert-none m e = ap (λ b. assert b >> m) e

module _ {ℓ κ} {A : Type ℓ} {B : Type κ} where
  pub bind-some : {m : Option A} {a : A} (f : A → Option B) → m ≡ some a → (m >>= f) ≡ f a
  bind-some f e = ap (λ m. m >>= f) e

module _ {ℓ κ} {A : Type ℓ} {B : Type κ} where
  -- A chain that returns has a first part that returns.
  pub bind_parts :
      (m : Option A) (f : A → Option B) (b : B)
      → (m >>= f) ≡ some b
      → (a : A) × (m ≡ some a) × (f a ≡ some b)
  bind_parts none f b e = absurd (ground (arith, e))
  bind_parts (some a) f b e = (a, refl, e)

module _ {ℓ} {A : Type ℓ} where
  abbrev value_or : A → Option A → A
  value_or a none = a
  value_or a (some b) = b

  pub some_value : {a b : A} → some a ≡ some b → a ≡ b
  some_value {a = a} e = ap (value_or a) e

-- One less, a panic at zero.
abbrev pub decrement : ℕ → Option ℕ
decrement zero = none
decrement (suc n) = some n

-- What holds of the value, if there is one.
module _ {ℓ κ} {A : Type ℓ} (P : A → Type κ) where
  abbrev pub Each : Option A → Type κ
  Each none = Unit
  Each (some a) = P a

  pub Each-some : (o : Option A) (a : A) → Each o → o ≡ some a → P a
  Each-some none a h e = absurd (ground (arith, e))
  Each-some (some b) a h e = subst P (some_value e) h

module _ {ℓ κ} {A B : Type ℓ} (P : A → Type κ) (Q : B → Type κ) where
  pub Each-bind :
      (m : Option A) (f : A → Option B)
      → Each P m
      → ((a : A) → P a → Each Q (f a))
      → Each Q (m >>= f)
  Each-bind none f h g = tt
  Each-bind (some a) f h g = g a h
