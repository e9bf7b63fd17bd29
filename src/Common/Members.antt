-- ===== src/Common/Members.antt =====
-- Lists of numbers as finite sets.
use Prim.Native.Nat.{ℕ, suc}
use mathlib.Core.Path.{◌≡◌, refl}
use mathlib.Core.Bool.{Bool, true, false}
use mathlib.Core.List.{List, [], ◌∷◌}
use native.Mathlib.Omega.{arith}
use deno_core.Common.Tests.{◌==◌, if◌then◌else◌}
use deno_core.Common.Lists.{length}

abbrev pub member : ℕ → List ℕ → Bool
member i [] = false
member i (j ∷ js) = let rest = member i js in if i == j then true else rest

-- The list without one occurrence of a number.
abbrev pub without : ℕ → List ℕ → List ℕ
without i [] = []
without i (j ∷ js) = let rest = without i js in if i == j then js else j ∷ rest

-- No number stands twice.
abbrev pub NoRepeat : List ℕ → Type 0
NoRepeat [] = Unit
NoRepeat (i ∷ is) = (member i is ≡ false) × NoRepeat is

pub length-without :
    (i : ℕ) (js : List ℕ) → member i js ≡ true → length js ≡ suc (length (without i js))
length-without i [] h = ground (arith, h)
length-without i (j ∷ js) h = ground (arith, length-without i js)

pub member-without_other :
    (i k : ℕ) (js : List ℕ) → (k == i) ≡ false → member k (without i js) ≡ member k js
member-without_other i k [] h = refl
member-without_other i k (j ∷ js) h = ground (arith, member-without_other i k js)

pub member-without_self : (i : ℕ) (js : List ℕ) → NoRepeat js → member i (without i js) ≡ false
member-without_self i [] h = refl
member-without_self i (j ∷ js) h = ground (arith, member-without_self i js h.1)

pub member-without_none :
    (i k : ℕ) (js : List ℕ) → member k js ≡ false → member k (without i js) ≡ false
member-without_none i k [] h = refl
member-without_none i k (j ∷ js) h = ground (arith, member-without_none i k js)

pub without-NoRepeat : (i : ℕ) (js : List ℕ) → NoRepeat js → NoRepeat (without i js)
without-NoRepeat i [] h = tt
without-NoRepeat i (j ∷ js) h =
    ground (arith, member-without_none i j js h.0, without-NoRepeat i js h.1)
