-- ===== src/Common/Tallies.antt =====
-- How many values of a map pass a test, and how insertion and removal change that.
use Prim.Native.Nat.{ℕ, ◌+◌, ◌≤◌}
use mathlib.Core.Path.{◌≡◌}
use mathlib.Core.Bool.{Bool, true, false}
use mathlib.Core.List.{List, [], ◌∷◌}
use mathlib.Core.Option.{Option, none, some}
use native.Mathlib.Omega.{arith}
use deno_core.Common.Lists.{length}
use deno_core.Common.Maps.{lookup, insert, remove, Distinct, remove_missing}

abbrev pub bit : Bool → ℕ
bit true = 1
bit false = 0

module _ {ℓ} {K V : Type ℓ} (dec : Discrete K) (p : V → Bool) where
  abbrev pub tally : List (K × V) → ℕ
  tally [] = 0
  tally ((k, v) ∷ m) = bit (p v) + tally m

  abbrev pub tally_of : Option V → ℕ
  tally_of none = 0
  tally_of (some v) = bit (p v)

  pub tally-insert :
      (k : K) (v : V) (m : List (K × V))
      → tally (insert dec k v m) + tally_of (lookup dec k m) ≡ tally m + bit (p v)
  tally-insert k v [] = omega arith
  tally-insert k v ((j, w) ∷ m) = ground (arith, tally-insert k v m)

  pub tally-remove :
      (k : K) (m : List (K × V))
      → Distinct dec m
      → tally (remove dec k m) + tally_of (lookup dec k m) ≡ tally m
  tally-remove k [] d = omega arith
  tally-remove k ((j, w) ∷ m) d = ground (arith, tally-remove k m d.1, remove_missing dec k m)

  pub tally_le : (m : List (K × V)) → tally m ≤ length m
  tally_le [] = omega arith
  tally_le ((k, v) ∷ m) = elim (p v) as (λ b. bit b + tally m ≤ length ((k, v) ∷ m)) [
    | true ↦ omega (arith, tally_le m)
    | false ↦ omega (arith, tally_le m)
  ]
