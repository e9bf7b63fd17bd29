-- ===== src/GothamState/Tests.antt =====
-- A store with a number and a truth value.
use native.Mathlib.Decide.{ℕ_discrete}
use deno_core.Common.{ℕ, zero, suc, Bool, true}
use deno_core.GothamState.{GothamState, put, new_state}

-- Two types, by number.
abbrev Values : ℕ → Type 0
Values zero = ℕ
Values (suc n) = Bool

abbrev stored : GothamState Values ℕ_discrete
unfolding put new_state
stored = put Values ℕ_discrete (new_state Values ℕ_discrete) 1 true
