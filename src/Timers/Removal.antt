-- ===== src/Timers/Removal.antt =====
-- core/web_timeout.rs: cancelling a timer and taking one that fired.
use native.Mathlib.Decide.{ℕ_discrete}
use deno_core.Common.{
  ℕ, ◌+◌, ◌≡◌, refl, ap, sym, ◌∙◌, Bool, true, false, List, [], ◌∷◌, Option, none, some, inl, inr,
  Bool-cases, Option-cases, ltb, ◌==◌, ◌&&◌, if◌then◌else◌, lookup, remove, ◌>>=◌, assert, arith,
  bit, lookup-remove, bind-some,
}
use deno_core.Timers.{
  repeat, once, TimerData, WebTimers, find, release, last_is_consistent, cancel_found, take_found,
  cancel_timer, take_fired_timer, one_if,
}
use deno_core.Timers.Counts.{Inv, unrefd_in, high_res_in, unrefd_sum, high_res_sum, release_lem}

module _ {T : Type 0} where
  -- What a timer carries.
  abbrev pub value_of : Option (TimerData T) → Option T
  value_of none = none
  value_of (some td) = some td.value

  abbrev without : WebTimers T → ℕ → WebTimers T
  without w id = record w { data_map = remove ℕ_discrete id w.data_map }

  last_consistent :
      (w : WebTimers T) (id : ℕ) (td : TimerData T)
      → Inv w
      → find id w ≡ some td
      → last_is_consistent (without w id) td ≡ true
  unfolding last_is_consistent
  last_consistent w id td v found =
      go (remove ℕ_discrete id w.data_map) (omega (arith, v.unrefd, unrefd_sum w id td v found))
        (omega (arith, v.locks, high_res_sum w id td v found))
    where
      same_lock : (n : ℕ) (b : Bool) → n ≡ bit b → (one_if (ltb 0 n) == one_if b) ≡ true
      same_lock n true e = ground (arith, e)
      same_lock n false e = ground (arith, e)

      same_count : (n : ℕ) (b : Bool) → n ≡ bit b → (n == one_if b) ≡ true
      same_count n true e = ground (arith, e)
      same_count n false e = ground (arith, e)

      both_true : {a b : Bool} → a ≡ true → b ≡ true → (a && b) ≡ true
      both_true e h = ground (arith, e, h)

      go :
          (m : List (ℕ × TimerData T))
          → unrefd_in m + bit td.unrefd ≡ w.unrefd_count
          → high_res_in m + bit td.high_res ≡ w.lock_count
          → last_is_consistent (record w { data_map = m }) td ≡ true
      go [] e h =
          both_true (same_count w.unrefd_count td.unrefd (omega (arith, e)))
            (same_lock w.lock_count td.high_res (omega (arith, h)))
      go (x ∷ m) e h = refl

  -- Removing the data of a timer leaves the other timers' data.
  abbrev pub Removed : WebTimers T → ℕ → WebTimers T → Type 0
  Removed w id left =
      Inv left
      × ((j : ℕ) → find j left ≡ (if j == id then none else find j w))
      × (left.next_id ≡ w.next_id)

  unchanged : (w : WebTimers T) (id : ℕ) → Inv w → find id w ≡ none → Removed w id w
  unchanged w id v e = (v, λ j. same j, refl)
    where
      same : (j : ℕ) → find j w ≡ (if j == id then none else find j w)
      same j = elim (Bool-cases (j == id)) [
        | inl eq ↦ ground (arith, ap (λ i. find i w) (the_same j eq), e)
        | inr ne ↦ ground (arith, ne)
      ]
        where
          the_same : (j : ℕ) → (j == id) ≡ true → j ≡ id
          the_same j eq = ground (arith, eq)

  others :
      (w : WebTimers T) (id : ℕ) (left : WebTimers T)
      → left.data_map ≡ remove ℕ_discrete id w.data_map
      → (j : ℕ) → find j left ≡ (if j == id then none else find j w)
  others w id left kept j =
      ap (lookup ℕ_discrete j) kept ∙ ground (arith, lookup-remove ℕ_discrete id j w.data_map)

  -- In a consistent state, cancelling never panics: it returns what the timer carries, where
  -- there is one with the id, keeps the state consistent, and afterwards exactly the other
  -- timers have data.
  pub cancel_timer_lem :
      (w : WebTimers T) (id : ℕ)
      → Inv w
      → (left : WebTimers T) × (cancel_timer w id ≡ some (left, value_of (find id w)))
        × Removed w id left
  unfolding cancel_timer cancel_found
  cancel_timer_lem w id v = elim (Option-cases (find id w)) [
    | inl e ↦
        (w, ap (cancel_found w id) e ∙ ap (λ o. some (w, value_of o)) (sym e), unchanged w id v e)
    | inr (td, e) ↦
        let (left, run, inv, kept, next) = release_lem w id td v e in
        (
          left,
          ap (cancel_found w id) e
              ∙ bind-some (λ u. release (without w id) td >>= λ left. some (left, some td.value))
                  (ap assert (last_consistent w id td v e))
              ∙ bind-some (λ left. some (left, some td.value)) run
              ∙ ap (λ o. some (left, value_of o)) (sym e),
          (inv, others w id left kept, next),
        )
  ]

  -- In a consistent state, taking a fired timer never panics and returns what it carries, where
  -- it still has data. One that repeats keeps its data; one that fires once gives it up, like a
  -- cancelled one.
  pub take_fired_timer_lem :
      (w : WebTimers T) (id : ℕ)
      → Inv w
      → ((interval : ℕ) → take_fired_timer w id (repeat interval) ≡ some (w, value_of (find id w)))
        × ((left : WebTimers T) × (take_fired_timer w id once ≡ some (left, value_of (find id w)))
            × Removed w id left)
  unfolding take_fired_timer take_found
  take_fired_timer_lem w id v = elim (Option-cases (find id w)) [
    | inl e ↦ (
      λ interval. ap (take_found w id (repeat interval)) e ∙ ap (λ o. some (w, value_of o)) (sym e),
      (w, ap (take_found w id once) e ∙ ap (λ o. some (w, value_of o)) (sym e), unchanged w id v e),
    )
    | inr (td, e) ↦
        let (left, run, inv, kept, next) = release_lem w id td v e in
        (
          λ interval.
              ap (take_found w id (repeat interval)) e ∙ ap (λ o. some (w, value_of o)) (sym e),
          (
            left,
            ap (take_found w id once) e
                ∙ bind-some (λ left. some (left, some td.value)) run
                ∙ ap (λ o. some (left, value_of o)) (sym e),
            (inv, others w id left kept, next),
          ),
        )
  ]
