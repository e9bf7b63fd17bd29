-- ===== src/Timers/Counts.antt =====
-- core/web_timeout.rs: the counts of unreferenced and of high resolution timers agree with the
-- data of the timers, so that no count falls below zero.
use native.Mathlib.Decide.{ℕ_discrete}
use deno_core.Common.{
  decrement, ℕ, zero, suc, ◌+◌, ◌-◌, ◌≤◌, ◌≡◌, refl, ap, sym, ◌∙◌, subst, Bool, true, false, List,
  [], ◌∷◌, none, some, lookup, remove, ◌>>=◌, arith, tally, bit, tally_of, tally-remove, Distinct,
  remove-Distinct, lookup-remove, bind-some,
}
use deno_core.Timers.{
  TimerData, WebTimers, find, is_empty, new_timers, maybe_unlock, forget_unrefd, clear_all, release,
}

decrement_lem : (n : ℕ) → 1 ≤ n → decrement n ≡ some (n - 1)
decrement_lem zero h = absurd (omega arith)
decrement_lem (suc n) h = ap some (omega arith)

module _ {T : Type 0} where
  abbrev pub unrefd_in : List (ℕ × TimerData T) → ℕ
  unrefd_in m = tally ℕ_discrete (λ td. td.unrefd) m

  abbrev pub high_res_in : List (ℕ × TimerData T) → ℕ
  high_res_in m = tally ℕ_discrete (λ td. td.high_res) m

  -- Where no timer has data, nothing is queued and the sleep is off.
  abbrev pub Idle : WebTimers T → Type 0
  Idle w = is_empty w.data_map ≡ true → (w.timers ≡ []) × (w.sleep ≡ none)

  pub record Inv (w : WebTimers T) : Type 0 where
    pub unrefd : w.unrefd_count ≡ unrefd_in w.data_map
    pub locks : w.lock_count ≡ high_res_in w.data_map
    pub distinct : Distinct ℕ_discrete w.data_map
    pub idle : Idle w
    pub below : (id : ℕ) (td : TimerData T) → find id w ≡ some td → id ≤ w.next_id

  pub new_timers-Inv : Inv new_timers
  unfolding new_timers
  new_timers-Inv = record {
    unrefd = refl;
    locks = refl;
    distinct = tt;
    idle = λ e. (refl, refl);
    below = λ id td e. ground (arith, e);
  }

  unlock_lem :
      (w : WebTimers T) (b : Bool)
      → bit b ≤ w.lock_count
      → maybe_unlock w b ≡ some (record w { lock_count = w.lock_count - bit b })
  unfolding maybe_unlock
  unlock_lem w true h =
      ap (λ m. m >>= λ n. some (record w { lock_count = n })) (decrement_lem w.lock_count h)
  unlock_lem w false h = ap (λ n. some (record w { lock_count = n })) (omega arith)

  pub forget_lem :
      (w : WebTimers T) (b : Bool)
      → bit b ≤ w.unrefd_count
      → forget_unrefd w b ≡ some (record w { unrefd_count = w.unrefd_count - bit b })
  unfolding forget_unrefd
  forget_lem w true h =
      ap (λ m. m >>= λ n. some (record w { unrefd_count = n })) (decrement_lem w.unrefd_count h)
  forget_lem w false h = ap (λ n. some (record w { unrefd_count = n })) (omega arith)

  -- The counts without the data of one timer.
  pub unrefd_sum :
      (w : WebTimers T) (id : ℕ) (td : TimerData T)
      → Inv w
      → find id w ≡ some td
      → unrefd_in (remove ℕ_discrete id w.data_map) + bit td.unrefd ≡ unrefd_in w.data_map
  unrefd_sum w id td v found =
      subst
        (λ o.
          unrefd_in (remove ℕ_discrete id w.data_map) + tally_of ℕ_discrete (λ td. td.unrefd) o
          ≡ unrefd_in w.data_map)
        found (tally-remove ℕ_discrete (λ td. td.unrefd) id w.data_map v.distinct)

  pub high_res_sum :
      (w : WebTimers T) (id : ℕ) (td : TimerData T)
      → Inv w
      → find id w ≡ some td
      → high_res_in (remove ℕ_discrete id w.data_map) + bit td.high_res ≡ high_res_in w.data_map
  high_res_sum w id td v found =
      subst
        (λ o.
          high_res_in (remove ℕ_discrete id w.data_map) + tally_of ℕ_discrete (λ td. td.high_res) o
          ≡ high_res_in w.data_map)
        found (tally-remove ℕ_discrete (λ td. td.high_res) id w.data_map v.distinct)

  -- `release` after the data of a timer was removed.
  pub release_lem :
      (w : WebTimers T) (id : ℕ) (td : TimerData T)
      → Inv w
      → find id w ≡ some td
      → (left : WebTimers T) × (release (record w { data_map = remove ℕ_discrete id w.data_map }) td
          ≡ some left)
        × Inv left
        × (left.data_map ≡ remove ℕ_discrete id w.data_map)
        × (left.next_id ≡ w.next_id)
  unfolding release maybe_unlock forget_unrefd clear_all
  release_lem w id td v found = go (remove ℕ_discrete id w.data_map) refl
    where
      go :
          (m : List (ℕ × TimerData T))
          → m ≡ remove ℕ_discrete id w.data_map
          → (left : WebTimers T) × (release (record w { data_map = m }) td ≡ some left)
            × Inv left
            × (left.data_map ≡ m)
            × (left.next_id ≡ w.next_id)
      go [] e = (
        clear_all (record w { data_map = [] }),
        refl,
        record {
          unrefd = refl;
          locks = refl;
          distinct = tt;
          idle = λ e. (refl, refl);
          below = λ id td e. ground (arith, e);
        },
        refl,
        refl,
      )
      go (x ∷ m) e = (
        record w {
          data_map = x ∷ m;
          lock_count = w.lock_count - bit td.high_res;
          unrefd_count = w.unrefd_count - bit td.unrefd;
        },
        bind-some (λ unlocked. forget_unrefd unlocked td.unrefd)
              (unlock_lem (record w { data_map = x ∷ m }) td.high_res
                (omega (arith, v.locks, high_res_sum w id td v found)))
            ∙ forget_lem
                (record w { data_map = x ∷ m; lock_count = w.lock_count - bit td.high_res })
                td.unrefd (omega (arith, v.unrefd, unrefd_sum w id td v found)),
        record {
          unrefd = omega (arith, v.unrefd, unrefd_sum w id td v found, ap unrefd_in e);
          locks = omega (arith, v.locks, high_res_sum w id td v found, ap high_res_in e);
          distinct =
              subst (Distinct ℕ_discrete) (sym e)
                (remove-Distinct ℕ_discrete id w.data_map v.distinct);
          idle = λ h. ground (arith, h);
          below = λ j x found_j. ground (
            arith,
            v.below j x,
            found_j,
            ap (lookup ℕ_discrete j) e,
            lookup-remove ℕ_discrete id j w.data_map,
          );
        },
        refl,
        refl,
      )
