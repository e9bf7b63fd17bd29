-- ===== src/Timers/Queueing.antt =====
-- core/web_timeout.rs: queueing, referencing and unreferencing timers.
use mathlib.Core.Logic.{ite}
use native.Mathlib.Decide.{ℕ_discrete}
use deno_core.Common.{
  ℕ, ◌+◌, ◌-◌, ◌≤◌, ◌≡◌, refl, ap, sym, ◌∙◌, subst, Bool, true, false, List, [], ◌∷◌, Option, none,
  some, inl, inr, Bool-cases, Option-cases, leb, ◌==◌, if◌then◌else◌, insert, arith, bit, tally_of,
  lookup-insert, tally-insert, insert-Distinct,
}
use deno_core.Timers.{
  TimerKey, TimerData, WebTimers, find, is_empty, maybe_lock, ref_found, ref_timer, unref_found,
  unref_timer, queue_timer_internal, low_res_timer_resolution,
}
use deno_core.Timers.Counts.{unrefd_sum, Inv, forget_lem}

module _ {T : Type 0} where
  insert_nonempty :
      (id : ℕ) (td : TimerData T) (m : List (ℕ × TimerData T))
      → is_empty (insert ℕ_discrete id td m) ≡ false
  insert_nonempty id td [] = refl
  insert_nonempty id td ((j, x) ∷ m) = ground arith

  -- The state after the data of a timer was set, with counts that fit.
  put-Inv :
      (w : WebTimers T) (id next unrefd_count lock_count : ℕ) (timers : List TimerKey)
      (sleep : Option ℕ) (td : TimerData T)
      → Inv w
      → w.next_id ≤ next
      → id ≤ next
      → unrefd_count + tally_of ℕ_discrete (λ td. td.unrefd) (find id w)
        ≡ w.unrefd_count + bit td.unrefd
      → lock_count + tally_of ℕ_discrete (λ td. td.high_res) (find id w)
        ≡ w.lock_count + bit td.high_res
      → Inv (record {
        next_id = next;
        timers = timers;
        data_map = insert ℕ_discrete id td w.data_map;
        unrefd_count = unrefd_count;
        sleep = sleep;
        lock_count = lock_count;
      })
  put-Inv w id next unrefd_count lock_count timers sleep td v grows below count_e lock_e = record {
    unrefd =
        omega
          (arith, v.unrefd, count_e, tally-insert ℕ_discrete (λ td. td.unrefd) id td w.data_map);
    locks =
        omega
          (arith, v.locks, lock_e, tally-insert ℕ_discrete (λ td. td.high_res) id td w.data_map);
    distinct = insert-Distinct ℕ_discrete id td w.data_map v.distinct;
    idle = λ e. absurd (ground (arith, e, insert_nonempty id td w.data_map));
    below = λ j x found.
        ground (arith, found, lookup-insert ℕ_discrete id j td w.data_map, v.below j x);
  }

  -- Referencing and unreferencing keep the state consistent and never panic.
  pub ref_timer-Inv :
      (w : WebTimers T) (id : ℕ) → Inv w → (w' : WebTimers T) × (ref_timer w id ≡ some w') × Inv w'
  unfolding ref_timer ref_found
  ref_timer-Inv w id v = elim (Option-cases (find id w)) [
    | inl e ↦ (w, ap (ref_found w id) e, v)
    | inr (td, e) ↦
        let reffed : TimerData T = record td { unrefd = false } in
        (
          record w {
            data_map = insert ℕ_discrete id reffed w.data_map;
            unrefd_count = w.unrefd_count - bit td.unrefd;
          },
          ap (ref_found w id) e
              ∙ forget_lem (record w { data_map = insert ℕ_discrete id reffed w.data_map })
                  td.unrefd (omega (arith, v.unrefd, unrefd_sum w id td v e)),
          put-Inv w id w.next_id (w.unrefd_count - bit td.unrefd) w.lock_count w.timers w.sleep
              reffed v (omega arith) (v.below id td e)
              (omega (
                arith,
                ap (tally_of ℕ_discrete (λ td. td.unrefd)) e,
                v.unrefd,
                unrefd_sum w id td v e,
              ))
              (omega (arith, ap (tally_of ℕ_discrete (λ td. td.high_res)) e)),
        )
  ]

  pub unref_timer-Inv : (w : WebTimers T) (id : ℕ) → Inv w → Inv (unref_timer w id)
  unfolding unref_timer unref_found
  unref_timer-Inv w id v = elim (Option-cases (find id w)) [
    | inl e ↦ subst Inv (sym (ap (unref_found w id) e)) v
    | inr (td, e) ↦
        let unreffed : TimerData T = record td { unrefd = true } in
        let count : ℕ = if td.unrefd then w.unrefd_count else w.unrefd_count + 1 in
        subst Inv (sym (ap (unref_found w id) e)) (
          put-Inv w id w.next_id count w.lock_count w.timers w.sleep unreffed v (omega arith)
            (v.below id td e)
            (counted w.unrefd_count td.unrefd _ (ap (tally_of ℕ_discrete (λ td. td.unrefd)) e))
            (omega (arith, ap (tally_of ℕ_discrete (λ td. td.high_res)) e)))
  ]
    where
      counted : (n : ℕ) (b : Bool) (k : ℕ) → k ≡ bit b → (if b then n else n + 1) + k ≡ n + 1
      counted n true k e = omega (arith, e)
      counted n false k e = omega (arith, e)

  fresh : (w : WebTimers T) → Inv w → find (w.next_id + 1) w ≡ none
  fresh w v = elim (Option-cases (find (w.next_id + 1) w)) [
    | inl e ↦ e
    | inr (td, e) ↦ absurd (omega (arith, v.below (w.next_id + 1) td e))
  ]

  maybe_lock_lem :
      (w : WebTimers T) (timeout_ms : ℕ)
      → ((maybe_lock w timeout_ms).1 ≡ leb timeout_ms low_res_timer_resolution)
        × ((maybe_lock w timeout_ms).0.unrefd_count ≡ w.unrefd_count)
        × ((maybe_lock w timeout_ms).0.lock_count ≡ w.lock_count + bit (maybe_lock w timeout_ms).1)
  unfolding maybe_lock
  maybe_lock_lem w timeout_ms = go (leb timeout_ms low_res_timer_resolution)
    where
      go :
          (b : Bool)
          → let locked : WebTimers T × Bool =
              if b then (record w { lock_count = w.lock_count + 1 }, true) else (w, false) in
            (locked.1 ≡ b)
            × (locked.0.unrefd_count ≡ w.unrefd_count)
            × (locked.0.lock_count ≡ w.lock_count + bit locked.1)
      go true = (refl, refl, refl)
      go false = (refl, refl, omega arith)

  -- In a consistent state, a new timer gets the id after the last, which no timer has, and its
  -- data is found under it; every other timer keeps its data, and the state stays consistent.
  pub queue_timer_lem :
      (w : WebTimers T) (now : ℕ) (repeats : Bool) (timeout_ms : ℕ) (value : T) (system : Bool)
      → Inv w
      → let (w', id) = queue_timer_internal w now repeats timeout_ms value system in
        Inv w'
        × (id ≡ w.next_id + 1)
        × (find id w ≡ none)
        × ((j : ℕ)
            → find j w' ≡ (
                if j == id
                then some (record {
                  value = value;
                  unrefd = false;
                  high_res = leb timeout_ms low_res_timer_resolution;
                })
                else find j w))
  unfolding queue_timer_internal maybe_lock
  queue_timer_lem w now repeats timeout_ms value system v =
      let id = w.next_id + 1 in
      let e : find id w ≡ none = fresh w v in
      let (locked, unrefd, count) = maybe_lock_lem w timeout_ms in
      let td : TimerData T = record {
        value = value;
        unrefd = false;
        high_res = (maybe_lock w timeout_ms).1;
      } in
      (
        put-Inv w id id (maybe_lock w timeout_ms).0.unrefd_count
            (maybe_lock w timeout_ms).0.lock_count _ _ td v (omega arith) (omega arith)
            (omega (arith, unrefd, ap (tally_of ℕ_discrete (λ td. td.unrefd)) e))
            (omega (arith, count, ap (tally_of ℕ_discrete (λ td. td.high_res)) e)),
        refl,
        e,
        λ j. lookup-insert ℕ_discrete id j td w.data_map ∙ found_at id j td locked,
      )
    where
      found_at :
          (id j : ℕ) (td : TimerData T)
          → td.high_res ≡ leb timeout_ms low_res_timer_resolution
          → ite (ℕ_discrete id j) (some td) (find j w) ≡ (
              if j == id
              then some (record td { high_res = leb timeout_ms low_res_timer_resolution })
              else find j w)
      found_at id j td locked = elim (Bool-cases (j == id)) [
        | inl eq ↦ ground (arith, eq, ap (λ b. some (record td { high_res = b })) locked)
        | inr ne ↦ ground (arith, ne)
      ]
