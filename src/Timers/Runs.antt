-- ===== src/Timers/Runs.antt =====
-- core/web_timeout.rs: runs of queueing, cancelling, referencing and taking timers.
use native.Mathlib.Decide.{ℕ_discrete}
use deno_core.Common.{
  ℕ, ◌≤◌, ◌≡◌, refl, ◌∙◌, Bool, List, [], ◌∷◌, Option, some, ◌>>=◌, arith, bind-some, tally_le,
}
use deno_core.Timers.{
  timers_len, unref_len, TimerType, repeat, once, WebTimers, new_timers, ref_timer, unref_timer,
  queue_timer_internal, cancel_timer, take_fired_timer,
}
use deno_core.Timers.Counts.{Idle, Inv, unrefd_in, high_res_in, new_timers-Inv}
use deno_core.Timers.Removal.{cancel_timer_lem, take_fired_timer_lem}
use deno_core.Timers.Queueing.{ref_timer-Inv, unref_timer-Inv, queue_timer_lem}

-- What scripts and the event loop do with the timers between two polls.
pub data Action (T : Type 0) : Type 0 where
  queue : ℕ → Bool → ℕ → T → Bool → Action T
  cancel ref unref : ℕ → Action T
  take_fired : ℕ → TimerType → Action T

module _ {T : Type 0} where
  unfoldable pub step : Action T → WebTimers T → Option (WebTimers T)
  step (queue now repeats timeout_ms value system) w =
      some (queue_timer_internal w now repeats timeout_ms value system).0
  step (cancel id) w = cancel_timer w id >>= λ r. some r.0
  step (ref id) w = ref_timer w id
  step (unref id) w = some (unref_timer w id)
  step (take_fired id ty) w = take_fired_timer w id ty >>= λ r. some r.0

  unfoldable pub run : List (Action T) → WebTimers T → Option (WebTimers T)
  unfolding step
  run [] w = some w
  run (a ∷ actions) w = step a w >>= λ w'. run actions w'

  abbrev drop_value : WebTimers T × Option T → Option (WebTimers T)
  drop_value r = some r.0

  step-Inv :
      (a : Action T) (w : WebTimers T) → Inv w → (w' : WebTimers T) × (step a w ≡ some w') × Inv w'
  unfolding step
  step-Inv (queue now repeats timeout_ms value system) w v = (
    (queue_timer_internal w now repeats timeout_ms value system).0,
    refl,
    (queue_timer_lem w now repeats timeout_ms value system v).0,
  )
  step-Inv (cancel id) w v =
      let (w', e, inv) = cancel_timer_lem w id v in (w', bind-some drop_value e, inv.0)
  step-Inv (ref id) w v = ref_timer-Inv w id v
  step-Inv (unref id) w v = (unref_timer w id, refl, unref_timer-Inv w id v)
  step-Inv (take_fired id (repeat n)) w v =
      (w, bind-some drop_value ((take_fired_timer_lem w id v).0 n), v)
  step-Inv (take_fired id once) w v =
      let (w', e, inv) = (take_fired_timer_lem w id v).1 in (w', bind-some drop_value e, inv.0)

  run-Inv :
      (actions : List (Action T)) (w : WebTimers T)
      → Inv w
      → (w' : WebTimers T) × (run actions w ≡ some w') × Inv w'
  unfolding run
  run-Inv [] w v = (w, refl, v)
  run-Inv (a ∷ actions) w v =
      let (w₁, e, v₁) = step-Inv a w v in
      let (w₂, f, v₂) = run-Inv actions w₁ v₁ in (w₂, bind-some (λ w. run actions w) e ∙ f, v₂)

  -- No sequence of queueing, cancelling, referencing, unreferencing and taking timers, from new
  -- timers on, panics: no count falls below zero and no debug assertion fails. In the end
  -- unref_len counts the unreferenced timers and is at most len, the lock counts those of high
  -- resolution, and where no timer is left nothing is queued and the sleep is off.
  pub timers_never_panic :
      (actions : List (Action T))
      → (w : WebTimers T) × (run actions new_timers ≡ some w)
        × (unref_len w ≡ unrefd_in w.data_map)
        × (unref_len w ≤ timers_len w)
        × (w.lock_count ≡ high_res_in w.data_map)
        × Idle w
  unfolding timers_len unref_len
  timers_never_panic actions =
      let (w, e, v) = run-Inv actions new_timers new_timers-Inv in
      (
        w,
        e,
        v.unrefd,
        omega (arith, v.unrefd, tally_le ℕ_discrete (λ td. td.unrefd) w.data_map),
        v.locks,
        v.idle,
      )
