-- ===== src/Timers/Tests.antt =====
-- Two timers, of 50 and of 500 milliseconds, the second one unreferenced.
use deno_core.Common.{
  ℕ, ◌+◌, ◌≡◌, ◌≤◌, true, false, List, [], ◌∷◌, none, some, leb, ◌==◌, if◌then◌else◌,
}
use deno_core.Timers.{
  WebTimers, find, timers_len, unref_len, new_timers, queue_timer_internal,
  low_res_timer_resolution,
}
use deno_core.Timers.Counts.{Inv, Idle, unrefd_in, high_res_in, new_timers-Inv}
use deno_core.Timers.Queueing.{queue_timer_lem}
use deno_core.Timers.Runs.{Action, queue, cancel, ref, unref, run, timers_never_panic}

abbrev session : List (Action ℕ)
session =
    queue 0 false 50 7 false
    ∷ queue 10 true 500 8 false
    ∷ unref 2
    ∷ cancel 1
    ∷ ref 2
    ∷ cancel 2
    ∷ []

timers_never_panic_example :
    (w : WebTimers ℕ) × (run session new_timers ≡ some w)
    × (unref_len w ≡ unrefd_in w.data_map)
    × (unref_len w ≤ timers_len w)
    × (w.lock_count ≡ high_res_in w.data_map)
    × Idle w
timers_never_panic_example = timers_never_panic session

abbrev one_timer : WebTimers ℕ
unfolding queue_timer_internal new_timers
one_timer = (queue_timer_internal new_timers 0 false 50 7 false).0

one_timer-Inv : Inv one_timer
unfolding one_timer
one_timer-Inv = (queue_timer_lem new_timers 0 false 50 7 false new_timers-Inv).0

queue_timer_example :
    let (w', id) = queue_timer_internal one_timer 10 true 500 8 false in
    Inv w'
    × (id ≡ one_timer.next_id + 1)
    × (find id one_timer ≡ none)
    × ((j : ℕ)
        → find j w' ≡ (
            if j == id
            then some
                (record { value = 8; unrefd = false; high_res = leb 500 low_res_timer_resolution })
            else find j one_timer))
queue_timer_example = queue_timer_lem one_timer 10 true 500 8 false one_timer-Inv
