-- ===== src/EventLoop/Tests.antt =====
-- Ends of polls, and the theorems at concrete states.
use deno_core.Common.{
  ℕ, ◌≤◌, ◌≡◌, ◌↔◌, ◌⊎◌, refl, Bool, true, false, List, [], ◌∷◌, ◌++◌, none, some, ◌==◌,
  if◌then◌else◌, length,
}
use deno_core.UvCompat.{new_loop, unknown}
use deno_core.UvCompat.Phases.{perform_all, perform, timer_init, timer_start}
use deno_core.UvCompat.Handles.{uv_timer_init, uv_timer_start, stop_timer, has_alive_handles}
use deno_core.EventLoop.{
  Sources, new, Inspection, Work, pending, stalled, is_pending, wakes, may_progress,
  check_dyn_modules, check_modules, keep_going, conclude,
}
use deno_core.EventLoop.Progress.{Awaits, Stalls, pending_makes_progress, stalled_iff}
use deno_core.EventLoop.Ops.{
  Completed, Arg, Outcome, returned, dispatched, after_call, drain, dispatch_pending_ops,
  dispatch_pending_ops_lem, remove_ids, all_args, all_events,
}

-- Nothing is pending but a module that is being evaluated and a timer of the uv loop.
abbrev uv_timer_only : Bool → Sources
uv_timer_only evaluating = record {
  num_unrefed_ops = 0;
  num_pending_ops = 0;
  pending_tasks = false;
  pending_timers = false;
  pending_refed_timers = false;
  has_pending_dyn_imports = false;
  has_pending_dyn_module_evaluation = false;
  has_pending_module_evaluation = evaluating;
  num_promise_rejections = 0;
  num_handled_promise_rejections = 0;
  has_pending_background_tasks = false;
  has_tick_scheduled = false;
  has_pending_external_ops = false;
  has_outstanding_immediates = false;
  immediate_ref_count = 0;
  uv_loop = some (
      perform_all (timer_init 1 ∷ timer_start 1 7 1000 0 ∷ []) (
        new_loop (λ h. record {
          type = unknown;
          active = false;
          referenced = false;
          closing = false;
          cb = none;
          internal_id = 0;
          internal_deadline = 0;
          timeout = 0;
          repeat = 0;
        })));
  tcp_handles = [];
}

abbrev no_inspector : Inspection
no_inspector = record {
  has_inspector = false;
  wait_for_inspector = false;
  has_active = false;
  has_blocking = false;
  has_nonblocking_wait_for_disconnect = false;
}

abbrev no_work : Work
no_work = record { did_work = false; dispatched_ops = false; uv_did_io = false }

-- The timer keeps the loop pending, but the poll does not wake it.
unwoken : conclude no_inspector no_work (new (uv_timer_only false)) 0 false ≡ record {
  result = pending;
  woken = false;
  ran_immediates = false;
  disconnected = false;
  idle_counter = 0;
}
unfolding conclude keep_going check_modules check_dyn_modules may_progress wakes is_pending new
    has_alive_handles perform_all perform uv_timer_init uv_timer_start stop_timer
unwoken = refl

-- A module that waits for the timer is reported as stalled.
stalled_with_timer :
    (conclude no_inspector no_work (new (uv_timer_only true)) 0 false).result ≡ stalled
unfolding conclude keep_going check_modules check_dyn_modules may_progress wakes is_pending new
    has_alive_handles perform_all perform uv_timer_init uv_timer_start stop_timer
stalled_with_timer = refl

uv_is_pending : is_pending (new (uv_timer_only false)) ≡ true
unfolding is_pending new has_alive_handles perform_all perform uv_timer_init uv_timer_start
    stop_timer
uv_is_pending = refl

uv_waits : (conclude no_inspector no_work (new (uv_timer_only false)) 0 false).result ≡ pending
unfolding conclude keep_going check_modules check_dyn_modules may_progress wakes is_pending new
    has_alive_handles perform_all perform uv_timer_init uv_timer_start stop_timer
uv_waits = refl

pending_makes_progress_example :
    ((conclude no_inspector no_work (new (uv_timer_only false)) 0 false).woken ≡ true)
    ⊎ Awaits (new (uv_timer_only false))
pending_makes_progress_example =
    pending_makes_progress (uv_timer_only false) no_inspector no_work 0 false uv_is_pending uv_waits

stalled_iff_example :
    ((conclude no_inspector no_work (new (uv_timer_only true)) 0 false).result ≡ stalled)
    ↔ Stalls (new (uv_timer_only true)) 0
unfolding new
stalled_iff_example = stalled_iff no_inspector no_work (new (uv_timer_only true)) 0 false refl

abbrev two_ops : List (Completed ℕ)
two_ops =
    record { promise_id = 4; op = 0; is_ok = true; value = 40 }
    ∷ record { promise_id = 5; op = 1; is_ok = false; value = 50 }
    ∷ []

abbrev all_metrics : ℕ → Bool
all_metrics op = true

abbrev resolves : List (Arg ℕ) → Outcome
resolves args = returned

two_ops_dispatched :
    (dispatch_pending_ops all_metrics (5 ∷ 6 ∷ []) two_ops resolves).0.unrefed_ops ≡ 6 ∷ []
unfolding dispatch_pending_ops drain
two_ops_dispatched = refl

dispatch_pending_ops_lem_example :
    (done rest : List (Completed ℕ)) × (two_ops ≡ done ++ rest)
    × ((rest ≡ []) ⊎ (length done ≡ 342))
    × (length done ≤ 342)
    × ((dispatch_pending_ops all_metrics (5 ∷ 6 ∷ []) two_ops resolves).0 ≡ record {
      queue = rest;
      unrefed_ops = remove_ids all_metrics done (5 ∷ 6 ∷ []);
      args = all_args all_metrics done;
      events = all_events all_metrics done;
      woken = length done == 342;
    })
    × ((dispatch_pending_ops all_metrics (5 ∷ 6 ∷ []) two_ops resolves).1 ≡ (
        if length done == 0
        then dispatched false
        else after_call (resolves (all_args all_metrics done))))
dispatch_pending_ops_lem_example =
    dispatch_pending_ops_lem all_metrics (5 ∷ 6 ∷ []) two_ops resolves
