-- ===== src/EventLoop.antt =====
-- core/runtime/jsruntime.rs: what keeps the event loop pending, and how a poll of it ends. The parts
-- of V8 and of the realm that it reads are given by what they answer.
pub mod Progress
pub mod Ops
mod Tests
use deno_core.Common.{
  ℕ, zero, suc, ◌+◌, ◌<◌, ◌≡◌, Bool, true, false, not, ◌&&◌, ◌||◌, List, [], ◌∷◌, Option, none,
  some, ltb, if◌then◌else◌,
}
use deno_core.UvCompat.{Handle, Loop}
use deno_core.UvCompat.Handles.{has_alive_handles}

-- What EventLoopPendingState::new reads: ContextState, the module map and V8. The lists of promise
-- rejections are given by their lengths.
pub record Sources : Type 0 where
  pub num_unrefed_ops : ℕ
  pub num_pending_ops : ℕ
  pub pending_tasks : Bool
  pub pending_timers : Bool
  pub pending_refed_timers : Bool
  pub has_pending_dyn_imports : Bool
  pub has_pending_dyn_module_evaluation : Bool
  pub has_pending_module_evaluation : Bool
  pub num_promise_rejections : ℕ
  pub num_handled_promise_rejections : ℕ
  pub has_pending_background_tasks : Bool
  pub has_tick_scheduled : Bool
  pub has_pending_external_ops : Bool
  pub has_outstanding_immediates : Bool
  pub immediate_ref_count : ℕ
  pub uv_loop : Option Loop
  pub tcp_handles : List Handle

pub record EventLoopPendingState : Type 0 where
  pub has_pending_ops : Bool
  pub has_pending_refed_ops : Bool
  pub has_pending_dyn_imports : Bool
  pub has_pending_dyn_module_evaluation : Bool
  pub has_pending_module_evaluation : Bool
  pub has_pending_background_tasks : Bool
  pub has_tick_scheduled : Bool
  pub has_pending_promise_events : Bool
  pub has_pending_external_ops : Bool
  pub has_outstanding_immediates : Bool
  pub has_refed_immediates : ℕ
  pub has_uv_alive_handles : Bool

abbrev pub uv_alive : List Handle → Option Loop → Bool
uv_alive tcp_handles none = false
uv_alive tcp_handles (some l) = has_alive_handles tcp_handles l

abbrev pub refed_ops : Sources → Bool
refed_ops s = s.pending_tasks || (s.pending_refed_timers || ltb s.num_unrefed_ops s.num_pending_ops)

unfoldable pub new : Sources → EventLoopPendingState
new s = record {
  has_pending_ops = refed_ops s || (s.pending_timers || ltb 0 s.num_pending_ops);
  has_pending_refed_ops = refed_ops s;
  has_pending_dyn_imports = s.has_pending_dyn_imports;
  has_pending_dyn_module_evaluation = s.has_pending_dyn_module_evaluation;
  has_pending_module_evaluation = s.has_pending_module_evaluation;
  has_pending_background_tasks = s.has_pending_background_tasks;
  has_tick_scheduled = s.has_tick_scheduled;
  has_pending_promise_events =
      ltb 0 s.num_promise_rejections || ltb 0 s.num_handled_promise_rejections;
  has_pending_external_ops = s.has_pending_external_ops;
  has_outstanding_immediates = s.has_outstanding_immediates;
  has_refed_immediates = s.immediate_ref_count;
  has_uv_alive_handles = uv_alive s.tcp_handles s.uv_loop;
}

unfoldable pub is_pending : EventLoopPendingState → Bool
is_pending p =
    p.has_pending_refed_ops
    || (p.has_pending_dyn_imports
        || (p.has_pending_dyn_module_evaluation
            || (p.has_pending_module_evaluation
                || (p.has_pending_background_tasks
                    || (p.has_tick_scheduled
                        || (ltb 0 p.has_refed_immediates
                            || (p.has_pending_promise_events
                                || (p.has_pending_external_ops || p.has_uv_alive_handles))))))))

-- What the inspector and the options say where nothing is pending.
pub record Inspection : Type 0 where
  pub has_inspector : Bool
  pub wait_for_inspector : Bool
  pub has_active : Bool
  pub has_blocking : Bool
  pub has_nonblocking_wait_for_disconnect : Bool

-- What the phases of this poll did.
pub record Work : Type 0 where
  pub did_work : Bool
  pub dispatched_ops : Bool
  pub uv_did_io : Bool

-- `stalled` is the error of a top-level await that nothing can resolve; `failed` that of the
-- immediate callbacks.
pub data PollResult : Type 0 where
  ready pending stalled failed : PollResult

-- How the poll ends, and what it does on the way.
pub record Verdict : Type 0 where
  pub result : PollResult
  pub woken : Bool
  pub ran_immediates : Bool
  pub disconnected : Bool
  pub idle_counter : ℕ

-- The branch where nothing is pending.
unfoldable pub finish : Inspection → ℕ → Verdict
finish i counter =
    let v : Verdict = record {
      result = ready;
      woken = false;
      ran_immediates = false;
      disconnected = false;
      idle_counter = counter;
    } in
    if i.has_inspector && (i.wait_for_inspector && i.has_active)
    then (if i.has_blocking
        then record v { result = pending }
        else if i.has_nonblocking_wait_for_disconnect
        then record v { result = pending; disconnected = true }
        else v)
    else v

-- The re-wake logic.
unfoldable pub wakes : Work → EventLoopPendingState → Bool
wakes w p =
    (p.has_pending_background_tasks
      || (p.has_tick_scheduled
          || (p.has_outstanding_immediates
              || (ltb 0 p.has_refed_immediates || (p.has_pending_promise_events || w.uv_did_io)))))
    || ((p.has_pending_module_evaluation || p.has_pending_dyn_module_evaluation)
        && w.dispatched_ops)

-- What can still make progress while a module is evaluated.
unfoldable pub may_progress : EventLoopPendingState → Bool
may_progress p =
    p.has_pending_ops
    || (p.has_pending_dyn_imports
        || (p.has_pending_background_tasks
            || (p.has_pending_external_ops
                || (p.has_tick_scheduled || ltb 0 p.has_refed_immediates))))

-- The check of dynamic imports: `modules_idle` is a counter above 1.
unfoldable pub check_dyn_modules : EventLoopPendingState → Verdict → Verdict
check_dyn_modules p v =
    if p.has_pending_dyn_module_evaluation && not (may_progress p)
    then (if ltb 1 v.idle_counter
        then record v { result = stalled }
        else record v { idle_counter = v.idle_counter + 1; woken = true })
    else v

-- The check of modules. There a dynamic module that is evaluated counts as progress.
unfoldable pub check_modules : EventLoopPendingState → Verdict → Verdict
check_modules p v =
    if p.has_pending_module_evaluation
      && not (may_progress p || p.has_pending_dyn_module_evaluation)
    then record v { result = stalled }
    else check_dyn_modules p v

abbrev pub needs_immediates : Work → EventLoopPendingState → Bool
needs_immediates w p = not w.did_work && (not w.dispatched_ops && ltb 0 p.has_refed_immediates)

unfoldable pub keep_going : Work → EventLoopPendingState → ℕ → Bool → Verdict
keep_going w p counter immediates_fail =
    let v : Verdict = record {
      result = pending;
      woken = wakes w p;
      ran_immediates = needs_immediates w p;
      disconnected = false;
      idle_counter = counter;
    } in
    if needs_immediates w p && immediates_fail
    then record v { result = failed; woken = false }
    else check_modules p v

-- The end of poll_event_loop_inner, from the evaluation of the pending state on. The callbacks of
-- immediates may fail.
unfoldable pub conclude : Inspection → Work → EventLoopPendingState → ℕ → Bool → Verdict
conclude i w p counter immediates_fail =
    if is_pending p then keep_going w p counter immediates_fail else finish i counter
