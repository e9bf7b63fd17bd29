-- ===== src/UvCompat/Phases.antt =====
-- core/uv_compat.rs: run_timers, run_idle, run_prepare, run_check and run_close. What a callback does
-- is a list of calls of the functions of the loop, which may depend on all that it sees; a call of
-- `advance` in it stands for time that passes.
use native.Mathlib.Decide.{ℕ_discrete}
use deno_core.Common.{
  ℕ, zero, suc, ◌+◌, List, [], ◌∷◌, ◌++◌, Option, none, some, leb, ltb, if◌then◌else◌, get_elem?,
  lookup, remove,
}
use deno_core.UvCompat.{Phase, Loop, TimerKey, insert_key, remove_key, write}
use deno_core.UvCompat.Handles.{
  u64_add, deactivate, uv_timer_init, uv_timer_start, uv_timer_stop, uv_timer_again,
  uv_timer_set_repeat, uv_watcher_init, uv_watcher_start, uv_watcher_stop, uv_close, uv_ref,
  uv_unref,
}

-- A call of C code, with its arguments.
pub data Action : Type 0 where
  timer_init : ℕ → Action
  timer_start : ℕ → ℕ → ℕ → ℕ → Action
  timer_stop : ℕ → Action
  timer_again : ℕ → Action
  timer_set_repeat : ℕ → ℕ → Action
  watcher_init : Phase → ℕ → Action
  watcher_start : Phase → ℕ → ℕ → Action
  watcher_stop : Phase → ℕ → Action
  close_handle : ℕ → Option ℕ → Action
  ref_handle unref_handle : ℕ → Action
  advance : ℕ → Action

unfoldable pub perform : Action → Loop → Loop
perform (timer_init h) s = uv_timer_init h s
perform (timer_start h cb timeout repeat) s = uv_timer_start h cb timeout repeat s
perform (timer_stop h) s = uv_timer_stop h s
perform (timer_again h) s = (uv_timer_again h s).0
perform (timer_set_repeat h repeat) s = uv_timer_set_repeat h repeat s
perform (watcher_init p h) s = uv_watcher_init p h s
perform (watcher_start p h cb) s = uv_watcher_start p h cb s
perform (watcher_stop p h) s = uv_watcher_stop p h s
perform (close_handle h cb) s = uv_close h cb s
perform (ref_handle h) s = uv_ref h s
perform (unref_handle h) s = uv_unref h s
perform (advance n) s = record s { now_ms = s.now_ms + n }

unfoldable pub perform_all : List Action → Loop → Loop
perform_all [] s = s
perform_all (a ∷ as') s = perform_all as' (perform a s)

-- What the callback of a number does, given the handle and the loop.
abbrev pub Program : Type 0
Program = ℕ → ℕ → Loop → List Action

abbrev pub log : ℕ → ℕ → Loop → Loop
log cb h s = record s { calls = s.calls ++ (cb, h) ∷ [] }

unfoldable pub call : Program → ℕ → ℕ → Loop → Loop
call p cb h s = perform_all (p cb h s) (log cb h s)

unfoldable pub call_some : Program → Option ℕ → ℕ → Loop → Loop
call_some p none h s = s
call_some p (some cb) h s = call p cb h s

-- The keys up to the first that is not due.
abbrev pub expired : ℕ → List TimerKey → List TimerKey
expired now [] = []
expired now (k ∷ ks) = let rest = expired now ks in if leb k.0 now then k ∷ rest else []

-- What run_timers does with an active handle before it calls it.
abbrev pub reschedule : ℕ → ℕ → ℕ → Loop → Loop
reschedule deadline id h s =
    write h (record (s.memory h) { internal_deadline = deadline })
      (record s { timers = insert_key (deadline, id) s.timers })

unfoldable pub rearm : ℕ → ℕ → ℕ → Loop → Loop
rearm now id h s =
    if ltb 0 (s.memory h).repeat
    then reschedule (u64_add now (s.memory h).repeat) id h s
    else deactivate h (record s { timer_handles = remove ℕ_discrete id s.timer_handles })

unfoldable pub fire_handle : Program → ℕ → ℕ → ℕ → Loop → Loop
fire_handle p now id h s =
    if (s.memory h).active
    then call_some p (s.memory h).cb h (rearm now id h s)
    else record s { timer_handles = remove ℕ_discrete id s.timer_handles }

abbrev pub take_key : TimerKey → Loop → Loop
take_key k s = record s { timers = remove_key k s.timers }

unfoldable pub fire_found : Program → ℕ → ℕ → Option ℕ → Loop → Loop
fire_found p now id none s = s
fire_found p now id (some h) s = fire_handle p now id h s

unfoldable pub fire : Program → ℕ → TimerKey → Loop → Loop
fire p now k s = fire_found p now k.1 (lookup ℕ_discrete k.1 s.timer_handles) (take_key k s)

unfoldable pub fire_all : Program → ℕ → List TimerKey → Loop → Loop
fire_all p now [] s = s
fire_all p now (k ∷ ks) s = fire_all p now ks (fire p now k s)

unfoldable pub run_timers : Program → Loop → Loop
run_timers p s = fire_all p s.now_ms (expired s.now_ms s.timers) s

-- One round of the loop of run_idle.
unfoldable pub visit : Program → ℕ → Loop → Loop
visit p h s = if (s.memory h).active then call_some p (s.memory h).cb h s else s

-- run_idle, run_prepare and run_check: the index runs over a vector that callbacks change. `none` is
-- a run that needs more rounds.
unfoldable pub run_watchers : Program → Phase → ℕ → ℕ → Loop → Option Loop
run_watchers p phase zero i s = none
run_watchers p phase (suc fuel) i s = elim (get_elem? (s.handles phase) i) [
  | none ↦ some s
  | some h ↦ run_watchers p phase fuel (i + 1) (visit p h s)
]

unfoldable pub close_all : Program → List (ℕ × Option ℕ) → Loop → Loop
close_all p [] s = s
close_all p ((h, cb) ∷ hs) s = close_all p hs (call_some p cb h s)

unfoldable pub run_close : Program → Loop → Loop
run_close p s = close_all p s.closing_handles (record s { closing_handles = [] })

abbrev pub run_idle : Program → ℕ → Loop → Option Loop
run_idle p fuel s = run_watchers p Phase.idle fuel 0 s

abbrev pub run_prepare : Program → ℕ → Loop → Option Loop
run_prepare p fuel s = run_watchers p Phase.prepare fuel 0 s

abbrev pub run_check : Program → ℕ → Loop → Option Loop
run_check p fuel s = run_watchers p Phase.check fuel 0 s
