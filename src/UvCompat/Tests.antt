-- ===== src/UvCompat/Tests.antt =====
-- Runs of the loop, and the theorems at concrete loops.
use native.Mathlib.Decide.{ℕ_discrete}
use deno_core.Common.{
  if-elim, ℕ, suc, length, ◌-◌, ◌^◌, ◌≤◌, ◌≡◌, refl, Bool, true, false, List, [], ◌∷◌, ◌++◌, ◌↔◌,
  Option, none, some, ◌==◌, if◌then◌else◌, arith, In, lookup,
}
use deno_core.UvCompat.{Phase, idle, HandleType, unknown, timer, watcher, Handle, Loop, new_loop}
use deno_core.UvCompat.Handles.{
  stop_timer, stop_watcher, uv_timer_init, uv_timer_start, uv_timer_stop, uv_watcher_init,
  uv_watcher_start, uv_watcher_stop, uv_close, stop_handle, has_alive_handles,
}
use deno_core.UvCompat.Phases.{
  Action, timer_init, timer_start, timer_stop, watcher_init, watcher_start, watcher_stop,
  close_handle, ref_handle, advance, perform, perform_all, Program, log, call, call_some, rearm,
  fire_handle, fire_found, fire, fire_all, run_timers, visit, run_watchers, run_close,
}
use deno_core.UvCompat.Keys.{due_keys}
use deno_core.UvCompat.WellFormed.{WellFormed}
use deno_core.UvCompat.Calls.{AllSafe, Obeys, perform_all-WellFormed}
use deno_core.UvCompat.Due.{Sub, due_calls}
use deno_core.UvCompat.Expiry.{run_timers-calls}
use deno_core.UvCompat.Untouched.{Untouched, spared_timer_called}
use deno_core.UvCompat.Closing.{closed_by}
use deno_core.UvCompat.Alive.{KeepsAlive, has_alive_handles_lem, run_close-calls, close_calls}
use deno_core.UvCompat.Ends.{InRange, run_watchers_ends}
use deno_core.UvCompat.Passes.{AllLeave, watcher_calls, watchers_called}
use deno_core.UvCompat.Skips.{self_stop_skips_next}

abbrev blank : Handle
blank = record {
  type = unknown;
  active = false;
  referenced = false;
  closing = false;
  cb = none;
  internal_id = 0;
  internal_deadline = 0;
  timeout = 0;
  repeat = 0;
}

abbrev empty : Loop
empty = new_loop (λ h. blank)

empty-WellFormed : WellFormed empty
empty-WellFormed = record {
  entry = λ i h e. absurd (ground (arith, e));
  keyed = λ d i e. absurd (ground (arith, e));
  own = λ h j e. absurd (ground (arith, e));
  fresh = λ h. omega arith;
  listed = λ p h e. absurd (ground (arith, e));
  once = λ p. tt;
  registered = λ h e. absurd (ground (arith, e));
  sorted = tt;
}

-- Two timers, of which the first is due after 20 ms and the second, which repeats, after 10.
abbrev two_timers : List Action
two_timers =
    timer_init 1 ∷ timer_start 1 7 20 0 ∷ timer_init 2 ∷ timer_start 2 8 10 50 ∷ advance 30 ∷ []

abbrev quiet : Program
quiet cb h s = []

run_two_timers : (run_timers quiet (perform_all two_timers empty)).calls ≡ (8, 2) ∷ (7, 1) ∷ []
unfolding run_timers fire_all fire fire_found fire_handle rearm call_some call perform_all perform
    uv_timer_init uv_timer_start stop_timer ℕ_discrete
run_two_timers = refl

-- Three idle watchers, of which the first stops itself when it is called.
abbrev three_idle : List Action
three_idle =
    watcher_init idle 1
    ∷ watcher_init idle 2
    ∷ watcher_init idle 3
    ∷ watcher_start idle 1 7
    ∷ watcher_start idle 2 8
    ∷ watcher_start idle 3 9
    ∷ []

abbrev stops_itself : Program
stops_itself cb h s = if cb == 7 then watcher_stop idle 1 ∷ [] else []

abbrev calls_of : Option Loop → List (ℕ × ℕ)
calls_of none = []
calls_of (some s) = s.calls

-- The second one is not called.
self_stop_skips :
    calls_of (run_watchers stops_itself idle 4 0 (perform_all three_idle empty))
    ≡ (7, 1) ∷ (9, 3) ∷ []
unfolding run_watchers visit call_some call perform_all perform uv_watcher_init uv_watcher_start
    uv_watcher_stop stop_watcher
self_stop_skips = refl

-- A deadline past the end of u64 comes round: the timer fires at once.
overflowing :
    (run_timers quiet
      (perform_all (timer_init 1 ∷ advance 5 ∷ timer_start 1 7 (2 ^ 64 - 1) 0 ∷ []) empty)).calls
    ≡ (7, 1) ∷ []
unfolding run_timers fire_all fire fire_found fire_handle rearm call_some call perform_all perform
    uv_timer_init uv_timer_start stop_timer ℕ_discrete
overflowing = refl

abbrev is_timer : HandleType → Bool
is_timer timer = true
is_timer t = false

is_timer_lem : (t : HandleType) → is_timer t ≡ true → t ≡ timer
is_timer_lem timer e = refl
is_timer_lem unknown e = cc
is_timer_lem HandleType.tcp e = cc
is_timer_lem (watcher p) e = cc

-- The callback 8 stops the first timer.
abbrev stops_first : Program
stops_first cb h s =
    if cb == 8 then if is_timer (s.memory 1).type then timer_stop 1 ∷ [] else [] else []

stops_first-Obeys : Obeys stops_first
stops_first-Obeys cb h s w =
    if-elim (λ x. AllSafe x (log cb h s)) (cb == 8)
      (if is_timer (s.memory 1).type then timer_stop 1 ∷ [] else []) []
      (λ q.
        if-elim (λ x. AllSafe x (log cb h s)) (is_timer (s.memory 1).type) (timer_stop 1 ∷ []) []
          (λ r. (is_timer_lem (s.memory 1).type r, tt)) (λ r. tt))
      (λ q. tt)

stopped_in_time : (run_timers stops_first (perform_all two_timers empty)).calls ≡ (8, 2) ∷ []
unfolding run_timers fire_all fire fire_found fire_handle rearm call_some call perform_all perform
    uv_timer_init uv_timer_start uv_timer_stop stop_timer ℕ_discrete
stopped_in_time = refl

abbrev started_two : Loop
started_two = perform_all two_timers empty

two_timers-safe : AllSafe two_timers empty
unfolding perform uv_timer_init uv_timer_start stop_timer
two_timers-safe = (refl, (refl, (refl, (refl, (tt, tt)))))

perform_all-WellFormed_example : WellFormed (perform_all two_timers empty)
perform_all-WellFormed_example =
    perform_all-WellFormed two_timers empty empty-WellFormed two_timers-safe

two_timers-WellFormed : WellFormed started_two
two_timers-WellFormed = perform_all-WellFormed two_timers empty empty-WellFormed two_timers-safe

run_timers-calls_example :
    (fired : List (ℕ × ℕ)) × ((run_timers stops_first started_two).calls
      ≡ started_two.calls ++ fired)
    × Sub fired (due_calls started_two (due_keys started_two.now_ms started_two.timers))
    × WellFormed (run_timers stops_first started_two)
run_timers-calls_example =
    run_timers-calls started_two two_timers-WellFormed stops_first stops_first-Obeys

stops_first-Untouched : Untouched stops_first 2
stops_first-Untouched cb g s = ground arith

second_due : (started_two.memory 2).internal_deadline ≤ started_two.now_ms
unfolding perform_all perform uv_timer_init uv_timer_start stop_timer
second_due = omega arith

second_entry : lookup ℕ_discrete 2 started_two.timer_handles ≡ some 2
unfolding perform_all perform uv_timer_init uv_timer_start stop_timer ℕ_discrete
second_entry = refl

second_cb : (started_two.memory 2).cb ≡ some 8
unfolding perform_all perform uv_timer_init uv_timer_start stop_timer
second_cb = refl

spared_timer_called_example :
    (fired : List (ℕ × ℕ)) × ((run_timers stops_first started_two).calls
      ≡ started_two.calls ++ fired)
    × In (8, 2) fired
spared_timer_called_example =
    spared_timer_called started_two stops_first 2 2 8 two_timers-WellFormed stops_first-Obeys
      stops_first-Untouched second_entry second_cb second_due

abbrev idles : Loop
idles = perform_all three_idle empty

idles-safe : AllSafe three_idle empty
unfolding perform uv_watcher_init uv_watcher_start
idles-safe = (refl, (refl, (refl, (refl, (refl, (refl, tt))))))

idles-WellFormed : WellFormed idles
idles-WellFormed = perform_all-WellFormed three_idle empty empty-WellFormed idles-safe

idles-InRange : InRange 4 idles
unfolding perform_all perform uv_watcher_init uv_watcher_start
idles-InRange p h e = ground (arith, e)

abbrev restarts : Program
restarts cb h s = ref_handle h ∷ []

run_watchers_ends_example :
    (t : Loop) × (run_watchers restarts idle 5 0 idles ≡ some t) × WellFormed t
run_watchers_ends_example =
    run_watchers_ends restarts (λ cb h s w. (tt, tt)) 4 (λ cb h s. tt) idle idles idles-WellFormed
      idles-InRange

closing-safe : AllSafe (close_handle 2 (some 9) ∷ close_handle 1 none ∷ []) idles
unfolding perform_all perform uv_watcher_init uv_watcher_start uv_close stop_handle stop_watcher
closing-safe = (λ e. cc e, (λ e. cc e, tt))

abbrev closing : List Action
closing = close_handle 2 (some 9) ∷ close_handle 1 none ∷ []

run_close-calls_example :
    ((run_close restarts (perform_all closing idles)).calls
      ≡ idles.calls ++ close_calls (idles.closing_handles ++ closed_by closing))
    × WellFormed (run_close restarts (perform_all closing idles))
run_close-calls_example =
    run_close-calls restarts (λ cb h s w. (tt, tt)) closing idles idles-WellFormed closing-safe

-- A socket that is active and referenced.
abbrev socket : Handle
socket = record blank { type = HandleType.tcp; active = true; referenced = true }

restarts-leaves : (cb h : ℕ) (s : Loop) → AllLeave (restarts cb h s)
restarts-leaves cb h s = (refl, tt)

watchers_called_example :
    (t : Loop) × (run_watchers restarts idle (suc (length (idles.handles idle))) 0 idles ≡ some t)
    × (t.calls ≡ idles.calls ++ watcher_calls idles.memory (idles.handles idle))
    × (t.handles ≡ idles.handles)
watchers_called_example =
    watchers_called restarts (λ cb h s w. (tt, tt)) restarts-leaves idle idles idles-WellFormed

idles-handles : idles.handles idle ≡ [] ++ 1 ∷ 2 ∷ 3 ∷ []
unfolding perform_all perform uv_watcher_init uv_watcher_start
idles-handles = refl

first_cb : (idles.memory 1).cb ≡ some 7
unfolding perform_all perform uv_watcher_init uv_watcher_start
first_cb = refl

abbrev is_idle : HandleType → Bool
is_idle (watcher idle) = true
is_idle t = false

is_idle_lem : (t : HandleType) → is_idle t ≡ true → t ≡ watcher idle
is_idle_lem timer e = cc
is_idle_lem unknown e = cc
is_idle_lem HandleType.tcp e = cc
is_idle_lem (watcher idle) e = refl
is_idle_lem (watcher Phase.prepare) e = cc
is_idle_lem (watcher Phase.check) e = cc

-- The callbacks of the first handle stop it, where it is an idle watcher.
abbrev stops_own : Program
stops_own cb h s =
    if h == 1 then if is_idle (s.memory h).type then watcher_stop idle h ∷ [] else [] else []

stops_own-Obeys : Obeys stops_own
stops_own-Obeys cb h s w =
    if-elim (λ x. AllSafe x (log cb h s)) (h == 1)
      (if is_idle (s.memory h).type then watcher_stop idle h ∷ [] else []) []
      (λ q.
        if-elim (λ x. AllSafe x (log cb h s)) (is_idle (s.memory h).type) (watcher_stop idle h ∷ [])
          [] (λ r. (is_idle_lem (s.memory h).type r, tt)) (λ r. tt))
      (λ q. tt)

stops_own-idle :
    (u : Loop) → (u.memory 1).type ≡ watcher idle → stops_own 7 1 u ≡ watcher_stop idle 1 ∷ []
stops_own-idle u e = rw e refl

self_stop_skips_next_example :
    (t : Loop) × (run_watchers stops_own idle (suc (length (idles.handles idle))) 0 idles ≡ some t)
    × (t.calls ≡ idles.calls ++ ([] ++ (7, 1) ∷ watcher_calls idles.memory (3 ∷ [])))
    × (t.handles idle ≡ [] ++ 2 ∷ 3 ∷ [])
self_stop_skips_next_example =
    self_stop_skips_next stops_own stops_own-Obeys idle [] (3 ∷ []) 1 2 7 idles idles-WellFormed
      idles-handles first_cb stops_own-idle tt ((λ cb s. tt), tt)

has_alive_handles_lem_example :
    (has_alive_handles (socket ∷ []) idles ≡ true) ↔ KeepsAlive (socket ∷ []) idles
has_alive_handles_lem_example = has_alive_handles_lem (socket ∷ []) idles idles-WellFormed
