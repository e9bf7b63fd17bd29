-- ===== src/UvCompat/Calls.antt =====
-- Every call of C code, every callback and every phase keeps the loop well formed.
use native.Mathlib.Decide.{ℕ_discrete}
use deno_core.Common.{
  if-elim, ℕ, ◌+◌, ◌≡◌, ◌≢◌, refl, sym, ap, inl, inr, true, false, List, [], ◌∷◌, ◌++◌, ◌∙◌, Option,
  none, some, ◌==◌, if◌then◌else◌, remove, arith, subst, Bool-cases,
}
use deno_core.UvCompat.{
  Phase, HandleType, unknown, timer, tcp, watcher, Handle, Loop, write, remove_key, put_handles,
}
use deno_core.UvCompat.Handles.{
  stop_timer, stop_watcher, schedule, uv_timer_init, uv_timer_start, uv_timer_stop, uv_timer_again,
  uv_timer_set_repeat, uv_watcher_init, stop_handle, mark_closing, uv_close, uv_ref, uv_unref,
  deactivate, forget_timer, drop_handle, Status, einval, done,
}
use deno_core.UvCompat.Phases.{
  Action, timer_init, timer_start, timer_stop, timer_again, timer_set_repeat, watcher_init,
  watcher_start, watcher_stop, close_handle, ref_handle, unref_handle, advance, perform,
  perform_all, Program, log, call, call_some,
}
use deno_core.UvCompat.WellFormed.{
  WellFormed, write-WellFormed, write_inactive-WellFormed, Kept, Kept-eq, put_self,
  overwrite-WellFormed,
}
use deno_core.UvCompat.Timers.{
  stop_timer-WellFormed, stop_timer-inactive, stop_timer-type, schedule-WellFormed,
  stopped-WellFormed, unstarted,
}
use deno_core.UvCompat.Watchers
use deno_core.UvCompat.Watchers.{
  stop_watcher-WellFormed, uv_watcher_start-WellFormed, uv_watcher_stop-WellFormed,
}

-- What the C code has to respect: a handle is not initialised again while it is active, and each
-- function is called with a handle that was initialised for it.
abbrev pub IsSafe : Action → Loop → Type 0
IsSafe (timer_init h) s = (s.memory h).active ≡ false
IsSafe (watcher_init p h) s = (s.memory h).active ≡ false
IsSafe (timer_start h cb timeout repeat) s = (s.memory h).type ≡ timer
IsSafe (timer_stop h) s = (s.memory h).type ≡ timer
IsSafe (timer_again h) s = (s.memory h).type ≡ timer
IsSafe (timer_set_repeat h repeat) s = (s.memory h).type ≡ timer
IsSafe (watcher_start p h cb) s = (s.memory h).type ≡ watcher p
IsSafe (watcher_stop p h) s = (s.memory h).type ≡ watcher p
IsSafe (close_handle h cb) s = (s.memory h).type ≢ unknown
IsSafe (ref_handle h) s = Unit
IsSafe (unref_handle h) s = Unit
IsSafe (advance n) s = Unit

abbrev pub AllSafe : List Action → Loop → Type 0
AllSafe [] s = Unit
AllSafe (a ∷ as') s = IsSafe a s × AllSafe as' (perform a s)

-- The fields that hold the clock, the log and the closing handles are free.
pub free-WellFormed :
    (s : Loop) (cl : List (ℕ × Option ℕ)) (n : ℕ) (cs : List (ℕ × ℕ))
    → WellFormed s
    → WellFormed (record s { closing_handles = cl; now_ms = n; calls = cs })
free-WellFormed s cl n cs w = record {
  entry = w.entry;
  keyed = w.keyed;
  own = w.own;
  fresh = w.fresh;
  listed = w.listed;
  once = w.once;
  registered = λ h e.
      Kept-eq h s (record s { closing_handles = cl; now_ms = n; calls = cs }) refl (s.memory h).type
        (λ k. k) (λ p k. k) (w.registered h e);
  sorted = w.sorted;
}

-- A timer that can be scheduled.
abbrev Ready : ℕ → Loop → Type 0
Ready h s = WellFormed s × ((s.memory h).type ≡ timer) × ((s.memory h).active ≡ false)

module _ (h : ℕ) (s : Loop) (w : WellFormed s) where
  stop_timer-Ready : (s.memory h).type ≡ timer → Ready h (stop_timer h s)
  stop_timer-Ready ty =
      (stop_timer-WellFormed h s w ty, stop_timer-type h s w ty, stop_timer-inactive h s w ty)

  start-WellFormed :
      (cb timeout repeat : ℕ)
      → (s.memory h).type ≡ timer
      → WellFormed (uv_timer_start h cb timeout repeat s)
  unfolding uv_timer_start
  start-WellFormed cb timeout repeat ty =
      let s1 = if (s.memory h).active then stop_timer h s else s in
      let v = record (s1.memory h) { cb = some cb; timeout = timeout; repeat = repeat } in
      let r =
        if-elim (Ready h) (s.memory h).active (stop_timer h s) s (λ q. stop_timer-Ready ty)
          (λ q. (w, ty, q)) in
      schedule-WellFormed h timeout (write h v s1)
        (write-WellFormed h v s1 r.0 (refl, refl, refl, refl))
        (ap (λ u. u.type) (put_self h v s1.memory) ∙ r.1)
        (ap (λ u. u.active) (put_self h v s1.memory) ∙ r.2)

  again-WellFormed : (s.memory h).type ≡ timer → WellFormed (uv_timer_again h s).0
  unfolding uv_timer_again
  again-WellFormed ty =
      let repeat = (s.memory h).repeat in
      let r = stop_timer-Ready ty in
      if-elim {A = Loop × Status} (λ x. WellFormed x.0) (repeat == 0) (s, einval)
        (schedule h repeat (stop_timer h s), done) (λ q. w)
        (λ q. schedule-WellFormed h repeat (stop_timer h s) r.0 r.1 r.2)

  abbrev marked : Handle
  marked = record (s.memory h) { closing = true; active = false }

  abbrev off : Handle → Handle
  off u = record u { active = false }

  stop_closing_timer : (s.memory h).type ≡ timer → WellFormed (stop_timer h (mark_closing h s))
  unfolding stop_timer
  stop_closing_timer ty =
      let id = (s.memory h).internal_id in
      let rest = record s {
        timers = remove_key ((s.memory h).internal_deadline, id) s.timers;
        timer_handles = remove ℕ_discrete id s.timer_handles;
      } in
      subst
        (λ u.
          WellFormed
            (deactivate h (forget_timer u.internal_id u.internal_deadline (mark_closing h s))))
        (sym (put_self h marked s.memory))
        (if-elim (λ t. WellFormed (deactivate h t)) (id == 0) (mark_closing h s)
          (write h marked rest)
          (λ q. overwrite-WellFormed h marked s off (
            write_inactive-WellFormed h (off marked) s w (unstarted h s w ty (ground (arith, q)))
              refl (inr refl)))
          (λ q.
            overwrite-WellFormed h marked rest off
              (stopped-WellFormed h s w ty (off marked) refl refl)))

  -- No function activates a handle of another type.
  tcp_inactive : (s.memory h).type ≡ tcp → (s.memory h).active ≡ false
  tcp_inactive ty = elim (Bool-cases (s.memory h).active) [
    | inr q ↦ q
    | inl q ↦ absurd (subst (λ t. Kept t h s) ty (w.registered h q))
  ]

  stop_closing :
      (t : HandleType)
      → (s.memory h).type ≡ t
      → t ≢ unknown
      → WellFormed (stop_handle t h (mark_closing h s))
  unfolding stop_handle stop_watcher
  stop_closing unknown ty known = absurd (known refl)
  stop_closing timer ty known = stop_closing_timer ty
  stop_closing tcp ty known =
      overwrite-WellFormed h marked s off
        (write_inactive-WellFormed h (off marked) s w (tcp_inactive ty) refl (inr refl))
  stop_closing (watcher p) ty known =
      overwrite-WellFormed h marked
        (record s { handles = put_handles p (drop_handle h (s.handles p)) s.handles }) off
        (Watchers.stopped-WellFormed p h s w ty (off marked) refl refl)

  close-WellFormed : (cb : Option ℕ) → (s.memory h).type ≢ unknown → WellFormed (uv_close h cb s)
  unfolding uv_close
  close-WellFormed cb known =
      let t = stop_handle (s.memory h).type h (mark_closing h s) in
      free-WellFormed t (t.closing_handles ++ (h, cb) ∷ []) t.now_ms t.calls
        (stop_closing (s.memory h).type refl known)

  timer_init-WellFormed : (s.memory h).active ≡ false → WellFormed (uv_timer_init h s)
  unfolding uv_timer_init
  timer_init-WellFormed idle = write_inactive-WellFormed h _ s w idle refl (inl refl)

  watcher_init-WellFormed :
      (p : Phase) → (s.memory h).active ≡ false → WellFormed (uv_watcher_init p h s)
  unfolding uv_watcher_init
  watcher_init-WellFormed p idle = write_inactive-WellFormed h _ s w idle refl (inr refl)

  set_repeat-WellFormed : (r : ℕ) → WellFormed (uv_timer_set_repeat h r s)
  unfolding uv_timer_set_repeat
  set_repeat-WellFormed r = write-WellFormed h _ s w (refl, refl, refl, refl)

  ref-WellFormed : WellFormed (uv_ref h s)
  unfolding uv_ref
  ref-WellFormed = write-WellFormed h _ s w (refl, refl, refl, refl)

  unref-WellFormed : WellFormed (uv_unref h s)
  unfolding uv_unref
  unref-WellFormed = write-WellFormed h _ s w (refl, refl, refl, refl)

  timer_stop-WellFormed : (s.memory h).type ≡ timer → WellFormed (uv_timer_stop h s)
  unfolding uv_timer_stop
  timer_stop-WellFormed ty = stop_timer-WellFormed h s w ty

-- A safe call keeps the loop well formed.
pub perform-WellFormed :
    (a : Action) (s : Loop) → WellFormed s → IsSafe a s → WellFormed (perform a s)
unfolding perform
perform-WellFormed (timer_init h) s w ok = timer_init-WellFormed h s w ok
perform-WellFormed (timer_start h cb t r) s w ok = start-WellFormed h s w cb t r ok
perform-WellFormed (timer_stop h) s w ok = timer_stop-WellFormed h s w ok
perform-WellFormed (timer_again h) s w ok = again-WellFormed h s w ok
perform-WellFormed (timer_set_repeat h r) s w ok = set_repeat-WellFormed h s w r
perform-WellFormed (watcher_init p h) s w ok = watcher_init-WellFormed h s w p ok
perform-WellFormed (watcher_start p h cb) s w ok = uv_watcher_start-WellFormed p h s w ok cb
perform-WellFormed (watcher_stop p h) s w ok = uv_watcher_stop-WellFormed p h s w ok
perform-WellFormed (close_handle h cb) s w ok = close-WellFormed h s w cb ok
perform-WellFormed (ref_handle h) s w ok = ref-WellFormed h s w
perform-WellFormed (unref_handle h) s w ok = unref-WellFormed h s w
perform-WellFormed (advance n) s w ok = free-WellFormed s s.closing_handles (s.now_ms + n) s.calls w

-- Any sequence of calls of C code keeps a well-formed loop well formed, if no handle is
-- initialised while it is active and each function gets a handle that was initialised for it
-- (closing any that was initialised). In a well-formed loop the timer handles and the timer keys
-- stand for one another and are those of the active timers, each with its own id and deadline,
-- the keys are in order, and each list of watchers has the active watchers of its phase, each
-- once.
pub perform_all-WellFormed :
    (as' : List Action) (s : Loop) → WellFormed s → AllSafe as' s → WellFormed (perform_all as' s)
unfolding perform_all
perform_all-WellFormed [] s w ok = w
perform_all-WellFormed (a ∷ as') s w ok =
    perform_all-WellFormed as' (perform a s) (perform-WellFormed a s w ok.0) ok.1

-- All that the callbacks do, in every well-formed loop, is safe.
abbrev pub Obeys : Program → Type 0
Obeys p = (cb h : ℕ) (s : Loop) → WellFormed s → AllSafe (p cb h s) (log cb h s)

module _ (p : Program) (obeys : Obeys p) where
  pub call_some-WellFormed :
      (cb : Option ℕ) (h : ℕ) (s : Loop) → WellFormed s → WellFormed (call_some p cb h s)
  unfolding call_some call
  call_some-WellFormed none h s w = w
  call_some-WellFormed (some cb) h s w =
      perform_all-WellFormed (p cb h s) (log cb h s)
        (free-WellFormed s s.closing_handles s.now_ms (s.calls ++ (cb, h) ∷ []) w) (obeys cb h s w)
