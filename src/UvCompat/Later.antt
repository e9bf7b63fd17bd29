-- ===== src/UvCompat/Later.antt =====
-- What a call of C code can do to the timers that are started: stop them, but not change them.
use native.Mathlib.Decide.{ℕ_discrete}
use deno_core.Common.{
  if-elim, ℕ, ◌<◌, ◌≤◌, ◌≡◌, ◌≢◌, refl, ◌∙◌, inl, inr, true, false, List, [], ◌∷◌, ◌++◌, Option,
  some, ◌==◌, if◌then◌else◌, lookup, lookup-insert, lookup-remove, arith, Bool-cases,
}
use deno_core.UvCompat.{
  Phase, HandleType, unknown, timer, tcp, watcher, Handle, Loop, put_handles, write,
}
use deno_core.UvCompat.Handles.{
  stop_timer, stop_watcher, schedule, uv_timer_init, uv_timer_start, uv_timer_stop, uv_timer_again,
  uv_timer_set_repeat, uv_watcher_init, uv_watcher_start, uv_watcher_stop, stop_handle,
  mark_closing, uv_close, uv_ref, uv_unref, Status, einval, done, clear_cb,
}
use deno_core.UvCompat.Phases.{
  Action, timer_init, timer_start, timer_stop, timer_again, timer_set_repeat, watcher_init,
  watcher_start, watcher_stop, close_handle, ref_handle, unref_handle, advance, perform,
  perform_all,
}
use deno_core.UvCompat.WellFormed.{WellFormed}
use deno_core.UvCompat.Timers.{stop_timer-WellFormed, stop_timer-inactive}
use deno_core.UvCompat.Calls.{IsSafe, AllSafe, perform-WellFormed}

-- A timer that has its id from before is one of before, with its callback and its deadline.
pub record Later (s t : Loop) : Type 0 where
  pub older : s.next_timer_id ≤ t.next_timer_id
  pub from :
      (i h : ℕ)
      → i < s.next_timer_id
      → lookup ℕ_discrete i t.timer_handles ≡ some h
      → (lookup ℕ_discrete i s.timer_handles ≡ some h)
        × ((t.memory h).cb ≡ (s.memory h).cb)
        × ((t.memory h).internal_deadline ≡ (s.memory h).internal_deadline)
  pub logged : t.calls ≡ s.calls

pub Later-refl : (s : Loop) → Later s s
Later-refl s = record { older = omega arith; from = λ i h lt e. (e, refl, refl); logged = refl }

pub Later-trans : (s t u : Loop) → Later s t → Later t u → Later s u
Later-trans s t u a b = record {
  older = omega (arith, a.older, b.older);
  from = λ i h lt e.
      let x = b.from i h (omega (arith, a.older)) e in
      let y = a.from i h lt x.0 in (y.0, x.1 ∙ y.1, x.2 ∙ y.2);
  logged = b.logged ∙ a.logged;
}

module _ (h : ℕ) (v : Handle) (s : Loop) where
  write-Later :
      v.cb ≡ (s.memory h).cb
      → v.internal_deadline ≡ (s.memory h).internal_deadline
      → Later s (write h v s)
  write-Later c d = record {
    older = omega arith;
    from = λ i g lt e. (e, ground (arith, c), ground (arith, d));
    logged = refl;
  }

  -- A handle that is no entry.
  write_free-Later :
      ((i : ℕ) → lookup ℕ_discrete i s.timer_handles ≢ some h) → Later s (write h v s)
  write_free-Later no_entry = record {
    older = omega arith;
    from = λ i g lt e. elim (Bool-cases (g == h)) [
      | inl q ↦ absurd (no_entry i (ground (arith, q, e)))
      | inr q ↦ (e, ground (arith, q), ground (arith, q))
    ];
    logged = refl;
  }

module _ (h : ℕ) (s : Loop) where
  -- The lists of watchers do not matter.
  unlist-Later :
      (hs : Phase → List ℕ) (v : Handle)
      → ((i : ℕ) → lookup ℕ_discrete i s.timer_handles ≢ some h)
      → Later s (write h v (record s { handles = hs }))
  unlist-Later hs v no_entry =
      let a = write_free-Later h v s no_entry in
      record { older = a.older; from = a.from; logged = a.logged }

  stop_timer-Later : Later s (stop_timer h s)
  unfolding stop_timer
  stop_timer-Later = record {
    older = ground arith;
    from = λ i g lt e. (
      ground (arith, e, lookup-remove ℕ_discrete (s.memory h).internal_id i s.timer_handles),
      ground arith,
      ground arith,
    );
    logged = ground arith;
  }

  stop_watcher-Later : (p : Phase) → Later s (stop_watcher p h s)
  unfolding stop_watcher
  stop_watcher-Later p = record {
    older = omega arith;
    from = λ i g lt e. (e, ground arith, ground arith);
    logged = refl;
  }

  schedule-Later :
      (wait : ℕ)
      → ((i : ℕ) → lookup ℕ_discrete i s.timer_handles ≢ some h)
      → Later s (schedule h wait s)
  schedule-Later wait no_entry = record {
    older = omega arith;
    from = λ i g lt e.
        let old : lookup ℕ_discrete i s.timer_handles ≡ some g =
          ground (arith, e, lookup-insert ℕ_discrete s.next_timer_id i h s.timer_handles) in
        elim (Bool-cases (g == h)) [
          | inl q ↦ absurd (no_entry i (ground (arith, q, old)))
          | inr q ↦ (old, ground (arith, q), ground (arith, q))
        ];
    logged = refl;
  }

  module _ (w : WellFormed s) where
    inactive_free :
        (s.memory h).active ≡ false → (i : ℕ) → lookup ℕ_discrete i s.timer_handles ≢ some h
    inactive_free off i e = ground (arith, w.entry i h e, off)

    watcher_free :
        (p : Phase)
        → (s.memory h).type ≡ watcher p
        → (i : ℕ) → lookup ℕ_discrete i s.timer_handles ≢ some h
    watcher_free p ty i e = ground (arith, w.entry i h e, ty)

    stopped_free :
        (s.memory h).type ≡ timer
        → (i : ℕ) → lookup ℕ_discrete i (stop_timer h s).timer_handles ≢ some h
    stopped_free ty i e =
        ground (arith, (stop_timer-WellFormed h s w ty).entry i h e, stop_timer-inactive h s w ty)

    watcher_left :
        (p : Phase)
        → (s.memory h).type ≡ watcher p
        → (i : ℕ) → lookup ℕ_discrete i (stop_watcher p h s).timer_handles ≢ some h
    unfolding stop_watcher
    watcher_left p ty = watcher_free p ty

    watcher_start-Later :
        (p : Phase) (cb : ℕ) → (s.memory h).type ≡ watcher p → Later s (uv_watcher_start p h cb s)
    unfolding uv_watcher_start
    watcher_start-Later p cb ty =
        if-elim (Later s) (s.memory h).active (write h (record (s.memory h) { cb = some cb }) s)
          (write h (record (s.memory h) { cb = some cb; active = true })
            (record s { handles = put_handles p (s.handles p ++ h ∷ []) s.handles }))
          (λ q. write_free-Later h _ s (watcher_free p ty))
          (λ q.
            unlist-Later (put_handles p (s.handles p ++ h ∷ []) s.handles)
              (record (s.memory h) { cb = some cb; active = true }) (watcher_free p ty))

    watcher_stop-Later :
        (p : Phase) → (s.memory h).type ≡ watcher p → Later s (uv_watcher_stop p h s)
    unfolding uv_watcher_stop
    watcher_stop-Later p ty =
        let t = stop_watcher p h s in
        if-elim (Later s) (s.memory h).active (clear_cb h t) s
          (λ q.
            Later-trans s t (clear_cb h t) (stop_watcher-Later p)
              (write_free-Later h _ t (watcher_left p ty)))
          (λ q. Later-refl s)

  stop_handle-Later : (t : HandleType) → Later s (stop_handle t h s)
  unfolding stop_handle
  stop_handle-Later unknown = Later-refl s
  stop_handle-Later timer = stop_timer-Later
  stop_handle-Later tcp = write-Later h _ s refl refl
  stop_handle-Later (watcher p) = stop_watcher-Later p

module _ (h : ℕ) (s : Loop) (w : WellFormed s) where
  start-Later :
      (cb timeout repeat : ℕ)
      → (s.memory h).type ≡ timer
      → Later s (uv_timer_start h cb timeout repeat s)
  unfolding uv_timer_start
  start-Later cb timeout repeat ty =
      let s1 = if (s.memory h).active then stop_timer h s else s in
      let v = record (s1.memory h) { cb = some cb; timeout = timeout; repeat = repeat } in
      let none_left : (i : ℕ) → lookup ℕ_discrete i s1.timer_handles ≢ some h =
        if-elim (λ (t : Loop). (i : ℕ) → lookup ℕ_discrete i t.timer_handles ≢ some h)
          (s.memory h).active (stop_timer h s) s (λ q. stopped_free h s w ty)
          (inactive_free h s w) in
      Later-trans s s1 (schedule h timeout (write h v s1))
        (if-elim (Later s) (s.memory h).active (stop_timer h s) s (λ q. stop_timer-Later h s)
          (λ q. Later-refl s))
        (Later-trans s1 (write h v s1) (schedule h timeout (write h v s1))
          (write_free-Later h v s1 none_left) (schedule-Later h (write h v s1) timeout none_left))

  again-Later : (s.memory h).type ≡ timer → Later s (uv_timer_again h s).0
  unfolding uv_timer_again
  again-Later ty =
      let r = (s.memory h).repeat in
      let t = stop_timer h s in
      if-elim {A = Loop × Status} (λ x. Later s x.0) (r == 0) (s, einval) (schedule h r t, done)
        (λ q. Later-refl s)
        (λ q.
          Later-trans s t (schedule h r t) (stop_timer-Later h s)
            (schedule-Later h t r (stopped_free h s w ty)))

close-Later : (h : ℕ) (cb : Option ℕ) (s : Loop) → Later s (uv_close h cb s)
unfolding uv_close
close-Later h cb s =
    let m = mark_closing h s in
    let t = stop_handle (s.memory h).type h m in
    let a =
      Later-trans s m t (write-Later h _ s refl refl) (stop_handle-Later h m (s.memory h).type) in
    record { older = a.older; from = a.from; logged = a.logged }

-- A safe call.
perform-Later : (a : Action) (s : Loop) → WellFormed s → IsSafe a s → Later s (perform a s)
unfolding perform uv_timer_init uv_timer_stop uv_timer_set_repeat uv_watcher_init uv_ref uv_unref
perform-Later (timer_init h) s w ok = write_free-Later h _ s (inactive_free h s w ok)
perform-Later (timer_start h cb t r) s w ok = start-Later h s w cb t r ok
perform-Later (timer_stop h) s w ok = stop_timer-Later h s
perform-Later (timer_again h) s w ok = again-Later h s w ok
perform-Later (timer_set_repeat h r) s w ok = write-Later h _ s refl refl
perform-Later (watcher_init p h) s w ok = write_free-Later h _ s (inactive_free h s w ok)
perform-Later (watcher_start p h cb) s w ok = watcher_start-Later h s w p cb ok
perform-Later (watcher_stop p h) s w ok = watcher_stop-Later h s w p ok
perform-Later (close_handle h cb) s w ok = close-Later h cb s
perform-Later (ref_handle h) s w ok = write-Later h _ s refl refl
perform-Later (unref_handle h) s w ok = write-Later h _ s refl refl
perform-Later (advance n) s w ok = record {
  older = omega arith;
  from = λ i h lt e. (e, refl, refl);
  logged = refl;
}

pub perform_all-Later :
    (as' : List Action) (s : Loop) → WellFormed s → AllSafe as' s → Later s (perform_all as' s)
unfolding perform_all
perform_all-Later [] s w ok = Later-refl s
perform_all-Later (a ∷ as') s w ok =
    Later-trans s (perform a s) (perform_all as' (perform a s)) (perform-Later a s w ok.0)
      (perform_all-Later as' (perform a s) (perform-WellFormed a s w ok.0) ok.1)
