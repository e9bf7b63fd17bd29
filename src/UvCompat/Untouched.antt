-- ===== src/UvCompat/Untouched.antt =====
-- A timer that is due and that no callback touches is called.
use native.Mathlib.Decide.{ℕ_discrete}
use mathlib.Core.List.{append_assoc}
use deno_core.Common.{
  if-elim, ℕ, ◌≤◌, ◌≡◌, ◌≢◌, refl, sym, ap, ◌∙◌, inl, inr, Bool, true, false, List, [], ◌∷◌, ◌++◌,
  Option, none, some, ◌==◌, if◌then◌else◌, lookup, remove, lookup-insert, lookup-remove, arith,
  subst, Bool-cases, In, In-left, In-right,
}
use deno_core.UvCompat.{HandleType, unknown, timer, tcp, watcher, Loop, TimerKey, write}
use deno_core.UvCompat.Handles.{
  stop_timer, stop_watcher, schedule, uv_timer_init, uv_timer_start, uv_timer_stop, uv_timer_again,
  uv_timer_set_repeat, uv_watcher_init, uv_watcher_start, uv_watcher_stop, stop_handle,
  mark_closing, uv_close, uv_ref, uv_unref, Status, einval, done,
}
use deno_core.UvCompat.Phases.{
  Action, timer_init, timer_start, timer_stop, timer_again, timer_set_repeat, watcher_init,
  watcher_start, watcher_stop, close_handle, ref_handle, unref_handle, advance, perform,
  perform_all, Program, log, call, call_some, expired, rearm, fire_handle, take_key, fire_found,
  fire, fire_all, run_timers,
}
use deno_core.UvCompat.WellFormed.{WellFormed}
use deno_core.UvCompat.Calls.{AllSafe, Obeys, perform-WellFormed, free-WellFormed}
use deno_core.UvCompat.Keys.{has_key, has_key-expired}
use deno_core.UvCompat.Timers.{rearm-WellFormed}
use deno_core.UvCompat.Due.{found_call, call_of, fire-Fired, Ids, Agrees, step-Agrees}
use deno_core.UvCompat.Expiry.{fire_all-Ran, start-Agrees, start-Ids}

-- The calls that start, stop or close the timer `h`.
abbrev pub touches : ℕ → Action → Bool
touches h (timer_start g cb t r) = h == g
touches h (timer_stop g) = h == g
touches h (timer_again g) = h == g
touches h (close_handle g cb) = h == g
touches h a = false

abbrev pub NoneTouches : ℕ → List Action → Type 0
NoneTouches h [] = Unit
NoneTouches h (a ∷ as') = (touches h a ≡ false) × NoneTouches h as'

-- `h` is still the timer of `i`.
module _ (i h : ℕ) where
  abbrev Stays : Loop → Loop → Type 0
  Stays s t =
      lookup ℕ_discrete i s.timer_handles ≡ some h → lookup ℕ_discrete i t.timer_handles ≡ some h

  stop_timer-Stays :
      (g : ℕ) (s u : Loop)
      → WellFormed s
      → (h == g) ≡ false
      → u.timer_handles ≡ s.timer_handles
      → (u.memory g).internal_id ≡ (s.memory g).internal_id
      → Stays s (stop_timer g u)
  unfolding stop_timer
  stop_timer-Stays g s u w ne th ids e = ground (
    arith,
    th,
    e,
    ne,
    w.own g h,
    ids,
    lookup-remove ℕ_discrete (u.memory g).internal_id i u.timer_handles,
  )

  stop_timer-older : (g : ℕ) (s : Loop) → s.next_timer_id ≤ (stop_timer g s).next_timer_id
  unfolding stop_timer
  stop_timer-older g s = ground arith

  abbrev Holds : Loop → Loop → Type 0
  Holds s t = Stays s t × (s.next_timer_id ≤ t.next_timer_id)

  schedule-Stays :
      (g wait : ℕ) (s t : Loop)
      → WellFormed s
      → s.next_timer_id ≤ t.next_timer_id
      → Stays s t
      → Stays s (schedule g wait t)
  schedule-Stays g wait s t w le st e =
      ground (
        arith,
        w.entry i h e,
        st e,
        le,
        lookup-insert ℕ_discrete t.next_timer_id i g t.timer_handles,
      )

  stop_handle-Stays :
      (t : HandleType) (g : ℕ) (s : Loop)
      → WellFormed s
      → (h == g) ≡ false
      → Stays s (stop_handle t g (mark_closing g s))
  unfolding stop_handle stop_watcher
  stop_handle-Stays unknown g s w ne e = e
  stop_handle-Stays timer g s w ne e =
      stop_timer-Stays g s (mark_closing g s) w ne refl (ground arith) e
  stop_handle-Stays tcp g s w ne e = e
  stop_handle-Stays (watcher p) g s w ne e = e

  perform-Stays :
      (a : Action) (s : Loop) → WellFormed s → touches h a ≡ false → Stays s (perform a s)
  unfolding perform uv_timer_init uv_timer_stop uv_timer_start uv_timer_again uv_timer_set_repeat
      uv_watcher_init uv_watcher_start uv_watcher_stop stop_watcher uv_ref uv_unref uv_close
  perform-Stays (timer_init g) s w ne e = e
  perform-Stays (timer_start g cb t r) s w ne e =
      let s1 = if (s.memory g).active then stop_timer g s else s in
      let v = record (s1.memory g) { cb = some cb; timeout = t; repeat = r } in
      let k =
        if-elim (Holds s) (s.memory g).active (stop_timer g s) s
          (λ q. (stop_timer-Stays g s s w ne refl refl, stop_timer-older g s))
          (λ q. (λ e. e, omega arith)) in
      schedule-Stays g t s (write g v s1) w k.1 k.0 e
  perform-Stays (timer_stop g) s w ne e = stop_timer-Stays g s s w ne refl refl e
  perform-Stays (timer_again g) s w ne e =
      let r = (s.memory g).repeat in
      let t = stop_timer g s in
      if-elim {A = Loop × Status} (λ x. Stays s x.0) (r == 0) (s, einval) (schedule g r t, done)
        (λ q e. e)
        (λ q.
          schedule-Stays g r s t w (stop_timer-older g s) (stop_timer-Stays g s s w ne refl refl))
        e
  perform-Stays (timer_set_repeat g r) s w ne e = e
  perform-Stays (watcher_init p g) s w ne e = e
  perform-Stays (watcher_start p g cb) s w ne e = ground (arith, e)
  perform-Stays (watcher_stop p g) s w ne e = ground (arith, e)
  perform-Stays (close_handle g cb) s w ne e = stop_handle-Stays (s.memory g).type g s w ne e
  perform-Stays (ref_handle g) s w ne e = e
  perform-Stays (unref_handle g) s w ne e = e
  perform-Stays (advance n) s w ne e = e

  perform_all-Stays :
      (as' : List Action) (s : Loop)
      → WellFormed s
      → AllSafe as' s
      → NoneTouches h as'
      → Stays s (perform_all as' s)
  unfolding perform_all
  perform_all-Stays [] s w ok ne e = e
  perform_all-Stays (a ∷ as') s w ok ne e =
      perform_all-Stays as' (perform a s) (perform-WellFormed a s w ok.0) ok.1 ne.1
        (perform-Stays a s w ne.0 e)

-- No callback touches `h`.
abbrev pub Untouched : Program → ℕ → Type 0
Untouched p h = (cb g : ℕ) (s : Loop) → NoneTouches h (p cb g s)

-- Its own key makes the call.
own_call :
    (i h c j : ℕ) (s : Loop)
    → (j == i) ≡ true
    → lookup ℕ_discrete i s.timer_handles ≡ some h
    → (s.memory h).cb ≡ some c
    → In (c, h) (found_call (lookup ℕ_discrete j s.timer_handles) s.memory)
own_call i h c j s q l e =
    let k : lookup ℕ_discrete j s.timer_handles ≡ some h = ground (arith, q, l) in
    subst (λ (x : List (ℕ × ℕ)). In (c, h) x)
      (sym (ap (λ (o : Option ℕ). found_call o s.memory) k ∙ ap (λ (o : Option ℕ). call_of o h) e))
      (inl refl)

module _ (p : Program) (obeys : Obeys p) (i h : ℕ) (free : Untouched p h) where
  call_some-Stays :
      (cb : Option ℕ) (g : ℕ) (s : Loop) → WellFormed s → Stays i h s (call_some p cb g s)
  unfolding call_some call
  call_some-Stays none g s w e = e
  call_some-Stays (some cb) g s w e =
      perform_all-Stays i h (p cb g s) (log cb g s)
        (free-WellFormed s s.closing_handles s.now_ms (s.calls ++ (cb, g) ∷ []) w) (obeys cb g s w)
        (free cb g s) e

  rearm-Stays : (now d j g : ℕ) (s : Loop) → j ≢ i → Stays i h s (rearm now j g (take_key (d, j) s))
  unfolding rearm
  rearm-Stays now d j g s ne e = ground (arith, e, ne, lookup-remove ℕ_discrete j i s.timer_handles)

  found-Stays :
      (now d j : ℕ) (s : Loop) (o : Option ℕ)
      → WellFormed s
      → lookup ℕ_discrete j s.timer_handles ≡ o
      → ((g : ℕ) → o ≡ some g → (s.memory g).internal_deadline ≡ d)
      → j ≢ i
      → Stays i h s (fire_found p now j o (take_key (d, j) s))
  unfolding fire_found fire_handle
  found-Stays now d j s none w e due ne = λ x. x
  found-Stays now d j s (some g) w e due ne =
      let r = rearm now j g (take_key (d, j) s) in
      if-elim (Stays i h s) (s.memory g).active (call_some p (s.memory g).cb g r)
        (record (take_key (d, j) s) { timer_handles = remove ℕ_discrete j s.timer_handles })
        (λ q x.
          call_some-Stays (s.memory g).cb g r (rearm-WellFormed now d j g s w e (due g refl))
            (rearm-Stays now d j g s ne x))
        (λ q x. ground (arith, x, ne, lookup-remove ℕ_discrete j i s.timer_handles))

  fire-Stays :
      (now d j : ℕ) (s : Loop)
      → WellFormed s
      → ((g : ℕ)
          → lookup ℕ_discrete j s.timer_handles ≡ some g
          → (s.memory g).internal_deadline ≡ d)
      → j ≢ i
      → Stays i h s (fire p now (d, j) s)
  unfolding fire
  fire-Stays now d j s w due ne =
      found-Stays now d j s (lookup ℕ_discrete j s.timer_handles) w refl due ne

  module _ (now c : ℕ) (s0 : Loop) where
    abbrev Called : Loop → Loop → Type 0
    Called s t = (fired : List (ℕ × ℕ)) × (t.calls ≡ s.calls ++ fired) × In (c, h) fired

    fire_all-Called :
        (ks : List TimerKey) (d : ℕ) (s : Loop)
        → WellFormed s
        → Agrees s0 ks s
        → Ids ks
        → has_key (d, i) ks ≡ true
        → lookup ℕ_discrete i s.timer_handles ≡ some h
        → (s.memory h).cb ≡ some c
        → Called s (fire_all p now ks s)
    unfolding fire_all
    fire_all-Called [] d s w a ids m l e = absurd (ground (arith, m))
    fire_all-Called ((b, j) ∷ ks) d s w a ids m l e =
        let head : has_key (b, j) ((b, j) ∷ ks) ≡ true = ground arith in
        let due =
          λ (g : ℕ) (x : lookup ℕ_discrete j s.timer_handles ≡ some g). (a.agree b j g head x).2 in
        let f = fire-Fired p obeys now b j s w due in
        let cs = found_call (lookup ℕ_discrete j s.timer_handles) s.memory in
        let t = fire p now (b, j) s in
        let b' = step-Agrees s0 b j ks cs s t a ids f in
        elim (Bool-cases (j == i)) [
          | inl q ↦
              let r = fire_all-Ran p obeys now s0 ks t f.after b' ids.1 in
              (
                cs ++ r.fired,
                r.called ∙ (ap (λ z. z ++ r.fired) f.called ∙ append_assoc s.calls cs r.fired),
                In-left (c, h) cs r.fired (own_call i h c j s q l e),
              )
          | inr q ↦
              let ne : j ≢ i = ground (arith, q) in
              let l' = fire-Stays now b j s w due ne l in
              let st = f.same_timers i h (λ x. ne (sym x)) (w.entry i h l).4 l' in
              let r =
                fire_all-Called ks d t f.after b' ids.1 (ground (arith, m, q)) l' (st.1 ∙ e) in
              (
                cs ++ r.0,
                r.1 ∙ (ap (λ z. z ++ r.0) f.called ∙ append_assoc s.calls cs r.0),
                In-right (c, h) cs r.0 r.2,
              )
        ]

-- In a well-formed loop, with callbacks that initialise no active handle and give each function
-- a handle initialised for it, run_timers calls the callback of each timer that is started and
-- due, if no callback starts, stops or closes that timer.
pub spared_timer_called :
    (s : Loop) (p : Program) (i h c : ℕ)
    → WellFormed s
    → Obeys p
    → Untouched p h
    → lookup ℕ_discrete i s.timer_handles ≡ some h
    → (s.memory h).cb ≡ some c
    → (s.memory h).internal_deadline ≤ s.now_ms
    → (fired : List (ℕ × ℕ)) × ((run_timers p s).calls ≡ s.calls ++ fired) × In (c, h) fired
unfolding run_timers
spared_timer_called s p i h c w obeys free l e due =
    let k = (w.entry i h l).3 in
    let dl = (s.memory h).internal_deadline in
    fire_all-Called p obeys i h free s.now_ms c s (expired s.now_ms s.timers) dl s w
      (start-Agrees s w) (start-Ids s w)
      (ground (arith, k, due, has_key-expired s.now_ms (dl, i) s.timers w.sorted)) l e
