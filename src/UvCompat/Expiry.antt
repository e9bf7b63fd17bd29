-- ===== src/UvCompat/Expiry.antt =====
-- A run of run_timers: which calls it makes, and that the loop is well formed after it.
use native.Mathlib.Decide.{ℕ_discrete}
use mathlib.Core.List.{append-nil, append_assoc}
use deno_core.Common.{
  ℕ, ◌≡◌, refl, sym, ap, ◌∙◌, true, List, [], ◌∷◌, ◌++◌, Option, none, some, lookup, arith, subst,
}
use deno_core.UvCompat.{Handle, Loop, TimerKey}
use deno_core.UvCompat.Phases.{Program, expired, fire, fire_all, run_timers}
use deno_core.UvCompat.Keys.{has_key, has_key-expired, expired-Sorted, due_keys, expired-eq}
use deno_core.UvCompat.WellFormed.{WellFormed}
use deno_core.UvCompat.Calls.{Obeys}
use deno_core.UvCompat.Due.{
  Sub, nothing, keep, skip, call_of, found_call, due_calls, fire-Fired, Ids, Sorted-Ids, Agrees,
  step-Agrees,
}

keep_all : {A : Type 0} (c : List A) {xs ys : List A} → Sub xs ys → Sub (c ++ xs) (c ++ ys)
keep_all [] s = s
keep_all (x ∷ c) s = keep (keep_all c s)

skip_all : {A : Type 0} (c : List A) {xs ys : List A} → Sub xs ys → Sub xs (c ++ ys)
skip_all [] s = s
skip_all (x ∷ c) s = skip (skip_all c s)

-- The call for a key is that of the start, or none.
found_call-Sub :
    (o o' : Option ℕ) (m m' : ℕ → Handle) {xs ys : List (ℕ × ℕ)}
    → ((h : ℕ) → o ≡ some h → (o' ≡ some h) × ((m h).cb ≡ (m' h).cb))
    → Sub xs ys
    → Sub (found_call o m ++ xs) (found_call o' m' ++ ys)
found_call-Sub none o' m m' f s = skip_all (found_call o' m') s
found_call-Sub (some h) o' m m' {xs} {ys} f s =
    let e = f h refl in
    subst (λ (z : List (ℕ × ℕ)). Sub (call_of (m h).cb h ++ xs) (z ++ ys))
      (ap (λ c. call_of c h) e.1 ∙ ap (λ (q : Option ℕ). found_call q m') (sym e.0))
      (keep_all (call_of (m h).cb h) s)

-- The calls that a run has made since `s`, of the keys of `ks`.
pub record Ran (s0 : Loop) (ks : List TimerKey) (s t : Loop) : Type 0 where
  pub fired : List (ℕ × ℕ)
  pub called : t.calls ≡ s.calls ++ fired
  pub due : Sub fired (due_calls s0 ks)
  pub after : WellFormed t

module _ (p : Program) (obeys : Obeys p) (now : ℕ) (s0 : Loop) where
  pub fire_all-Ran :
      (ks : List TimerKey) (s : Loop)
      → WellFormed s
      → Agrees s0 ks s
      → Ids ks
      → Ran s0 ks s (fire_all p now ks s)
  unfolding fire_all
  fire_all-Ran [] s w a ids = record {
    fired = [];
    called = sym (append-nil s.calls);
    due = nothing;
    after = w;
  }
  fire_all-Ran ((d, i) ∷ ks) s w a ids =
      let head : has_key (d, i) ((d, i) ∷ ks) ≡ true = ground arith in
      let f = fire-Fired p obeys now d i s w (λ h e. (a.agree d i h head e).2) in
      let cs = found_call (lookup ℕ_discrete i s.timer_handles) s.memory in
      let t = fire p now (d, i) s in
      let r = fire_all-Ran ks t f.after (step-Agrees s0 d i ks cs s t a ids f) ids.1 in
      record {
        fired = cs ++ r.fired;
        called = r.called ∙ (ap (λ z. z ++ r.fired) f.called ∙ append_assoc s.calls cs r.fired);
        due =
            found_call-Sub (lookup ℕ_discrete i s.timer_handles)
              (lookup ℕ_discrete i s0.timer_handles) s.memory s0.memory
              (λ h e. let x = a.agree d i h head e in (x.0, x.1)) r.due;
        after = r.after;
      }

-- At the start of a run.
module _ (s : Loop) (w : WellFormed s) where
  expired_key :
      (d i : ℕ) → has_key (d, i) (expired s.now_ms s.timers) ≡ true → has_key (d, i) s.timers ≡ true
  expired_key d i m = ground (arith, m, has_key-expired s.now_ms (d, i) s.timers w.sorted)

  pub start-Agrees : Agrees s (expired s.now_ms s.timers) s
  start-Agrees = record {
    since = omega arith;
    known = λ d i m. let (h, l, x) = w.keyed d i (expired_key d i m) in (w.entry i h l).4;
    agree = λ d i h m l.
        let (g, k, x) = w.keyed d i (expired_key d i m) in (l, refl, ground (arith, l, k, x));
  }

  pub start-Ids : Ids (expired s.now_ms s.timers)
  start-Ids =
      Sorted-Ids (expired s.now_ms s.timers) (expired-Sorted s.now_ms s.timers w.sorted)
        (λ d e i m n.
          let (g, k, x) = w.keyed d i (expired_key d i m) in
          let (h, l, y) = w.keyed e i (expired_key e i n) in ground (arith, k, x, l, y))

  run_timers-Ran : (p : Program) → Obeys p → Ran s (expired s.now_ms s.timers) s (run_timers p s)
  unfolding run_timers
  run_timers-Ran p obeys =
      fire_all-Ran p obeys s.now_ms s (expired s.now_ms s.timers) s w start-Agrees start-Ids

  -- In a well-formed loop, with callbacks that initialise no active handle and give each
  -- function a handle initialised for it, run_timers makes calls only for the timers that are
  -- due when it starts, in the order of their keys, each once at most and with its callback,
  -- whatever the callbacks start, stop or close; and the loop is well formed after it.
  pub run_timers-calls :
      (p : Program)
      → Obeys p
      → (fired : List (ℕ × ℕ)) × ((run_timers p s).calls ≡ s.calls ++ fired)
        × Sub fired (due_calls s (due_keys s.now_ms s.timers))
        × WellFormed (run_timers p s)
  run_timers-calls p obeys =
      let r = run_timers-Ran p obeys in
      (
        r.fired,
        r.called,
        subst (λ ks. Sub r.fired (due_calls s ks)) (expired-eq s.now_ms s.timers w.sorted) r.due,
        r.after,
      )
