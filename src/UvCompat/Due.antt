-- ===== src/UvCompat/Due.antt =====
-- run_timers calls the timers that are due, in their order, each once at most.
use native.Mathlib.Decide.{ℕ_discrete}
use mathlib.Core.List.{append-nil}
use deno_core.Common.{
  if-elim, ℕ, ◌<◌, ◌≤◌, ◌≡◌, ◌≢◌, refl, sym, ap, ◌∙◌, true, List, [], ◌∷◌, ◌++◌, Option, none, some,
  lookup, remove, lookup-remove, arith,
}
use deno_core.UvCompat.{Handle, Loop, TimerKey}
use deno_core.UvCompat.Phases.{
  Program, log, call, call_some, rearm, fire_handle, take_key, fire_found, fire,
}
use deno_core.UvCompat.Keys.{has_key, Above-lt, Sorted}
use deno_core.UvCompat.WellFormed.{WellFormed}
use deno_core.UvCompat.Timers.{rearm-WellFormed, take_key-WellFormed}
use deno_core.UvCompat.Calls.{Obeys, call_some-WellFormed, free-WellFormed}
use deno_core.UvCompat.Later.{perform_all-Later}

-- A list with some elements left out.
pub data Sub {A : Type 0} : List A → List A → Type 0 where
  nothing : Sub [] []
  keep : {x : A} {xs ys : List A} → Sub xs ys → Sub (x ∷ xs) (x ∷ ys)
  skip : {x : A} {xs ys : List A} → Sub xs ys → Sub xs (x ∷ ys)

-- The call of a handle that has a callback.
abbrev pub call_of : Option ℕ → ℕ → List (ℕ × ℕ)
call_of none h = []
call_of (some cb) h = (cb, h) ∷ []

abbrev pub found_call : Option ℕ → (ℕ → Handle) → List (ℕ × ℕ)
found_call none m = []
found_call (some h) m = call_of (m h).cb h

-- The calls of the timers of a list of keys.
abbrev pub due_calls : Loop → List TimerKey → List (ℕ × ℕ)
due_calls s [] = []
due_calls s (k ∷ ks) = found_call (lookup ℕ_discrete k.1 s.timer_handles) s.memory ++ due_calls s ks

abbrev pub SameTimers : ℕ → Loop → Loop → Type 0
SameTimers i s t =
    (j h : ℕ)
    → j ≢ i
    → j < s.next_timer_id
    → lookup ℕ_discrete j t.timer_handles ≡ some h
    → (lookup ℕ_discrete j s.timer_handles ≡ some h)
      × ((t.memory h).cb ≡ (s.memory h).cb)
      × ((t.memory h).internal_deadline ≡ (s.memory h).internal_deadline)

module _ (now d i h : ℕ) (s : Loop) (w : WellFormed s)
    (found : lookup ℕ_discrete i s.timer_handles ≡ some h) where
  rearm-SameTimers : SameTimers i s (rearm now i h (take_key (d, i) s))
  unfolding rearm
  rearm-SameTimers j g ne lt e =
      let old : lookup ℕ_discrete j s.timer_handles ≡ some g =
        ground (arith, e, ne, lookup-remove ℕ_discrete i j s.timer_handles) in
      (old, ground (arith, found), ground (arith, w.entry j g old, w.entry i h found, ne))

  rearm-calls : (rearm now i h (take_key (d, i) s)).calls ≡ s.calls
  unfolding rearm
  rearm-calls = ground arith

  rearm-cb : ((rearm now i h (take_key (d, i) s)).memory h).cb ≡ (s.memory h).cb
  unfolding rearm
  rearm-cb = ground arith

  rearm-next : (rearm now i h (take_key (d, i) s)).next_timer_id ≡ s.next_timer_id
  unfolding rearm
  rearm-next = ground arith

-- What firing one key does.
pub record Fired (i : ℕ) (cs : List (ℕ × ℕ)) (s t : Loop) : Type 0 where
  pub after : WellFormed t
  pub older : s.next_timer_id ≤ t.next_timer_id
  pub same_timers : SameTimers i s t
  pub called : t.calls ≡ s.calls ++ cs

module _ (p : Program) (obeys : Obeys p) where
  -- A callback after the state `r` that is the rest of the step from `s`.
  called-Fired :
      (i h : ℕ) (cb : Option ℕ) (s r : Loop)
      → WellFormed r
      → r.next_timer_id ≡ s.next_timer_id
      → SameTimers i s r
      → r.calls ≡ s.calls
      → Fired i (call_of cb h) s (call_some p cb h r)
  unfolding call_some call
  called-Fired i h none s r w n st c = record {
    after = w;
    older = omega (arith, n);
    same_timers = st;
    called = c ∙ sym (append-nil s.calls);
  }
  called-Fired i h (some cb) s r w n st c =
      let l =
        perform_all-Later (p cb h r) (log cb h r)
          (free-WellFormed r r.closing_handles r.now_ms (r.calls ++ (cb, h) ∷ []) w)
          (obeys cb h r w) in
      record {
        after = call_some-WellFormed p obeys (some cb) h r w;
        older = omega (arith, n, l.older);
        same_timers = λ j g ne lt e.
            let x = l.from j g (omega (arith, n, lt)) e in
            let y = st j g ne lt x.0 in (y.0, x.1 ∙ y.1, x.2 ∙ y.2);
        called = l.logged ∙ ap (λ z. z ++ (cb, h) ∷ []) c;
      }

  module _ (now d i : ℕ) (s : Loop) (w : WellFormed s) where
    found-Fired :
        (o : Option ℕ)
        → lookup ℕ_discrete i s.timer_handles ≡ o
        → ((h : ℕ) → o ≡ some h → (s.memory h).internal_deadline ≡ d)
        → Fired i (found_call o s.memory) s (fire_found p now i o (take_key (d, i) s))
    unfolding fire_found fire_handle
    found-Fired none e due = record {
      after = take_key-WellFormed d i s w e;
      older = omega arith;
      same_timers = λ j g ne lt l. (l, refl, refl);
      called = sym (append-nil s.calls);
    }
    found-Fired (some h) e due =
        let r = rearm now i h (take_key (d, i) s) in
        if-elim (Fired i (call_of (s.memory h).cb h) s) (s.memory h).active
          (call_some p (s.memory h).cb h r)
          (record (take_key (d, i) s) { timer_handles = remove ℕ_discrete i s.timer_handles })
          (λ q.
            called-Fired i h (s.memory h).cb s r (rearm-WellFormed now d i h s w e (due h refl))
              (rearm-next now d i h s w e) (rearm-SameTimers now d i h s w e)
              (rearm-calls now d i h s w e))
          (λ q. absurd (ground (arith, w.entry i h e, q)))

    pub fire-Fired :
        ((h : ℕ)
          → lookup ℕ_discrete i s.timer_handles ≡ some h
          → (s.memory h).internal_deadline ≡ d)
        → Fired i
            (found_call (lookup ℕ_discrete i s.timer_handles) s.memory)
            s
            (fire p now (d, i) s)
    unfolding fire
    fire-Fired due = found-Fired (lookup ℕ_discrete i s.timer_handles) refl due

-- No two keys of a list have the same id.
abbrev pub Ids : List TimerKey → Type 0
Ids [] = Unit
Ids (k ∷ ks) = ((e j : ℕ) → has_key (e, j) ks ≡ true → j ≢ k.1) × Ids ks

pub Sorted-Ids :
    (ks : List TimerKey)
    → Sorted ks
    → ((d e i : ℕ) → has_key (d, i) ks ≡ true → has_key (e, i) ks ≡ true → d ≡ e)
    → Ids ks
Sorted-Ids [] s f = tt
Sorted-Ids ((d, i) ∷ ks) s f = (
  λ e j m x.
      ground
        (arith, Above-lt (d, i) (e, j) ks s.0 m, x, f d e i (ground arith) (ground (arith, x, m))),
  Sorted-Ids ks s.1 (λ c e j m n. f c e j (ground (arith, m)) (ground (arith, n))),
)

-- The timers of the keys that are left are those of the start, if they were not stopped.
pub record Agrees (s0 : Loop) (ks : List TimerKey) (s : Loop) : Type 0 where
  pub since : s0.next_timer_id ≤ s.next_timer_id
  pub known : (d i : ℕ) → has_key (d, i) ks ≡ true → i < s0.next_timer_id
  pub agree :
      (d i h : ℕ)
      → has_key (d, i) ks ≡ true
      → lookup ℕ_discrete i s.timer_handles ≡ some h
      → (lookup ℕ_discrete i s0.timer_handles ≡ some h)
        × ((s.memory h).cb ≡ (s0.memory h).cb)
        × ((s.memory h).internal_deadline ≡ d)

pub step-Agrees :
    (s0 : Loop) (d i : ℕ) (ks : List TimerKey) (cs : List (ℕ × ℕ)) (s t : Loop)
    → Agrees s0 ((d, i) ∷ ks) s
    → Ids ((d, i) ∷ ks)
    → Fired i cs s t
    → Agrees s0 ks t
step-Agrees s0 d i ks cs s t a ids f = record {
  since = omega (arith, a.since, f.older);
  known = λ e j m. a.known e j (ground (arith, m));
  agree = λ e j h m l.
      let x =
        f.same_timers j h (ids.0 e j m) (omega (arith, a.since, a.known e j (ground (arith, m))))
          l in
      let y = a.agree e j h (ground (arith, m)) x.0 in (y.0, x.1 ∙ y.1, x.2 ∙ y.2);
}
