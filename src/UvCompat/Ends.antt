-- ===== src/UvCompat/Ends.antt =====
-- The loop over the watchers of a phase ends, though callbacks add watchers while it runs: no
-- address stands twice in a list, so a round for each address is enough.
use deno_core.Common.{
  if-elim, ℕ, zero, suc, ◌+◌, ◌<◌, ◌≤◌, ◌≡◌, refl, sym, ◌∙◌, inl, inr, true, false, List, [], ◌∷◌,
  Option, none, some, get_elem?, arith, Bool-cases, Option-cases, member, NoRepeat, length,
  lt_of_get_elem?, without, length-without, without-NoRepeat, member-without_self,
}
use deno_core.UvCompat.{Phase, HandleType, unknown, timer, tcp, watcher, Loop}
use deno_core.UvCompat.Handles.{
  stop_timer, stop_watcher, uv_timer_init, uv_timer_start, uv_timer_stop, uv_timer_again,
  uv_timer_set_repeat, uv_watcher_init, uv_watcher_start, uv_watcher_stop, stop_handle,
  mark_closing, uv_close, uv_ref, uv_unref,
}
use deno_core.UvCompat.Phases.{
  Action, timer_init, timer_start, timer_stop, timer_again, timer_set_repeat, watcher_init,
  watcher_start, watcher_stop, close_handle, ref_handle, unref_handle, advance, perform,
  perform_all, Program, log, call, call_some, visit, run_watchers,
}
use deno_core.UvCompat.WellFormed.{WellFormed}
use deno_core.UvCompat.Calls.{Obeys}
use deno_core.UvCompat.Rounds.{visit-WellFormed, run_watchers-WellFormed}

-- A list of different numbers below `n` has at most `n` of them.
abbrev Below : ℕ → List ℕ → Type 0
Below n [] = Unit
Below n (j ∷ js) = (j < n) × Below n js

Below-without : (n : ℕ) (js : List ℕ) → Below (suc n) js → member n js ≡ false → Below n js
Below-without n [] b f = tt
Below-without n (j ∷ js) b f = (ground (arith, b.0, f), Below-without n js b.1 (ground (arith, f)))

without-Below : (n k : ℕ) (js : List ℕ) → Below n js → Below n (without k js)
without-Below n k [] b = tt
without-Below n k (j ∷ js) b = ground (arith, b.0, b.1, without-Below n k js b.1)

length-le : (n : ℕ) (js : List ℕ) → Below n js → NoRepeat js → length js ≤ n
length-le zero [] b r = omega arith
length-le zero (j ∷ js) b r = absurd (omega arith)
length-le (suc n) js b r = elim (Bool-cases (member n js)) [
  | inl q ↦ omega (
    arith,
    length-without n js q,
    length-le n (without n js)
        (Below-without n (without n js) (without-Below (suc n) n js b) (member-without_self n js r))
        (without-NoRepeat n js r),
  )
  | inr q ↦ omega (arith, length-le n js (Below-without n js b q) r)
]

members-Below : (n : ℕ) (js : List ℕ) → ((h : ℕ) → member h js ≡ true → h < n) → Below n js
members-Below n [] f = tt
members-Below n (j ∷ js) f =
    (f j (ground arith), members-Below n js (λ h m. f h (ground (arith, m))))

-- The watchers live at addresses below `n`.
abbrev pub InRange : ℕ → Loop → Type 0
InRange n s = (p : Phase) (h : ℕ) → (s.memory h).type ≡ watcher p → h < n

abbrev pub InitsBelow : ℕ → List Action → Type 0
InitsBelow n [] = Unit
InitsBelow n (watcher_init p h ∷ as') = (h < n) × InitsBelow n as'
InitsBelow n (a ∷ as') = InitsBelow n as'

abbrev SameTypes : Loop → Loop → Type 0
SameTypes s t = (g : ℕ) → (t.memory g).type ≡ (s.memory g).type

stop_timer-types : (h : ℕ) (s : Loop) → SameTypes s (stop_timer h s)
unfolding stop_timer
stop_timer-types h s g = ground arith

stop_watcher-types : (p : Phase) (h : ℕ) (s : Loop) → SameTypes s (stop_watcher p h s)
unfolding stop_watcher
stop_watcher-types p h s g = ground arith

stop_handle-types : (t : HandleType) (h : ℕ) (s : Loop) → SameTypes s (stop_handle t h s)
unfolding stop_handle
stop_handle-types unknown h s g = refl
stop_handle-types timer h s g = stop_timer-types h s g
stop_handle-types tcp h s g = ground arith
stop_handle-types (watcher p) h s g = stop_watcher-types p h s g

start-types : (h cb t r : ℕ) (s : Loop) → SameTypes s (uv_timer_start h cb t r s)
unfolding uv_timer_start
start-types h cb t r s g = ground (arith, stop_timer-types h s g, stop_timer-types h s h)

again-types : (h : ℕ) (s : Loop) → SameTypes s (uv_timer_again h s).0
unfolding uv_timer_again
again-types h s g = ground (arith, stop_timer-types h s g, stop_timer-types h s h)

close-types : (h : ℕ) (cb : Option ℕ) (s : Loop) → SameTypes s (uv_close h cb s)
unfolding uv_close
close-types h cb s g = ground (arith, stop_handle-types (s.memory h).type h (mark_closing h s) g)

watcher_stop-types : (p : Phase) (h : ℕ) (s : Loop) → SameTypes s (uv_watcher_stop p h s)
unfolding uv_watcher_stop
watcher_stop-types p h s g = ground (arith, stop_watcher-types p h s g, stop_watcher-types p h s h)

InRange-types : (n : ℕ) (s t : Loop) → InRange n s → SameTypes s t → InRange n t
InRange-types n s t r e p h q = r p h (sym (e h) ∙ q)

perform_all-InRange :
    (n : ℕ) (as' : List Action) (s : Loop)
    → InRange n s
    → InitsBelow n as'
    → InRange n (perform_all as' s)
unfolding perform_all perform uv_timer_init uv_timer_stop uv_timer_set_repeat uv_watcher_init
    uv_watcher_start uv_ref uv_unref
perform_all-InRange n [] s r b = r
perform_all-InRange n (timer_init h ∷ as') s r b =
    perform_all-InRange n as' (uv_timer_init h s) (λ p g q. r p g (ground (arith, q))) b
perform_all-InRange n (timer_start h cb t u ∷ as') s r b =
    perform_all-InRange n as' (uv_timer_start h cb t u s)
      (InRange-types n s (uv_timer_start h cb t u s) r (start-types h cb t u s)) b
perform_all-InRange n (timer_stop h ∷ as') s r b =
    perform_all-InRange n as' (stop_timer h s)
      (InRange-types n s (stop_timer h s) r (stop_timer-types h s)) b
perform_all-InRange n (timer_again h ∷ as') s r b =
    perform_all-InRange n as' (uv_timer_again h s).0
      (InRange-types n s (uv_timer_again h s).0 r (again-types h s)) b
perform_all-InRange n (timer_set_repeat h u ∷ as') s r b =
    perform_all-InRange n as' (uv_timer_set_repeat h u s)
      (InRange-types n s (uv_timer_set_repeat h u s) r (λ g. ground arith)) b
perform_all-InRange n (watcher_init p h ∷ as') s r b =
    perform_all-InRange n as' (uv_watcher_init p h s) (λ q g e. ground (arith, r q g, b.0, e)) b.1
perform_all-InRange n (watcher_start p h cb ∷ as') s r b =
    perform_all-InRange n as' (uv_watcher_start p h cb s)
      (InRange-types n s (uv_watcher_start p h cb s) r (λ g. ground arith)) b
perform_all-InRange n (watcher_stop p h ∷ as') s r b =
    perform_all-InRange n as' (uv_watcher_stop p h s)
      (InRange-types n s (uv_watcher_stop p h s) r (watcher_stop-types p h s)) b
perform_all-InRange n (close_handle h cb ∷ as') s r b =
    perform_all-InRange n as' (uv_close h cb s)
      (InRange-types n s (uv_close h cb s) r (close-types h cb s)) b
perform_all-InRange n (ref_handle h ∷ as') s r b =
    perform_all-InRange n as' (uv_ref h s) (InRange-types n s (uv_ref h s) r (λ g. ground arith)) b
perform_all-InRange n (unref_handle h ∷ as') s r b =
    perform_all-InRange n as' (uv_unref h s)
      (InRange-types n s (uv_unref h s) r (λ g. ground arith)) b
perform_all-InRange n (advance k ∷ as') s r b =
    perform_all-InRange n as' (record s { now_ms = s.now_ms + k }) r b

module _ (p : Program) (obeys : Obeys p) (n : ℕ)
    (below : (cb h : ℕ) (s : Loop) → InitsBelow n (p cb h s)) where
  call_some-InRange :
      (cb : Option ℕ) (h : ℕ) (s : Loop) → InRange n s → InRange n (call_some p cb h s)
  unfolding call_some call
  call_some-InRange none h s r = r
  call_some-InRange (some cb) h s r = perform_all-InRange n (p cb h s) (log cb h s) r (below cb h s)

  visit-InRange : (h : ℕ) (s : Loop) → InRange n s → InRange n (visit p h s)
  unfolding visit
  visit-InRange h s r =
      if-elim (InRange n) (s.memory h).active (call_some p (s.memory h).cb h s) s
        (λ q. call_some-InRange (s.memory h).cb h s r) (λ q. r)

  listed_length :
      (phase : Phase) (s : Loop) → WellFormed s → InRange n s → length (s.handles phase) ≤ n
  listed_length phase s w r =
      length-le n (s.handles phase)
        (members-Below n (s.handles phase) (λ h m. r phase h (w.listed phase h m).1)) (w.once phase)

  rounds :
      (phase : Phase) (fuel i : ℕ) (s : Loop)
      → WellFormed s
      → InRange n s
      → i ≤ n
      → n < fuel + i
      → (t : Loop) × (run_watchers p phase fuel i s ≡ some t)
  unfolding run_watchers
  rounds phase zero i s w r le lt = absurd (omega arith)
  rounds phase (suc fuel) i s w r le lt = elim (Option-cases (get_elem? (s.handles phase) i)) [
    | inl q ↦ (s, ground (arith, q))
    | inr (h, q) ↦
        let (t, e) =
          rounds phase fuel (i + 1) (visit p h s) (visit-WellFormed p obeys h s w)
            (visit-InRange h s r)
            (omega (arith, lt_of_get_elem? (s.handles phase) i h q, listed_length phase s w r))
            (omega arith) in
        (t, ground (arith, q, e))
  ]

  -- In a well-formed loop whose watchers live at addresses below n, with callbacks that
  -- initialise no active handle and give each function a handle initialised for it, and which
  -- initialise watchers at such addresses only, the loop of run_idle, run_prepare and run_check
  -- ends within n + 1 rounds, though callbacks change the list while it runs; and the loop is
  -- well formed after it.
  pub run_watchers_ends :
      (phase : Phase) (s : Loop)
      → WellFormed s
      → InRange n s
      → (t : Loop) × (run_watchers p phase (suc n) 0 s ≡ some t) × WellFormed t
  run_watchers_ends phase s w r =
      let (t, e) = rounds phase (suc n) 0 s w r (omega arith) (omega arith) in
      (t, e, run_watchers-WellFormed p obeys phase (suc n) 0 s t w e)
