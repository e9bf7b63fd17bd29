-- ===== src/UvCompat/Alive.antt =====
-- What has_alive_handles and run_close compute, in well-formed loops.
use native.Mathlib.Decide.{ℕ_discrete}
use mathlib.Core.List.{append-nil, append_assoc}
use deno_core.Common.{
  ℕ, ◌≡◌, ◌≢◌, refl, sym, ap, ap₂, ◌∙◌, ◌⊎◌, inl, inr, Bool, true, false, not, ◌||◌, List, [], ◌∷◌,
  ◌++◌, ◌↔◌, In, Option, none, some, lookup, member, arith, Bool-cases,
}
use deno_core.UvCompat.{
  idle, prepare, check, HandleType, unknown, timer, tcp, watcher, Handle, Loop,
}
use deno_core.UvCompat.Handles.{
  alive, any_alive, any_timer_alive, any_socket_alive, is_empty, has_alive_handles,
}
use deno_core.UvCompat.Phases.{
  Action, perform_all, Program, log, call, call_some, close_all, run_close,
}
use deno_core.UvCompat.WellFormed.{WellFormed, Kept}
use deno_core.UvCompat.Calls.{
  Obeys, AllSafe, perform_all-WellFormed, call_some-WellFormed, free-WellFormed,
}
use deno_core.UvCompat.Later.{perform_all-Later}
use deno_core.UvCompat.Rounds.{run_close-WellFormed}
use deno_core.UvCompat.Closing.{closed_by, perform_all-closing}
use deno_core.UvCompat.Due.{call_of}

any_alive_mem :
    (m : ℕ → Handle) (h : ℕ) (hs : List ℕ)
    → member h hs ≡ true
    → alive (m h) ≡ true
    → any_alive m hs ≡ true
any_alive_mem m h [] e a = absurd (ground (arith, e))
any_alive_mem m h (j ∷ hs) e a = ground (arith, e, a, any_alive_mem m h hs)

any_timer_alive_mem :
    (m : ℕ → Handle) (i h : ℕ) (hs : List (ℕ × ℕ))
    → lookup ℕ_discrete i hs ≡ some h
    → alive (m h) ≡ true
    → any_timer_alive m hs ≡ true
any_timer_alive_mem m i h [] e a = absurd (ground (arith, e))
any_timer_alive_mem m i h ((j, g) ∷ hs) e a = ground (arith, e, a, any_timer_alive_mem m i h hs)

-- A handle that a loop of has_alive_handles finds.
abbrev IsAlive : (ℕ → Handle) → Type 0
IsAlive m = (h : ℕ) × ((m h).active ≡ true) × ((m h).referenced ≡ true)

found_handle : (m : ℕ → Handle) (h : ℕ) → alive (m h) ≡ true → IsAlive m
found_handle m h e = (h, ground (arith, e), ground (arith, e))

any_alive-IsAlive : (m : ℕ → Handle) (hs : List ℕ) → any_alive m hs ≡ true → IsAlive m
any_alive-IsAlive m [] e = absurd (ground (arith, e))
any_alive-IsAlive m (h ∷ hs) e = elim (Bool-cases (alive (m h))) [
  | inl q ↦ found_handle m h q
  | inr q ↦ any_alive-IsAlive m hs (ground (arith, e, q))
]

any_timer_alive-IsAlive :
    (m : ℕ → Handle) (hs : List (ℕ × ℕ)) → any_timer_alive m hs ≡ true → IsAlive m
any_timer_alive-IsAlive m [] e = absurd (ground (arith, e))
any_timer_alive-IsAlive m ((i, h) ∷ hs) e = elim (Bool-cases (alive (m h))) [
  | inl q ↦ found_handle m h q
  | inr q ↦ any_timer_alive-IsAlive m hs (ground (arith, e, q))
]

or_cases : (a b : Bool) → (a || b) ≡ true → (a ≡ true) ⊎ (b ≡ true)
or_cases true b e = inl refl
or_cases false b e = inr e

or_left : {a : Bool} (b : Bool) → a ≡ true → (a || b) ≡ true
or_left b e = ground (arith, e)

or_right : (a : Bool) {b : Bool} → b ≡ true → (a || b) ≡ true
or_right true e = refl
or_right false e = e

not_empty : (xs : List (ℕ × Option ℕ)) → not (is_empty xs) ≡ true → xs ≢ []
not_empty xs e f = ground (arith, e, f)

empty_not : (xs : List (ℕ × Option ℕ)) → xs ≢ [] → not (is_empty xs) ≡ true
empty_not [] f = absurd (f refl)
empty_not (x ∷ xs) f = refl

found_socket :
    (vs : List Handle)
    → any_socket_alive vs ≡ true
    → (v : Handle) × In v vs × (v.active ≡ true) × (v.referenced ≡ true)
found_socket [] e = absurd (ground (arith, e))
found_socket (v ∷ vs) e = elim (Bool-cases (alive v)) [
  | inl q ↦ (v, inl refl, ground (arith, q), ground (arith, q))
  | inr q ↦ let (u, i, a, r) = found_socket vs (ground (arith, e, q)) in (u, inr i, a, r)
]

socket_found :
    (v : Handle) (vs : List Handle) → In v vs → alive v ≡ true → any_socket_alive vs ≡ true
socket_found v [] i a = absurd i
socket_found v (u ∷ us) (inl e) a = or_left (any_socket_alive us) (ap alive e ∙ a)
socket_found v (u ∷ us) (inr i) a = or_right (alive u) (socket_found v us i a)

-- What keeps the loop alive.
abbrev pub KeepsAlive : List Handle → Loop → Type 0
KeepsAlive tcp_handles s =
    ((h : ℕ) × ((s.memory h).active ≡ true) × ((s.memory h).referenced ≡ true))
    ⊎ (((v : Handle) × In v tcp_handles × (v.active ≡ true) × (v.referenced ≡ true))
        ⊎ (s.closing_handles ≢ []))

module _ (tcp_handles : List Handle) (s : Loop) (w : WellFormed s) where
  abbrev m : ℕ → Handle
  m = s.memory

  found_alive : has_alive_handles tcp_handles s ≡ true → KeepsAlive tcp_handles s
  unfolding has_alive_handles
  found_alive e = elim (or_cases (any_timer_alive m s.timer_handles) _ e) [
    | inl a ↦ inl (any_timer_alive-IsAlive m s.timer_handles a)
    | inr r ↦ elim (or_cases (any_alive m (s.handles idle)) _ r) [
      | inl a ↦ inl (any_alive-IsAlive m (s.handles idle) a)
      | inr r ↦ elim (or_cases (any_alive m (s.handles prepare)) _ r) [
        | inl a ↦ inl (any_alive-IsAlive m (s.handles prepare) a)
        | inr r ↦ elim (or_cases (any_alive m (s.handles check)) _ r) [
          | inl a ↦ inl (any_alive-IsAlive m (s.handles check) a)
          | inr r ↦ elim (or_cases (any_socket_alive tcp_handles) _ r) [
            | inl a ↦ inr (inl (found_socket tcp_handles a))
            | inr r ↦ inr (inr (not_empty s.closing_handles r))
          ]
        ]
      ]
    ]
  ]

  kept_alive :
      (t : HandleType) (h : ℕ)
      → Kept t h s
      → alive (m h) ≡ true
      → has_alive_handles tcp_handles s ≡ true
  unfolding has_alive_handles
  kept_alive timer h k a = or_left _ (any_timer_alive_mem m (m h).internal_id h s.timer_handles k a)
  kept_alive (watcher idle) h k a =
      or_right (any_timer_alive m s.timer_handles)
        (or_left _ (any_alive_mem m h (s.handles idle) k a))
  kept_alive (watcher prepare) h k a = or_right (any_timer_alive m s.timer_handles) (
      or_right (any_alive m (s.handles idle))
        (or_left _ (any_alive_mem m h (s.handles prepare) k a)))
  kept_alive (watcher check) h k a = or_right (any_timer_alive m s.timer_handles) (
      or_right (any_alive m (s.handles idle)) (
        or_right (any_alive m (s.handles prepare))
          (or_left _ (any_alive_mem m h (s.handles check) k a))))
  kept_alive unknown h k a = absurd k
  kept_alive tcp h k a = absurd k

  keeps_alive : KeepsAlive tcp_handles s → has_alive_handles tcp_handles s ≡ true
  unfolding has_alive_handles
  keeps_alive (inl (h, a, r)) = kept_alive (m h).type h (w.registered h a) (ground (arith, a, r))
  keeps_alive (inr rest) = or_right (any_timer_alive m s.timer_handles) (
      or_right (any_alive m (s.handles idle)) (
        or_right (any_alive m (s.handles prepare)) (
          or_right (any_alive m (s.handles check)) (elim rest [
            | inl (v, i, a, r) ↦ or_left _ (socket_found v tcp_handles i (ground (arith, a, r)))
            | inr c ↦ or_right (any_socket_alive tcp_handles) (empty_not s.closing_handles c)
          ]))))

  -- In a well-formed loop has_alive_handles holds exactly when some handle of a timer or a
  -- watcher, at any address, is active and referenced, or some socket of the loop is, or a
  -- handle waits for its close callback.
  pub has_alive_handles_lem : (has_alive_handles tcp_handles s ≡ true) ↔ KeepsAlive tcp_handles s
  has_alive_handles_lem = (found_alive, keeps_alive)

-- The calls that a list of closing handles asks for.
abbrev pub close_calls : List (ℕ × Option ℕ) → List (ℕ × ℕ)
close_calls [] = []
close_calls ((h, cb) ∷ hs) = call_of cb h ++ close_calls hs

module _ (p : Program) (obeys : Obeys p) where
  pub call_some-calls :
      (cb : Option ℕ) (h : ℕ) (s : Loop)
      → WellFormed s
      → (call_some p cb h s).calls ≡ s.calls ++ call_of cb h
  unfolding call_some call
  call_some-calls none h s w = sym (append-nil s.calls)
  call_some-calls (some cb) h s w =
      (perform_all-Later (p cb h s) (log cb h s)
        (free-WellFormed s s.closing_handles s.now_ms (s.calls ++ (cb, h) ∷ []) w)
        (obeys cb h s w)).logged

  close_all-calls :
      (hs : List (ℕ × Option ℕ)) (s : Loop)
      → WellFormed s
      → (close_all p hs s).calls ≡ s.calls ++ close_calls hs
  unfolding close_all
  close_all-calls [] s w = sym (append-nil s.calls)
  close_all-calls ((h, cb) ∷ hs) s w =
      close_all-calls hs (call_some p cb h s) (call_some-WellFormed p obeys cb h s w)
      ∙ (ap (λ z. z ++ close_calls hs) (call_some-calls cb h s w)
          ∙ append_assoc s.calls (call_of cb h) (close_calls hs))

  run_close-calls_only :
      (s : Loop) → WellFormed s → (run_close p s).calls ≡ s.calls ++ close_calls s.closing_handles
  unfolding run_close
  run_close-calls_only s w =
      close_all-calls s.closing_handles (record s { closing_handles = [] })
        (free-WellFormed s [] s.now_ms s.calls w)

  -- In a loop that any calls of C code made of a well-formed one, if no handle was initialised
  -- while it was active and each function got a handle initialised for it, with callbacks that
  -- keep to the same, run_close calls the close callbacks of those handles that waited for
  -- theirs before, and then of those that the calls closed, in the order in which uv_close was
  -- called on them, and no others. The loop is well formed after it.
  pub run_close-calls :
      (as' : List Action) (s : Loop)
      → WellFormed s
      → AllSafe as' s
      → ((run_close p (perform_all as' s)).calls
          ≡ s.calls ++ close_calls (s.closing_handles ++ closed_by as'))
        × WellFormed (run_close p (perform_all as' s))
  run_close-calls as' s w safe =
      let w' = perform_all-WellFormed as' s w safe in
      (
        run_close-calls_only (perform_all as' s) w'
            ∙ ap₂ (λ cs hs. cs ++ close_calls hs) (perform_all-Later as' s w safe).logged
                (perform_all-closing as' s),
        run_close-WellFormed p obeys (perform_all as' s) w',
      )
