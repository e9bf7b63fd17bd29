-- ===== src/AsyncCell/Safety.antt =====
-- core/async_cell.rs: what the cell promises over any sequence of actions.
use deno_core.Common.{
  ℕ, suc, ◌+◌, ◌<◌, ◌≡◌, refl, ap, true, List, [], ◌∷◌, ◌++◌, Option, none, some, arith, ltb,
  length, take_at, inl, inr, Option-cases, Bool-cases, subst, ◌>>=◌,
}
use deno_core.AsyncCell.{
  BorrowMode, BorrowCount, Waiter, BorrowFuture, AsyncRefCell, System, Action, try_add, wake,
  wake_loop, wake_waiters, borrow_sync, poll_waiter, init, step,
}
use deno_core.AsyncCell.Queue.{is_shared, is_exclusive, granted, of_mode, Queued}
use deno_core.AsyncCell.Tally.{Tally, Blocked, held, Tally-eq}
use deno_core.AsyncCell.Moves.{poll_waiter-ready, poll_waiter-pending}
use deno_core.AsyncCell.Invariant.{Inv, init-Inv, step-Safe, good}

unfoldable pub run : System → List Action → Option System
run s [] = some s
run s (a ∷ acts) = step s a >>= λ t. run t acts

run-Inv : (acts : List Action) (s : System) → Inv s → (t : System) × (run s acts ≡ some t) × Inv t
unfolding run
run-Inv [] s v = (s, refl, v)
run-Inv (a ∷ acts) s v =
    let (t, e, w) = step-Safe s a v in let (u, d, x) = run-Inv acts t w in (u, ground arith, x)

-- No sequence of borrows, synchronous borrows, polls and drops on a new cell panics: no borrow
-- is removed that is not counted, no assertion of poll_waiter fails, and every entry of the
-- queue that is unwrapped is there.
pub run_never_panics : (acts : List Action) → (t : System) × (run init acts ≡ some t)
run_never_panics acts = let (t, e, _) = run-Inv acts init init-Inv in (t, e)

reached-Inv : (acts : List Action) (s : System) → run init acts ≡ some s → Inv s
reached-Inv acts s e = let (t, d, v) = run-Inv acts init init-Inv in subst Inv (ground arith) v

held_of_guards : (gs : List BorrowMode) → held is_shared gs + held is_exclusive gs ≡ length gs
held_of_guards [] = refl
held_of_guards (BorrowMode.shared ∷ gs) = omega (arith, held_of_guards gs)
held_of_guards (BorrowMode.exclusive ∷ gs) = omega (arith, held_of_guards gs)

alone : (b : BorrowCount) (s x : ℕ) → Tally b s x → 0 < x → (s ≡ 0) × (x ≡ 1)
alone (BorrowCount.shared n) s x t h = omega arith
alone BorrowCount.exclusive s x t h = omega arith

-- In every state that any sequence of actions on a new cell reaches, an exclusive guard is the
-- only guard, and no borrow is reserved for a future.
pub mutual_exclusion :
    (acts : List Action) (s : System)
    → run init acts ≡ some s
    → 0 < held is_exclusive s.guards
    → (length s.guards ≡ 1)
      × (granted is_shared s.cell.turn s.futures ≡ 0)
      × (granted is_exclusive s.cell.turn s.futures ≡ 0)
mutual_exclusion acts s e h =
    let v = reached-Inv acts s e in
    let (none_shared, one) = alone s.cell.borrow_count _ _ v.tallied (omega arith) in
    omega (arith, held_of_guards s.guards)

unblocked : (b : BorrowCount) (ws : List (Option Waiter)) → Tally b 0 0 → Blocked b ws → ws ≡ []
unfolding try_add
unblocked b [] t l = refl
unblocked b (none ∷ ws) t l = absurd l
unblocked b (some w ∷ ws) t l = absurd (ground arith)

-- In every reachable state without a guard and without a reserved borrow the queue of waiters is
-- empty: nobody waits for a free cell.
pub no_lost_wakeup :
    (acts : List Action) (s : System)
    → run init acts ≡ some s
    → s.guards ≡ []
    → granted is_shared s.cell.turn s.futures ≡ 0
    → granted is_exclusive s.cell.turn s.futures ≡ 0
    → s.cell.waiters ≡ []
no_lost_wakeup acts s e free unreserved_shared unreserved_exclusive =
    let v = reached-Inv acts s e in
    unblocked s.cell.borrow_count s.cell.waiters
      (Tally-eq s.cell.borrow_count v.tallied
        (omega (arith, unreserved_shared, ap (held is_shared) free))
        (omega (arith, unreserved_exclusive, ap (held is_exclusive) free)))
      v.blocked

-- In every reachable state, where a poll of one future is ready, a poll of any future with a
-- smaller id is ready too.
pub no_overtaking :
    (acts : List Action) (s : System)
    → run init acts ≡ some s
    → (i j k : ℕ) (f g : BorrowFuture) (fs gs : List BorrowFuture)
    → take_at i s.futures ≡ some (f, fs)
    → take_at j s.futures ≡ some (g, gs)
    → g.id < f.id
    → poll_waiter s.cell f.mode f.id k ≡ some (s.cell, true)
    → poll_waiter s.cell g.mode g.id k ≡ some (s.cell, true)
no_overtaking acts s e i j k f g fs gs at_i at_j earlier is_ready =
    let v = reached-Inv acts s e in
    elim (Bool-cases (ltb f.id s.cell.turn)) [
      | inl gone ↦
          (poll_waiter-ready s.cell j g s.futures gs s.guards at_j (good v) k (ground arith)).0
      | inr waits ↦
          let (c, pending, _) =
            poll_waiter-pending s.cell i f s.futures fs s.guards at_i (good v) k (ground arith) in
          absurd (ground arith)
    ]

refused :
    (b : BorrowCount) (ws : List (Option Waiter)) (turn : ℕ) (mode : BorrowMode)
    (fs : List BorrowFuture)
    → Queued fs turn ws
    → granted is_shared turn fs + granted is_exclusive turn fs
      < of_mode is_shared fs + of_mode is_exclusive fs
    → borrow_sync (record { borrow_count = b; waiters = ws; turn = turn }) mode ≡ none
unfolding borrow_sync
refused b [] turn mode fs q h = absurd (omega arith)
refused b (w ∷ ws) turn mode fs q h = refl

-- In every reachable state in which some future has no reserved borrow yet, a synchronous borrow
-- of either mode is refused.
pub borrow_sync_waits :
    (acts : List Action) (s : System)
    → run init acts ≡ some s
    → (mode : BorrowMode)
    → granted is_shared s.cell.turn s.futures + granted is_exclusive s.cell.turn s.futures
      < of_mode is_shared s.futures + of_mode is_exclusive s.futures
    → borrow_sync s.cell mode ≡ none
borrow_sync_waits acts s e mode waits =
    refused s.cell.borrow_count s.cell.waiters s.cell.turn mode s.futures
      (reached-Inv acts s e).queued waits

-- The wakers that are saved in a part of the queue, in order.
abbrev pub wakers : List (Option Waiter) → List ℕ
wakers [] = []
wakers (none ∷ ws) = wakers ws
wakers (some w ∷ ws) = wake w.waker (wakers ws)

wake_loop_split :
    (b : BorrowCount) (ws : List (Option Waiter)) (turn : ℕ)
    → (left : List (Option Waiter)) × (ws ≡ left ++ (wake_loop b ws turn).0.waiters)
      × ((wake_loop b ws turn).1 ≡ wakers left)
      × ((wake_loop b ws turn).0.turn ≡ turn + length left)
unfolding wake_loop
wake_loop_split b [] turn = ([], refl, refl, omega arith)
wake_loop_split b (none ∷ ws) turn =
    let (left, all, woken, on) = wake_loop_split b ws (suc turn) in
    (none ∷ left, ap (◌∷◌ none) all, woken, omega arith)
wake_loop_split b (some w ∷ ws) turn = elim (Option-cases (try_add b w.borrow_mode)) [
  | inl e ↦ ([], ground arith, ground arith, ground arith)
  | inr (b', e) ↦
      let (left, all, woken, on) = wake_loop_split b' ws (suc turn) in
      (
        some w ∷ left,
        rw (e, wake_loop) (ap (◌∷◌ (some w)) all),
        rw (e, wake_loop) (ap (wake w.waker) woken),
        ground arith,
      )
]

-- wake_waiters takes a part of the queue from its front, wakes exactly the wakers that are saved
-- there, in order, and moves turn on by the length of that part.
pub wake_waiters_wakes :
    (c : AsyncRefCell)
    → (left : List (Option Waiter)) × (c.waiters ≡ left ++ (wake_waiters c).0.waiters)
      × ((wake_waiters c).1 ≡ wakers left)
      × ((wake_waiters c).0.turn ≡ c.turn + length left)
unfolding wake_waiters
wake_waiters_wakes c = wake_loop_split c.borrow_count c.waiters c.turn
