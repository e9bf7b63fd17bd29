-- ===== src/AsyncCell/Invariant.antt =====
-- core/async_cell.rs: what holds of a cell, its futures and its guards between two operations.
use deno_core.Common.{
  ℕ, ◌≡◌, refl, List, ◌∷◌, ◌++◌, some, arith, ltb, take_at, inl, count-take_at, inr, Option-cases,
  Bool-cases,
}
use deno_core.AsyncCell.{BorrowMode, BorrowFuture, AsyncRefCell, borrow_sync, create_waiter}
use deno_core.AsyncCell.Queue.{is_shared, is_exclusive, Queued}
use deno_core.AsyncCell.{System, Action, step, init, new}
use deno_core.AsyncCell.Tally.{Blocked, Tallied, Good, Tally-eq}
use deno_core.AsyncCell.Moves.{
  borrow_sync-Good, drop_borrow-Good, create_waiter-Good, poll_waiter-ready, poll_waiter-pending,
  drop_waiter-Good,
}

pub record Inv (s : System) : Type 0 where
  pub tallied : Tallied s.cell s.futures s.guards
  pub queued : Queued s.futures s.cell.turn s.cell.waiters
  pub blocked : Blocked s.cell.borrow_count s.cell.waiters

pub init-Inv : Inv init
unfolding init new
init-Inv = record { tallied = (refl, refl); queued = (refl, refl); blocked = tt }

abbrev of_Good :
    (c : AsyncRefCell) (fs : List BorrowFuture) (gs : List BorrowMode) (ks : List ℕ)
    → Good c fs gs
    → Inv (record { cell = c; futures = fs; guards = gs; woken = ks })
of_Good c fs gs ks g = record { tallied = g.0; queued = g.1; blocked = g.2 }

abbrev pub good : {s : System} → Inv s → Good s.cell s.futures s.guards
good v = (v.tallied, v.queued, v.blocked)

-- The action succeeds, and the invariant holds after it.
abbrev pub Safe : System → Action → Type 0
Safe s a = (t : System) × (step s a ≡ some t) × Inv t

borrow-Safe : (s : System) (mode : BorrowMode) → Inv s → Safe s (Action.borrow mode)
unfolding step
borrow-Safe s mode v =
    let r = create_waiter s.cell mode in
    (
      _,
      refl,
      of_Good r.0 _ s.guards (r.1 ++ s.woken) (
          create_waiter-Good s.cell.borrow_count s.cell.waiters s.cell.turn mode s.futures s.guards
            (good v)),
    )

try_borrow-Safe : (s : System) (mode : BorrowMode) → Inv s → Safe s (Action.try_borrow mode)
unfolding step
try_borrow-Safe s mode v = elim (Option-cases (borrow_sync s.cell mode)) [
  | inl e ↦ (s, ground arith, v)
  | inr (c, e) ↦ (
    record s { cell = c; guards = mode ∷ s.guards },
    ground arith,
    of_Good c s.futures (mode ∷ s.guards) s.woken (
        borrow_sync-Good s.cell.borrow_count s.cell.waiters s.cell.turn c mode s.futures s.guards
          (good v) e),
  )
]

poll-Safe : (s : System) (i k : ℕ) → Inv s → Safe s (Action.poll i k)
unfolding step
poll-Safe s i k v = elim (Option-cases (take_at i s.futures)) [
  | inl e ↦ (s, ground arith, v)
  | inr ((f, rest), e) ↦ elim (Bool-cases (ltb f.id s.cell.turn)) [
    | inl gone ↦
        let (polled, g) =
          poll_waiter-ready s.cell i f s.futures rest s.guards e (good v) k (ground arith) in
        (
          record s { futures = rest; guards = f.mode ∷ s.guards },
          ground arith,
          of_Good s.cell rest (f.mode ∷ s.guards) s.woken g,
        )
    | inr waits ↦
        let (c, polled, g) =
          poll_waiter-pending s.cell i f s.futures rest s.guards e (good v) k (ground arith) in
        (record s { cell = c }, ground arith, of_Good c s.futures s.guards s.woken g)
  ]
]

drop_future-Safe : (s : System) (i : ℕ) → Inv s → Safe s (Action.drop_future i)
unfolding step
drop_future-Safe s i v = elim (Option-cases (take_at i s.futures)) [
  | inl e ↦ (s, ground arith, v)
  | inr ((f, rest), e) ↦
      let ((c, ks), dropped, g) = drop_waiter-Good s.cell i f s.futures rest s.guards e (good v) in
      (
        record s { cell = c; futures = rest; woken = ks ++ s.woken },
        ground arith,
        of_Good c rest s.guards (ks ++ s.woken) g,
      )
]

drop_guard-Safe : (s : System) (i : ℕ) → Inv s → Safe s (Action.drop_guard i)
unfolding step
drop_guard-Safe s i v = elim (Option-cases (take_at i s.guards)) [
  | inl e ↦ (s, ground arith, v)
  | inr ((mode, rest), e) ↦
      let ((c, ks), dropped, g) =
        drop_borrow-Good s.cell mode s.futures rest
          (Tally-eq s.cell.borrow_count v.tallied
            (omega (arith, count-take_at is_shared i s.guards mode rest e))
            (omega (arith, count-take_at is_exclusive i s.guards mode rest e)))
          v.queued v.blocked in
      (
        record s { cell = c; guards = rest; woken = ks ++ s.woken },
        ground arith,
        of_Good c s.futures rest (ks ++ s.woken) g,
      )
]

-- No action panics, and each keeps the invariant.
pub step-Safe : (s : System) (a : Action) → Inv s → Safe s a
step-Safe s (Action.borrow mode) v = borrow-Safe s mode v
step-Safe s (Action.try_borrow mode) v = try_borrow-Safe s mode v
step-Safe s (Action.poll i k) v = poll-Safe s i k v
step-Safe s (Action.drop_future i) v = drop_future-Safe s i v
step-Safe s (Action.drop_guard i) v = drop_guard-Safe s i v
