-- ===== src/AsyncCell/Moves.antt =====
-- core/async_cell.rs: each operation of the cell keeps the tally, the queue and the blocked front.
use deno_core.Common.{
  ℕ, suc, ◌+◌, ◌-◌, ◌≤◌, ◌<◌, ◌≡◌, refl, sym, true, false, List, [], ◌∷◌, ◌++◌, Option, none, some,
  arith, ltb, ◌==◌, if◌then◌else◌, length, get_elem?, set, take_at, subst, inl, inr, Option-cases,
  Bool-cases,
}
use deno_core.AsyncCell.{
  BorrowMode, BorrowCount, Waiter, BorrowFuture, AsyncRefCell, try_add, is_empty, wake_waiters,
  borrow_sync, drop_borrow, create_waiter, poll_waiter, leave_queue, drop_waiter, set_waker,
}
use deno_core.AsyncCell.Queue.{
  is_shared, is_exclusive, granted, granted-take_at, Queued, Queued-add, Queued-take_granted,
  Queued-take_waiting, entry_of_waiting, Queued-set_waker,
}
use deno_core.AsyncCell.Tally.{
  Tally, Blocked, held, Tallied, Good, Tally-add, Tally-remove, Tally-eq, wake_waiters-Good,
  still_Blocked, Blocked-front, Blocked-set_waker, Blocked-hole,
}

-- A synchronous borrow is only given while nobody waits.
pub borrow_sync-Good :
    (b : BorrowCount) (ws : List (Option Waiter)) (turn : ℕ) (c' : AsyncRefCell) (mode : BorrowMode)
    (fs : List BorrowFuture) (gs : List BorrowMode)
    → Good (record { borrow_count = b; waiters = ws; turn = turn }) fs gs
    → borrow_sync (record { borrow_count = b; waiters = ws; turn = turn }) mode ≡ some c'
    → Good c' fs (mode ∷ gs)
unfolding borrow_sync
borrow_sync-Good b (w ∷ ws) turn c' mode fs gs g e = absurd (ground arith)
borrow_sync-Good b [] turn c' mode fs gs g e = elim (Option-cases (try_add b mode)) [
  | inl refused ↦ absurd (ground arith)
  | inr (b', added) ↦
      subst (λ c. Good c fs (mode ∷ gs))
        (let same : record { borrow_count = b'; waiters = []; turn = turn } ≡ c' = ground arith in
          same)
        (Tally-eq b' (Tally-add b b' mode _ _ g.0 added) (omega arith) (omega arith), g.1, tt)
]

-- A borrow that ends. The queue is looked at again if it was the last one.
pub drop_borrow-Good :
    (c : AsyncRefCell) (mode : BorrowMode) (fs : List BorrowFuture) (gs : List BorrowMode)
    → Tally c.borrow_count
        (granted is_shared c.turn fs + held is_shared gs + (if is_shared mode then 1 else 0))
        (granted is_exclusive c.turn fs
          + held is_exclusive gs
          + (if is_exclusive mode then 1 else 0))
    → Queued fs c.turn c.waiters
    → Blocked c.borrow_count c.waiters
    → (r : AsyncRefCell × List ℕ) × (drop_borrow c mode ≡ some r) × Good r.0 fs gs
unfolding drop_borrow
drop_borrow-Good c mode fs gs t q bl =
    let (b, e, t') = Tally-remove c.borrow_count mode _ _ t in
    elim (Bool-cases (is_empty b)) [
      | inl last ↦ (
        wake_waiters (record c { borrow_count = b }),
        rw (e, last) refl,
        wake_waiters-Good (record c { borrow_count = b }) fs gs t' q,
      )
      | inr more ↦ (
        (record c { borrow_count = b }, []),
        rw (e, more) refl,
        (t', q, still_Blocked c.borrow_count b mode c.waiters e more bl),
      )
    ]

Tallied-wait :
    (b : BorrowCount) (turn : ℕ) (f : BorrowFuture) (fs : List BorrowFuture) (gs : List BorrowMode)
    → turn ≤ f.id
    → Tallied (record { borrow_count = b; waiters = []; turn = turn }) fs gs
    → Tallied (record { borrow_count = b; waiters = []; turn = turn }) (f ∷ fs) gs
Tallied-wait b turn f fs gs le t = Tally-eq b t (ground arith) (ground arith)

-- Behind a waiter a new one only joins the queue.
create_waiter_behind :
    (b : BorrowCount) (w : Waiter) (ws : List (Option Waiter)) (turn : ℕ) (mode : BorrowMode)
    → create_waiter (record { borrow_count = b; waiters = some w ∷ ws; turn = turn }) mode ≡ (
      record {
        borrow_count = b;
        waiters = (some w ∷ ws) ++ some (record { borrow_mode = mode; waker = none }) ∷ [];
        turn = turn;
      },
      [],
      turn + suc (length ws),
    )
unfolding create_waiter
create_waiter_behind b w ws turn mode = ground arith

pub create_waiter-Good :
    (b : BorrowCount) (ws : List (Option Waiter)) (turn : ℕ) (mode : BorrowMode)
    (fs : List BorrowFuture) (gs : List BorrowMode)
    → Good (record { borrow_count = b; waiters = ws; turn = turn }) fs gs
    → let (c', ks, id) =
        create_waiter (record { borrow_count = b; waiters = ws; turn = turn }) mode in
      Good c' (record { id = id; mode = mode } ∷ fs) gs
unfolding create_waiter
create_waiter-Good b [] turn mode fs gs g =
    wake_waiters-Good _ (record { id = turn + 0; mode = mode } ∷ fs) gs
      (Tallied-wait b turn (record { id = turn + 0; mode = mode }) fs gs (omega arith) g.0)
      (Queued-add fs turn [] _ (record { borrow_mode = mode; waker = none }) g.1 refl refl)
create_waiter-Good b (none ∷ ws) turn mode fs gs g = absurd g.2
create_waiter-Good b (some w ∷ ws) turn mode fs gs g =
    subst (λ r. Good r.0 (record { id = r.2; mode = mode } ∷ fs) gs)
      (sym (create_waiter_behind b w ws turn mode))
      (
        Tallied-wait b turn (record { id = turn + suc (length ws); mode = mode }) fs gs
            (omega arith) g.0,
        Queued-add fs turn (some w ∷ ws) (record { id = turn + suc (length ws); mode = mode })
            (record { borrow_mode = mode; waker = none }) g.1 refl refl,
        g.2,
      )

module _ (c : AsyncRefCell) (i : ℕ) (f : BorrowFuture) (fs rest : List BorrowFuture)
    (gs : List BorrowMode) (h : take_at i fs ≡ some (f, rest)) (g : Good c fs gs) where
  -- A reserved borrow is among those that are counted.
  Tally-reserved :
      f.id < c.turn
      → Tally c.borrow_count
          (granted is_shared c.turn rest + held is_shared gs + (if is_shared f.mode then 1 else 0))
          (granted is_exclusive c.turn rest
            + held is_exclusive gs
            + (if is_exclusive f.mode then 1 else 0))
  Tally-reserved lt =
      Tally-eq c.borrow_count g.0 (ground (arith, granted-take_at i fs f rest h is_shared c.turn))
        (ground (arith, granted-take_at i fs f rest h is_exclusive c.turn))

  Tallied-pick : f.id < c.turn → Tallied c rest (f.mode ∷ gs)
  Tallied-pick lt = Tally-eq c.borrow_count (Tally-reserved lt) (omega arith) (omega arith)

  Tallied-leave : c.turn ≤ f.id → Tallied c rest gs
  Tallied-leave le =
      Tally-eq c.borrow_count g.0 (ground (arith, granted-take_at i fs f rest h is_shared c.turn))
        (ground (arith, granted-take_at i fs f rest h is_exclusive c.turn))

  -- The waiter of a future that still waits.
  waiting :
      c.turn ≤ f.id
      → (w : Waiter) × (get_elem? c.waiters (f.id - c.turn) ≡ some (some w))
        × (w.borrow_mode ≡ f.mode)
        × (f.id - c.turn < length c.waiters)
  waiting le = entry_of_waiting i fs f rest h (f.id - c.turn) c.turn c.waiters g.1 (omega arith)

  pub poll_waiter-ready :
      (k : ℕ)
      → f.id < c.turn
      → (poll_waiter c f.mode f.id k ≡ some (c, true)) × Good c rest (f.mode ∷ gs)
  unfolding poll_waiter
  poll_waiter-ready k lt =
      let (b, e, _) = Tally-remove c.borrow_count f.mode _ _ (Tally-reserved lt) in
      (
        ground arith,
        (Tallied-pick lt, Queued-take_granted i fs f rest h c.turn c.waiters g.1 lt, g.2),
      )

  -- At the front of the queue the waiter is blocked.
  front_blocked :
      (w : Waiter)
      → get_elem? c.waiters (f.id - c.turn) ≡ some (some w)
      → f.id ≡ c.turn
      → try_add c.borrow_count w.borrow_mode ≡ none
  front_blocked w found e =
      Blocked-front c.borrow_count c.waiters w
        (let at : f.id - c.turn ≡ 0 = omega arith in rw at at found) g.2

  pub poll_waiter-pending :
      (k : ℕ)
      → c.turn ≤ f.id
      → (c' : AsyncRefCell) × (poll_waiter c f.mode f.id k ≡ some (c', false)) × Good c' fs gs
  unfolding poll_waiter set_waker
  poll_waiter-pending k le =
      let (w, found, mode, lt) = waiting le in
      (
        record c { waiters = set c.waiters (f.id - c.turn) (some (set_waker w k)) },
        ground (arith, front_blocked w found),
        (
          g.0,
          Queued-set_waker fs (f.id - c.turn) c.turn c.waiters w (set_waker w k) g.1 found
              (ground arith),
          Blocked-set_waker c.borrow_count c.waiters (f.id - c.turn) w (set_waker w k) found
              (ground arith) g.2,
        ),
      )

  -- A future that is dropped gives its reservation back, or leaves the queue.
  pub drop_waiter-Good :
      (r : AsyncRefCell × List ℕ) × (drop_waiter c f.mode f.id ≡ some r) × Good r.0 rest gs
  unfolding drop_waiter leave_queue
  drop_waiter-Good = elim (Bool-cases (ltb f.id c.turn)) [
    | inl gone ↦
        let ((c', ks), e, g') =
          drop_borrow-Good c f.mode rest gs (Tally-reserved (ground arith))
            (Queued-take_granted i fs f rest h c.turn c.waiters g.1 (ground arith)) g.2 in
        ((c', ks), ground arith, g')
    | inr waits ↦
        let (w, found, mode, lt) = waiting (ground arith) in
        let holed : AsyncRefCell = record c { waiters = set c.waiters (f.id - c.turn) none } in
        let queued : Queued rest c.turn holed.waiters =
          Queued-take_waiting i fs f rest h (f.id - c.turn) c.turn c.waiters g.1 (ground arith) in
        elim (Bool-cases (f.id == c.turn)) [
          | inl front ↦ (
            ((wake_waiters holed).0, [] ++ (wake_waiters holed).1),
            ground arith,
            wake_waiters-Good holed rest gs (Tallied-leave (ground arith)) queued,
          )
          | inr behind ↦ (
            (holed, []),
            ground arith,
            (
              Tallied-leave (ground arith),
              queued,
              Blocked-hole c.borrow_count c.waiters (f.id - c.turn) (ground arith) g.2,
            ),
          )
        ]
  ]
