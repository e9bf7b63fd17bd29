-- ===== src/AsyncCell.antt =====
-- core/async_cell.rs: the borrow count and the queue of waiters of an `AsyncRefCell`, its futures
-- and guards. The value in the cell plays no part in them and is left out. A waker is the number
-- of the task that it wakes; `usize` counters do not wrap, since each unit of them stands for a
-- live future or guard in memory.
pub mod Queue
pub mod Tally
pub mod Moves
pub mod Invariant
pub mod Safety
mod Tests
use deno_core.Common.{
  ℕ, zero, suc, ◌+◌, ◌-◌, ◌≡◌, Bool, true, false, ◌||◌, List, [], ◌∷◌, ◌++◌, Option, none, some,
  ltb, ◌==◌, if◌then◌else◌, length, get_elem?, set, take_at, assert, ◌>>=◌, ◌>>◌,
}

pub data BorrowMode : Type 0 where
  shared exclusive : BorrowMode

pub data BorrowCount : Type 0 where
  shared : ℕ → BorrowCount
  exclusive : BorrowCount

unfoldable pub is_empty : BorrowCount → Bool
is_empty (BorrowCount.shared zero) = true
is_empty _ = false

unfoldable pub try_add : BorrowCount → BorrowMode → Option BorrowCount
try_add (BorrowCount.shared refs) BorrowMode.shared = some (BorrowCount.shared (refs + 1))
try_add (BorrowCount.shared zero) BorrowMode.exclusive = some BorrowCount.exclusive
try_add _ _ = none

-- `remove` panics where `try_remove` has no result.
unfoldable pub try_remove : BorrowCount → BorrowMode → Option BorrowCount
try_remove (BorrowCount.shared (suc refs)) BorrowMode.shared = some (BorrowCount.shared refs)
try_remove BorrowCount.exclusive BorrowMode.exclusive = some (BorrowCount.shared 0)
try_remove _ _ = none

pub record Waiter : Type 0 where
  pub borrow_mode : BorrowMode
  pub waker : Option ℕ

-- A waker that would wake the same task is kept.
unfoldable pub set_waker : Waiter → ℕ → Waiter
set_waker w new_waker = elim w.waker [
  | some k ↦ if k == new_waker then w else record w { waker = some new_waker }
  | none ↦ record w { waker = some new_waker }
]

-- `none` in the queue is a hole, left by a waiter that was dropped.
pub record AsyncRefCell : Type 0 where
  pub borrow_count : BorrowCount
  pub waiters : List (Option Waiter)
  pub turn : ℕ

unfoldable pub new : AsyncRefCell
new = record { borrow_count = BorrowCount.shared 0; waiters = []; turn = 0 }

-- The wakers that are woken by an operation, in order.
abbrev pub wake : Option ℕ → List ℕ → List ℕ
wake none ks = ks
wake (some k) ks = k ∷ ks

-- The loop of `wake_waiters` over the queue.
unfoldable pub wake_loop : BorrowCount → List (Option Waiter) → ℕ → AsyncRefCell × List ℕ
wake_loop b [] turn = (record { borrow_count = b; waiters = []; turn = turn }, [])
wake_loop b (none ∷ ws) turn = wake_loop b ws (suc turn)
wake_loop b (some w ∷ ws) turn = elim (try_add b w.borrow_mode) [
  | none ↦ (record { borrow_count = b; waiters = some w ∷ ws; turn = turn }, [])
  | some b' ↦ let (c, ks) = wake_loop b' ws (suc turn) in (c, wake w.waker ks)
]

unfoldable pub wake_waiters : AsyncRefCell → AsyncRefCell × List ℕ
wake_waiters c = wake_loop c.borrow_count c.waiters c.turn

unfoldable pub borrow_sync : AsyncRefCell → BorrowMode → Option AsyncRefCell
borrow_sync c mode = elim c.waiters [
  | [] ↦ do b ← try_add c.borrow_count mode; some (record c { borrow_count = b })
  | _ ∷ _ ↦ none
]

unfoldable pub drop_borrow : AsyncRefCell → BorrowMode → Option (AsyncRefCell × List ℕ)
drop_borrow c mode = do
  b ← try_remove c.borrow_count mode
  let c' = record c { borrow_count = b }
  some (if is_empty b then wake_waiters c' else (c', []))

-- The cell, the wakers that are woken, and the id of the new waiter.
unfoldable pub create_waiter : AsyncRefCell → BorrowMode → AsyncRefCell × List ℕ × ℕ
create_waiter c mode =
    let waiter : Waiter = record { borrow_mode = mode; waker = none } in
    let index = length c.waiters in
    let c' = record c { waiters = c.waiters ++ some waiter ∷ [] } in
    if index == 0
    then (let (c'', ks) = wake_waiters c' in (c'', ks, c.turn + index))
    else (c', [], c.turn + index)

-- `.as_mut().unwrap()` on an entry of the queue.
abbrev pub entry : Option (Option Waiter) → Option Waiter
entry none = none
entry (some w) = w

abbrev pub is_none : Option BorrowCount → Bool
is_none none = true
is_none (some _) = false

-- `true` is `Poll::Ready`.
unfoldable pub poll_waiter : AsyncRefCell → BorrowMode → ℕ → ℕ → Option (AsyncRefCell × Bool)
poll_waiter c mode id waker =
    if ltb id c.turn then (do try_remove c.borrow_count mode; some (c, true)) else (do
      assert (ltb id (c.turn + length c.waiters))
      assert (ltb c.turn id || is_none (try_add c.borrow_count mode))
      w ← entry (get_elem? c.waiters (id - c.turn))
      some (record c { waiters = set c.waiters (id - c.turn) (some (set_waker w waker)) }, false))

-- The first half of `drop_waiter`: the reservation is given back, or a hole is left.
unfoldable pub leave_queue : AsyncRefCell → BorrowMode → ℕ → Option (AsyncRefCell × List ℕ)
leave_queue c mode id = if ltb id c.turn then drop_borrow c mode else (do
  entry (get_elem? c.waiters (id - c.turn))
  some (record c { waiters = set c.waiters (id - c.turn) none }, []))

unfoldable pub drop_waiter : AsyncRefCell → BorrowMode → ℕ → Option (AsyncRefCell × List ℕ)
drop_waiter c mode id = do
  (c', ks) ← leave_queue c mode id
  let (c'', ks') = wake_waiters c'
  some (if id == c.turn then (c'', ks ++ ks') else (c', ks))

-- `AsyncBorrowFutureImpl` while its `cell` is still there; `M` is a value here.
pub record BorrowFuture : Type 0 where
  pub id : ℕ
  pub mode : BorrowMode

-- A cell with the futures that are pending and the guards (`AsyncBorrowImpl`) that are live, and
-- all wakers that have been woken, the latest first.
pub record System : Type 0 where
  pub cell : AsyncRefCell
  pub futures : List BorrowFuture
  pub guards : List BorrowMode
  pub woken : List ℕ

unfoldable pub init : System
unfolding new
init = record { cell = new; futures = []; guards = []; woken = [] }

-- What the holders of the cell, its futures and its guards can do. Futures and guards are named by
-- their positions; a position that names none does nothing.
pub data Action : Type 0 where
  borrow try_borrow : BorrowMode → Action
  poll : ℕ → ℕ → Action
  drop_future drop_guard : ℕ → Action

-- `none` is a panic.
unfoldable pub step : System → Action → Option System
step s (borrow mode) =
    let (c, ks, id) = create_waiter s.cell mode in
    some (record s {
      cell = c;
      futures = record { id = id; mode = mode } ∷ s.futures;
      woken = ks ++ s.woken;
    })
step s (try_borrow mode) = elim (borrow_sync s.cell mode) [
  | none ↦ some s
  | some c ↦ some (record s { cell = c; guards = mode ∷ s.guards })
]
step s (poll i waker) = elim (take_at i s.futures) [
  | none ↦ some s
  | some (f, fs) ↦ do
    (c, is_ready) ← poll_waiter s.cell f.mode f.id waker
    some (
        if is_ready
        then record s { cell = c; futures = fs; guards = f.mode ∷ s.guards }
        else record s { cell = c })
]
step s (drop_future i) = elim (take_at i s.futures) [
  | none ↦ some s
  | some (f, fs) ↦ do
    (c, ks) ← drop_waiter s.cell f.mode f.id
    some (record s { cell = c; futures = fs; woken = ks ++ s.woken })
]
step s (drop_guard i) = elim (take_at i s.guards) [
  | none ↦ some s
  | some (mode, gs) ↦ do
    (c, ks) ← drop_borrow s.cell mode
    some (record s { cell = c; guards = gs; woken = ks ++ s.woken })
]
