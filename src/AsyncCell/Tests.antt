-- ===== src/AsyncCell/Tests.antt =====
-- Runs of core/async_cell.rs, and the theorems at concrete inputs.
use deno_core.Common.{◌≡◌, refl, true, List, [], ◌∷◌, none, some, arith, length}
use deno_core.AsyncCell.{
  BorrowMode, BorrowCount, System, Action, try_add, try_remove, wake_loop, wake_waiters,
  borrow_sync, poll_waiter, create_waiter, drop_borrow, leave_queue, drop_waiter, set_waker,
  is_empty, new, init, step,
}
use deno_core.AsyncCell.Queue.{is_shared, is_exclusive, granted}
use deno_core.AsyncCell.Safety.{
  run, run_never_panics, mutual_exclusion, no_lost_wakeup, no_overtaking,
}

-- A shared guard, an exclusive future that waits with waker 7, and a shared one behind it.
abbrev contended : List Action
contended =
    Action.try_borrow BorrowMode.shared
    ∷ Action.borrow BorrowMode.exclusive
    ∷ Action.poll 0 7
    ∷ Action.borrow BorrowMode.shared
    ∷ []

abbrev waiting_system : System
waiting_system = record {
  cell = record {
    borrow_count = BorrowCount.shared 1;
    waiters =
        some (record { borrow_mode = BorrowMode.exclusive; waker = some 7 })
        ∷ some (record { borrow_mode = BorrowMode.shared; waker = none })
        ∷ [];
    turn = 0;
  };
  futures =
      record { id = 1; mode = BorrowMode.shared }
      ∷ record { id = 0; mode = BorrowMode.exclusive }
      ∷ [];
  guards = BorrowMode.shared ∷ [];
  woken = [];
}

contended_reaches : run init contended ≡ some waiting_system
unfolding run init new step borrow_sync create_waiter wake_waiters wake_loop try_add poll_waiter
    set_waker
contended_reaches = refl

-- The guard goes, the exclusive future is woken and picks its borrow up.
abbrev handed_over : List Action
handed_over =
    Action.try_borrow BorrowMode.shared
    ∷ Action.borrow BorrowMode.exclusive
    ∷ Action.poll 0 7
    ∷ Action.borrow BorrowMode.shared
    ∷ Action.drop_guard 0
    ∷ Action.poll 1 7
    ∷ []

abbrev exclusive_system : System
exclusive_system = record {
  cell = record {
    borrow_count = BorrowCount.exclusive;
    waiters = some (record { borrow_mode = BorrowMode.shared; waker = none }) ∷ [];
    turn = 1;
  };
  futures = record { id = 1; mode = BorrowMode.shared } ∷ [];
  guards = BorrowMode.exclusive ∷ [];
  woken = 7 ∷ [];
}

handed_over_reaches : run init handed_over ≡ some exclusive_system
unfolding run init new step borrow_sync create_waiter wake_waiters wake_loop try_add try_remove
    is_empty poll_waiter set_waker drop_borrow
handed_over_reaches = refl

run_never_panics_example : (t : System) × (run init handed_over ≡ some t)
run_never_panics_example = run_never_panics handed_over

mutual_exclusion_example :
    (length exclusive_system.guards ≡ 1)
    × (granted is_shared exclusive_system.cell.turn exclusive_system.futures ≡ 0)
    × (granted is_exclusive exclusive_system.cell.turn exclusive_system.futures ≡ 0)
mutual_exclusion_example =
    mutual_exclusion handed_over exclusive_system handed_over_reaches (omega arith)

-- All guards and futures are gone.
abbrev drained : List Action
drained =
    Action.try_borrow BorrowMode.shared
    ∷ Action.borrow BorrowMode.exclusive
    ∷ Action.drop_future 0
    ∷ Action.drop_guard 0
    ∷ []

abbrev idle_system : System
idle_system = record {
  cell = record { borrow_count = BorrowCount.shared 0; waiters = []; turn = 1 };
  futures = [];
  guards = [];
  woken = [];
}

drained_reaches : run init drained ≡ some idle_system
unfolding run init new step borrow_sync create_waiter wake_waiters wake_loop try_add try_remove
    is_empty drop_borrow drop_waiter leave_queue
drained_reaches = refl

no_lost_wakeup_example : idle_system.cell.waiters ≡ []
no_lost_wakeup_example = no_lost_wakeup drained idle_system drained_reaches refl refl refl

-- Two shared futures on a free cell.
abbrev two_shared : List Action
two_shared = Action.borrow BorrowMode.shared ∷ Action.borrow BorrowMode.shared ∷ []

abbrev shared_system : System
shared_system = record {
  cell = record { borrow_count = BorrowCount.shared 2; waiters = []; turn = 2 };
  futures =
      record { id = 1; mode = BorrowMode.shared }
      ∷ record { id = 0; mode = BorrowMode.shared }
      ∷ [];
  guards = [];
  woken = [];
}

two_shared_reaches : run init two_shared ≡ some shared_system
unfolding run init new step create_waiter wake_waiters wake_loop try_add
two_shared_reaches = refl

no_overtaking_example :
    poll_waiter shared_system.cell BorrowMode.shared 0 5 ≡ some (shared_system.cell, true)
unfolding poll_waiter try_remove
no_overtaking_example =
    no_overtaking two_shared shared_system two_shared_reaches 0 1 5
      (record { id = 1; mode = BorrowMode.shared }) (record { id = 0; mode = BorrowMode.shared }) _
      _ refl refl (omega arith) refl
