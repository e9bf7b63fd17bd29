-- ===== src/Tasks.antt =====
-- core/tasks.rs: V8TaskSpawnerFactory, the queue of tasks that threads submit to the event loop. One
-- step is one access to the shared state: spawning pushes under the lock, stores the flag and
-- wakes; polling exchanges the flag, and then takes the tasks or registers its waker.
pub mod Laws
mod Tests
use deno_core.Common.{
  ℕ, zero, suc, ◌+◌, ◌≡◌, Bool, true, false, List, [], ◌∷◌, ◌++◌, Option, none, some, ◌>>=◌,
  decrement,
}

-- What the polling thread is about to do.
pub data Poller : Type 0 where
  idle taking registering : Poller

-- `storing` and `waking` count the spawns that are about to store the flag and to wake; `delivered`
-- are the tasks that polls have returned; `woken` says that a waker was called.
pub record Spawner (Task : Type 0) : Type 0 where
  pub tasks : List Task
  pub has_tasks : Bool
  pub waker : Bool
  pub storing : ℕ
  pub waking : ℕ
  pub poller : Poller
  pub delivered : List Task
  pub woken : Bool

pub data Step (Task : Type 0) : Type 0 where
  push : Task → Step Task
  store wake poll_flag poll_tasks poll_register : Step Task

module _ {Task : Type 0} where
  unfoldable pub new_spawner : Spawner Task
  new_spawner = record {
    tasks = [];
    has_tasks = false;
    waker = false;
    storing = 0;
    waking = 0;
    poller = idle;
    delivered = [];
    woken = false;
  }

  unfoldable pub has_pending_tasks : Spawner Task → Bool
  has_pending_tasks s = s.has_tasks

  -- `compare_exchange(true, false)`
  abbrev pub exchange : Spawner Task → Bool → Spawner Task
  exchange s true = record s { has_tasks = false; poller = taking; woken = false }
  exchange s false = record s { poller = registering; woken = false }

  abbrev pub take_tasks : Spawner Task → List Task → Spawner Task
  take_tasks s [] = record s { poller = registering }
  take_tasks s (task ∷ tasks) = record s {
    tasks = [];
    poller = idle;
    delivered = s.delivered ++ (task ∷ tasks);
  }

  -- `AtomicWaker::wake` takes the waker that is registered.
  abbrev pub wake_waker : Spawner Task → Bool → Spawner Task
  wake_waker s true = record s { waker = false; woken = true }
  wake_waker s false = s

  -- The parts of `poll_inner`, each in its turn.
  abbrev pub poll_step : Spawner Task → Poller → Step Task → Option (Spawner Task)
  poll_step s idle poll_flag = some (exchange s s.has_tasks)
  poll_step s taking poll_tasks = some (take_tasks s s.tasks)
  poll_step s registering poll_register = some (record s { waker = true; poller = idle })
  poll_step s idle poll_tasks = none
  poll_step s idle poll_register = none
  poll_step s taking poll_flag = none
  poll_step s taking poll_register = none
  poll_step s registering poll_flag = none
  poll_step s registering poll_tasks = none
  poll_step s p (push task) = none
  poll_step s p store = none
  poll_step s p wake = none

  -- `none` is a step that is not possible.
  unfoldable pub step : Step Task → Spawner Task → Option (Spawner Task)
  step (push task) s = some (record s { tasks = s.tasks ++ task ∷ []; storing = s.storing + 1 })
  step store s = decrement s.storing >>= λ n.
      some (record s { storing = n; has_tasks = true; waking = s.waking + 1 })
  step wake s = decrement s.waking >>= λ n. some (wake_waker (record s { waking = n }) s.waker)
  step poll_flag s = poll_step s s.poller poll_flag
  step poll_tasks s = poll_step s s.poller poll_tasks
  step poll_register s = poll_step s s.poller poll_register

  unfoldable pub run : List (Step Task) → Spawner Task → Option (Spawner Task)
  run [] s = some s
  run (a ∷ steps) s = step a s >>= λ s'. run steps s'
