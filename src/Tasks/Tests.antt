-- ===== src/Tasks/Tests.antt =====
-- Two tasks, the second of which is submitted between the two parts of a poll.
use deno_core.Common.{ℕ, ◌≡◌, ◌≢◌, refl, true, false, List, [], ◌∷◌, ◌++◌, some}
use deno_core.Tasks.{
  Spawner, Step, push, store, wake, poll_flag, poll_tasks, poll_register, taking, idle, new_spawner,
  has_pending_tasks, step, run,
}
use deno_core.Tasks.Laws.{submitted, spawner_keeps_tasks}

-- The second spawn wakes no one, since the poll registers its waker after it looked at the flag.
abbrev late_spawn : List (Step ℕ)
late_spawn =
    push 1
    ∷ store
    ∷ wake
    ∷ poll_flag
    ∷ poll_tasks
    ∷ poll_flag
    ∷ push 2
    ∷ store
    ∷ wake
    ∷ poll_register
    ∷ []

abbrev after_late_spawn : Spawner ℕ
after_late_spawn = record {
  tasks = 2 ∷ [];
  has_tasks = true;
  waker = true;
  storing = 0;
  waking = 0;
  poller = idle;
  delivered = 1 ∷ [];
  woken = false;
}

late_spawn-run : run late_spawn new_spawner ≡ some after_late_spawn
unfolding run step new_spawner
late_spawn-run = refl

spawner_keeps_tasks_example :
    (after_late_spawn.delivered ++ after_late_spawn.tasks ≡ submitted late_spawn)
    × (has_pending_tasks after_late_spawn ≡ false
        → after_late_spawn.storing ≡ 0
        → after_late_spawn.poller ≢ taking
        → after_late_spawn.tasks ≡ [])
spawner_keeps_tasks_example = spawner_keeps_tasks late_spawn after_late_spawn late_spawn-run
