-- ===== src/Tasks/Laws.antt =====
-- core/tasks.rs: no task is lost, and an unset flag means an empty queue but for spawns under way.
use mathlib.Core.List.{append_assoc, append-nil}
use deno_core.Common.{
  ◌≤◌, ◌≡◌, ◌≢◌, refl, sym, ap, ◌∙◌, subst, ◌⊎◌, inl, inr, Bool, true, false, List, [], ◌∷◌, ◌++◌,
  some, bind_parts, some_value, decrement, arith,
}
use deno_core.Tasks.{
  Poller, idle, taking, registering, Spawner, Step, push, store, wake, poll_flag, poll_tasks,
  poll_register, new_spawner, has_pending_tasks, exchange, take_tasks, wake_waker, poll_step, step,
  run,
}

module _ {Task : Type 0} where
  -- The tasks that a run submits, in their order.
  abbrev pub submitted : List (Step Task) → List Task
  submitted [] = []
  submitted (push task ∷ steps) = task ∷ submitted steps
  submitted (store ∷ steps) = submitted steps
  submitted (wake ∷ steps) = submitted steps
  submitted (poll_flag ∷ steps) = submitted steps
  submitted (poll_tasks ∷ steps) = submitted steps
  submitted (poll_register ∷ steps) = submitted steps

  -- Queued tasks are announced by the flag, or a spawn or the poller is about to see to them.
  abbrev pub Announced : Spawner Task → Type 0
  Announced s = s.tasks ≢ [] → (s.has_tasks ≡ true) ⊎ ((1 ≤ s.storing) ⊎ (s.poller ≡ taking))

  abbrev pub Kept : Spawner Task → List Task → Spawner Task → Type 0
  Kept s new s' = Announced s' × (s'.delivered ++ s'.tasks ≡ (s.delivered ++ s.tasks) ++ new)

  exchange_lem :
      (s : Spawner Task) (b : Bool)
      → s.has_tasks ≡ b
      → s.poller ≡ idle
      → Announced s
      → Kept s [] (exchange s b)
  exchange_lem s true e p announced =
      (λ some_left. inr (inr refl), sym (append-nil (s.delivered ++ s.tasks)))
  exchange_lem s false e p announced = (
    λ some_left. elim (announced some_left) [
      | inl set ↦ absurd (ground (arith, sym e ∙ set))
      | inr (inl storing) ↦ inr (inl storing)
      | inr (inr busy) ↦ absurd (ground (arith, sym p ∙ busy))
    ],
    sym (append-nil (s.delivered ++ s.tasks)),
  )

  take_tasks_lem :
      (s : Spawner Task) (tasks : List Task) → s.tasks ≡ tasks → Kept s [] (take_tasks s tasks)
  take_tasks_lem s [] e =
      (λ some_left. absurd (some_left e), sym (append-nil (s.delivered ++ s.tasks)))
  take_tasks_lem s (task ∷ tasks) e = (
    λ some_left. absurd (some_left refl),
    append-nil (s.delivered ++ (task ∷ tasks))
        ∙ ap (λ ts. s.delivered ++ ts) (sym e)
        ∙ sym (append-nil (s.delivered ++ s.tasks)),
  )

  wake_waker_lem : (s : Spawner Task) (b : Bool) → Announced s → Kept s [] (wake_waker s b)
  wake_waker_lem s true announced = (announced, sym (append-nil (s.delivered ++ s.tasks)))
  wake_waker_lem s false announced = (announced, sym (append-nil (s.delivered ++ s.tasks)))

  poll_step_lem :
      (a : Step Task) (s : Spawner Task) (p : Poller) (s' : Spawner Task)
      → s.poller ≡ p
      → poll_step s p a ≡ some s'
      → Announced s
      → Kept s [] s'
  poll_step_lem poll_flag s idle s' at e announced =
      subst (Kept s []) (some_value e) (exchange_lem s s.has_tasks refl at announced)
  poll_step_lem poll_tasks s taking s' at e announced =
      subst (Kept s []) (some_value e) (take_tasks_lem s s.tasks refl)
  poll_step_lem poll_register s registering s' at e announced =
      subst (Kept s []) (some_value e) (not_taking, sym (append-nil (s.delivered ++ s.tasks)))
    where
      not_taking : Announced (record s { waker = true; poller = idle })
      not_taking some_left = elim (announced some_left) [
        | inl set ↦ inl set
        | inr (inl storing) ↦ inr (inl storing)
        | inr (inr busy) ↦ absurd (ground (arith, sym at ∙ busy))
      ]
  poll_step_lem poll_tasks s idle s' at e announced = absurd (ground (arith, e))
  poll_step_lem poll_register s idle s' at e announced = absurd (ground (arith, e))
  poll_step_lem poll_flag s taking s' at e announced = absurd (ground (arith, e))
  poll_step_lem poll_register s taking s' at e announced = absurd (ground (arith, e))
  poll_step_lem poll_flag s registering s' at e announced = absurd (ground (arith, e))
  poll_step_lem poll_tasks s registering s' at e announced = absurd (ground (arith, e))
  poll_step_lem (push task) s idle s' at e announced = absurd (ground (arith, e))
  poll_step_lem (push task) s taking s' at e announced = absurd (ground (arith, e))
  poll_step_lem (push task) s registering s' at e announced = absurd (ground (arith, e))
  poll_step_lem store s idle s' at e announced = absurd (ground (arith, e))
  poll_step_lem store s taking s' at e announced = absurd (ground (arith, e))
  poll_step_lem store s registering s' at e announced = absurd (ground (arith, e))
  poll_step_lem wake s idle s' at e announced = absurd (ground (arith, e))
  poll_step_lem wake s taking s' at e announced = absurd (ground (arith, e))
  poll_step_lem wake s registering s' at e announced = absurd (ground (arith, e))

  step_lem :
      (a : Step Task) (s s' : Spawner Task)
      → step a s ≡ some s'
      → Announced s
      → Kept s (submitted (a ∷ [])) s'
  unfolding step
  step_lem (push task) s s' e announced =
      subst (Kept s (task ∷ [])) (some_value e)
        (λ some_left. inr (inl (omega arith)), sym (append_assoc s.delivered s.tasks (task ∷ [])))
  step_lem store s s' e announced =
      let (n, _, e1) = bind_parts (decrement s.storing) _ s' e in
      subst (Kept s []) (some_value e1)
        (λ some_left. inl refl, sym (append-nil (s.delivered ++ s.tasks)))
  step_lem wake s s' e announced =
      let (n, _, e1) = bind_parts (decrement s.waking) _ s' e in
      subst (Kept s []) (some_value e1) (wake_waker_lem (record s { waking = n }) s.waker announced)
  step_lem poll_flag s s' e announced = poll_step_lem poll_flag s s.poller s' refl e announced
  step_lem poll_tasks s s' e announced = poll_step_lem poll_tasks s s.poller s' refl e announced
  step_lem poll_register s s' e announced =
      poll_step_lem poll_register s s.poller s' refl e announced

  submitted_cons :
      (a : Step Task) (steps : List (Step Task))
      → submitted (a ∷ []) ++ submitted steps ≡ submitted (a ∷ steps)
  submitted_cons (push task) steps = refl
  submitted_cons store steps = refl
  submitted_cons wake steps = refl
  submitted_cons poll_flag steps = refl
  submitted_cons poll_tasks steps = refl
  submitted_cons poll_register steps = refl

  run_lem :
      (steps : List (Step Task)) (s s' : Spawner Task)
      → run steps s ≡ some s'
      → Announced s
      → Kept s (submitted steps) s'
  unfolding run
  run_lem [] s s' e announced =
      subst (Kept s []) (some_value e) (announced, sym (append-nil (s.delivered ++ s.tasks)))
  run_lem (a ∷ steps) s s' e announced =
      let (t, e1, e2) = bind_parts (step a s) _ s' e in
      let (announced1, kept1) = step_lem a s t e1 announced in
      let (announced2, kept2) = run_lem steps t s' e2 announced1 in
      (
        announced2,
        kept2
            ∙ ap (λ ts. ts ++ submitted steps) kept1
            ∙ append_assoc (s.delivered ++ s.tasks) (submitted (a ∷ [])) (submitted steps)
            ∙ ap (λ ts. (s.delivered ++ s.tasks) ++ ts) (submitted_cons a steps),
      )

  -- After any interleaving of the steps of spawns and polls, from a new spawner on, the tasks
  -- that polls have returned and then those that are queued are all tasks that were pushed, each
  -- once and in the order in which they were pushed. If the flag is not set, no spawn is about
  -- to store it and the poller is not about to take the tasks, none is queued.
  pub spawner_keeps_tasks :
      (steps : List (Step Task)) (s : Spawner Task)
      → run steps new_spawner ≡ some s
      → (s.delivered ++ s.tasks ≡ submitted steps)
        × (has_pending_tasks s ≡ false → s.storing ≡ 0 → s.poller ≢ taking → s.tasks ≡ [])
  unfolding new_spawner has_pending_tasks
  spawner_keeps_tasks steps s e =
      let (announced, kept) =
        run_lem steps new_spawner s e (λ some_left. absurd (some_left refl)) in
      (
        kept,
        λ unset none_storing not_taking. empty s.tasks (λ some_left. elim (announced some_left) [
          | inl set ↦ ground (arith, sym unset ∙ set)
          | inr (inl storing) ↦ omega (arith, storing, none_storing)
          | inr (inr busy) ↦ not_taking busy
        ]),
      )
    where
      empty : (ts : List Task) → (ts ≢ [] → ⊥) → ts ≡ []
      empty [] h = refl
      empty (t ∷ ts) h = absurd (h (λ p. absurd (ground (arith, p))))
