-- ===== src/EventLoop/Progress.antt =====
-- When the event loop ends, waits or reports a stalled await.
use deno_core.Common.{
  ℕ, ◌<◌, ◌≡◌, ◌≢◌, ◌↔◌, ◌⊎◌, refl, inl, inr, Bool, true, false, ◌&&◌, ◌||◌, arith, Bool-cases,
  if_true, if_false, ap, sym, ◌∙◌,
}
use deno_core.EventLoop.{
  Sources, new, EventLoopPendingState, Inspection, Work, Verdict, ready, pending, stalled, failed,
  is_pending, finish, wakes, may_progress, check_dyn_modules, check_modules, needs_immediates,
  keep_going, conclude,
}

-- Something outside of the loop is awaited, which wakes it.
abbrev pub Awaits : EventLoopPendingState → Type 0
Awaits p =
    (p.has_pending_ops ≡ true)
    ⊎ ((p.has_pending_dyn_imports ≡ true)
        ⊎ ((p.has_pending_external_ops ≡ true) ⊎ (p.has_uv_alive_handles ≡ true)))

-- Nothing that the poll looks for can resolve the awaited module, or the dynamic imports have been
-- idle for two polls.
abbrev pub Stalls : EventLoopPendingState → ℕ → Type 0
Stalls p counter =
    (p.has_pending_ops ≡ false)
    × (p.has_pending_dyn_imports ≡ false)
    × (p.has_pending_background_tasks ≡ false)
    × (p.has_pending_external_ops ≡ false)
    × (p.has_tick_scheduled ≡ false)
    × (p.has_refed_immediates ≡ 0)
    × (((p.has_pending_module_evaluation ≡ true) × (p.has_pending_dyn_module_evaluation ≡ false))
        ⊎ ((p.has_pending_dyn_module_evaluation ≡ true) × (1 < counter)))

-- What is left to be decided after the immediates.
check_dyn-pending :
    (p : EventLoopPendingState) (v : Verdict)
    → p.has_pending_dyn_module_evaluation ≡ true
    → (check_dyn_modules p v).result ≡ pending
    → (may_progress p ≡ true) ⊎ ((check_dyn_modules p v).woken ≡ true)
unfolding check_dyn_modules
check_dyn-pending p v d e = elim (Bool-cases (may_progress p)) [
  | inl q ↦ inl q
  | inr q ↦ inr (ground (arith, d, e, q))
]

check_dyn-woken :
    (p : EventLoopPendingState) (v : Verdict)
    → v.woken ≡ true
    → (check_dyn_modules p v).woken ≡ true
unfolding check_dyn_modules
check_dyn-woken p v e = ground (arith, e)

check-woken :
    (p : EventLoopPendingState) (v : Verdict) → v.woken ≡ true → (check_modules p v).woken ≡ true
unfolding check_modules
check-woken p v e = ground (arith, e, check_dyn-woken p v e)

-- A module that is evaluated and does not stall can make progress, or wakes the loop.
check-pending :
    (p : EventLoopPendingState) (v : Verdict)
    → (p.has_pending_module_evaluation || p.has_pending_dyn_module_evaluation) ≡ true
    → (check_modules p v).result ≡ pending
    → (may_progress p ≡ true) ⊎ ((check_modules p v).woken ≡ true)
unfolding check_modules
check-pending p v d e = elim (Bool-cases (may_progress p)) [
  | inl q ↦ inl q
  | inr q ↦ inr (ground (arith, d, e, q, check_dyn-pending p v))
]

may_progress-Awaits :
    (w : Work) (p : EventLoopPendingState) → may_progress p ≡ true → (wakes w p ≡ true) ⊎ Awaits p
unfolding may_progress wakes
may_progress-Awaits w p e = ground (arith, e)

check-stalled :
    (p : EventLoopPendingState) (v : Verdict)
    → v.result ≡ pending
    → ((check_modules p v).result ≡ stalled) ↔ Stalls p v.idle_counter
unfolding check_modules check_dyn_modules may_progress
check-stalled p v e = (λ h. ground (arith, e, h), λ h. ground (arith, e, h))

-- The re-wake logic is kept by the checks.
keep_going-pending :
    (w : Work) (p : EventLoopPendingState) (counter : ℕ) (fail : Bool)
    → (keep_going w p counter fail).result ≡ pending
    → ((wakes w p ≡ true) → (keep_going w p counter fail).woken ≡ true)
      × ((p.has_pending_module_evaluation || p.has_pending_dyn_module_evaluation) ≡ true
          → ((keep_going w p counter fail).woken ≡ true) ⊎ Awaits p)
unfolding keep_going
keep_going-pending w p counter fail e =
    let v : Verdict = record {
      result = pending;
      woken = wakes w p;
      ran_immediates = needs_immediates w p;
      disconnected = false;
      idle_counter = counter;
    } in
    elim (Bool-cases (needs_immediates w p && fail)) [
      | inl q ↦ absurd (ground (arith, e, q))
      | inr q ↦
          let x = if_false (record v { result = failed; woken = false }) (check_modules p v) q in
          let woke =
            λ (r : wakes w p ≡ true). ap (λ (u : Verdict). u.woken) x ∙ check-woken p v r in
          (
            woke,
            λ d. elim (check-pending p v d (sym (ap (λ (u : Verdict). u.result) x) ∙ e)) [
              | inl m ↦ elim (may_progress-Awaits w p m) [ inl r ↦ inl (woke r) | inr r ↦ inr r ]
              | inr r ↦ inl (ap (λ (u : Verdict). u.woken) x ∙ r)
            ],
          )
    ]

-- What is pending is a module, wakes the loop, or is awaited.
pending_cases :
    (s : Sources) (w : Work)
    → is_pending (new s) ≡ true
    → (((new s).has_pending_module_evaluation || (new s).has_pending_dyn_module_evaluation) ≡ true)
      ⊎ ((wakes w (new s) ≡ true) ⊎ Awaits (new s))
unfolding new is_pending wakes
pending_cases s w e = ground (arith, e)

module _ (s : Sources) (i : Inspection) (w : Work) (counter : ℕ) (fail : Bool) where
  abbrev v : Verdict
  v = conclude i w (new s) counter fail

  -- If something is pending and a poll of the event loop ends with pending, it has woken the
  -- loop, or ops or timers, dynamic imports, external ops or handles of the uv loop are
  -- outstanding, for whatever the inspector, the work done and the counter of idle polls are.
  pub pending_makes_progress :
      is_pending (new s) ≡ true → v.result ≡ pending → (v.woken ≡ true) ⊎ Awaits (new s)
  unfolding conclude
  pending_makes_progress h e =
      let x = if_true (keep_going w (new s) counter fail) (finish i counter) h in
      let k =
        keep_going-pending w (new s) counter fail (sym (ap (λ (u : Verdict). u.result) x) ∙ e) in
      let at = λ (r : (keep_going w (new s) counter fail).woken ≡ true).
        ap (λ (u : Verdict). u.woken) x ∙ r in
      elim (pending_cases s w h) [
        | inl m ↦ elim (k.1 m) [ inl r ↦ inl (at r) | inr a ↦ inr a ]
        | inr (inl r) ↦ inl (at (k.0 r))
        | inr (inr a) ↦ inr a
      ]

Stalls-pending : (p : EventLoopPendingState) (counter : ℕ) → Stalls p counter → is_pending p ≡ true
unfolding is_pending
Stalls-pending p counter st = ground (arith, st)

module _ (i : Inspection) (w : Work) (p : EventLoopPendingState) (counter : ℕ) (fail : Bool)
    (runs : (needs_immediates w p && fail) ≡ false) where
  abbrev end : Verdict
  end = conclude i w p counter fail

  finish_ends : (finish i counter).result ≢ stalled
  unfolding finish
  finish_ends e = ground (arith, e)

  -- If the callbacks of immediates do not fail in this poll, the poll reports a stalled
  -- top-level await exactly when no op, timer, dynamic import, background task, external op,
  -- tick or referenced immediate is, and either a module is evaluated and no dynamically
  -- imported one, or a dynamically imported one is evaluated and the counter of idle polls is
  -- above 1. Handles of the uv loop and promise rejections do not count.
  pub stalled_iff : (end.result ≡ stalled) ↔ Stalls p counter
  unfolding conclude keep_going
  stalled_iff =
      let v : Verdict = record {
        result = pending;
        woken = wakes w p;
        ran_immediates = needs_immediates w p;
        disconnected = false;
        idle_counter = counter;
      } in
      let k = check-stalled p v refl in
      (
        λ e. elim (Bool-cases (is_pending p)) [
          | inl q ↦ k.0 (ground (arith, e, q, runs))
          | inr q ↦ absurd (finish_ends (ground (arith, e, q)))
        ],
        λ st. let r = k.1 st in let q = Stalls-pending p counter st in ground (arith, r, q, runs),
      )

  pub ready_iff : (end.result ≡ ready) ↔ (
      (is_pending p ≡ false)
      × ((i.has_inspector
            && (i.wait_for_inspector
                && (i.has_active && (i.has_blocking || i.has_nonblocking_wait_for_disconnect))))
          ≡ false))
  unfolding conclude finish keep_going check_modules check_dyn_modules
  ready_iff = (λ e. ground (arith, e, runs), λ e. ground (arith, e))
