-- ===== src/EventLoop/Ops.antt =====
-- core/runtime/jsruntime.rs: dispatch_pending_ops and dispatch_task_spawner, the loops of a poll over
-- completed ops and spawned tasks.
use deno_core.Common.{
  ℕ, suc, ◌+◌, ◌*◌, ◌≤◌, ◌≡◌, refl, sym, ap, ◌∙◌, inl, inr, Bool, true, false, List, [], ◌∷◌, ◌++◌,
  ◌⊎◌, subst, leb, ◌==◌, if◌then◌else◌, arith, length, length-append, Bool-cases, if_true, if_false,
}
use mathlib.Core.List.{append-nil, append_assoc}

-- An op that the driver has completed: its promise, its op, and the value that it resolves to or the
-- error that it is rejected with.
pub record Completed (V : Type 0) : Type 0 where
  pub promise_id : ℕ
  pub op : ℕ
  pub is_ok : Bool
  pub value : V

-- An argument of the JavaScript function that resolves ops.
pub data Arg (V : Type 0) : Type 0 where
  id : ℕ → Arg V
  flag : Bool → Arg V
  result : V → Arg V

-- `queue` are the ops that poll_ready will return, `events` the metrics that were dispatched, as ops
-- with whether they completed.
pub record Dispatch (V : Type 0) : Type 0 where
  pub queue : List (Completed V)
  pub unrefed_ops : List ℕ
  pub args : List (Arg V)
  pub events : List (ℕ × Bool)
  pub woken : Bool

abbrev pub remove_id : ℕ → List ℕ → List ℕ
remove_id i [] = []
remove_id i (j ∷ js) = let rest = remove_id i js in if i == j then rest else j ∷ rest

-- What the call of the function that resolves ops comes to.
pub data Outcome : Type 0 where
  returned threw terminated : Outcome

pub data Dispatched : Type 0 where
  dispatched : Bool → Dispatched
  error : Dispatched

abbrev pub after_call : Outcome → Dispatched
after_call returned = dispatched true
after_call threw = error
after_call terminated = dispatched false

-- Three arguments for each op.
args_limit : (n k : ℕ) → n ≡ 3 * k → leb 1024 n ≡ leb 342 k
args_limit n k e = ground (arith, e)

module _ {V : Type 0} (metrics_enabled : ℕ → Bool) where
  abbrev pub event_of : Completed V → List (ℕ × Bool)
  event_of c = if metrics_enabled c.op then (c.op, c.is_ok) ∷ [] else []

  abbrev pub args_of : Completed V → List (Arg V)
  args_of c = id c.promise_id ∷ flag c.is_ok ∷ result c.value ∷ []

  -- One round, for the op that poll_ready returns.
  abbrev pub accept : Completed V → List (Completed V) → Dispatch V → Dispatch V
  accept c cs d = record d {
    queue = cs;
    unrefed_ops = remove_id c.promise_id d.unrefed_ops;
    args = d.args ++ args_of c;
    events = d.events ++ event_of c;
  }

  -- The loop, over the ops that are ready: MAX_VEC_SIZE_FOR_OPS is 1024.
  unfoldable pub drain : List (Completed V) → Dispatch V → Dispatch V
  drain [] d = if leb 1024 (length d.args) then record d { woken = true } else d
  drain (c ∷ cs) d =
      let rest = drain cs (accept c cs d) in
      if leb 1024 (length d.args) then record d { woken = true } else rest

  abbrev pub is_empty : List (Arg V) → Bool
  is_empty [] = true
  is_empty (a ∷ as') = false

  unfoldable pub dispatch_pending_ops :
      List ℕ → List (Completed V) → (List (Arg V) → Outcome) → Dispatch V × Dispatched
  dispatch_pending_ops unrefed_ops queue resolve_ops =
      let start : Dispatch V = record {
        queue = queue;
        unrefed_ops = unrefed_ops;
        args = [];
        events = [];
        woken = false;
      } in
      let d = drain queue start in
      (d, if is_empty d.args then dispatched false else after_call (resolve_ops d.args))

  -- What the ops of a list leave, from a state on.
  abbrev pub remove_ids : List (Completed V) → List ℕ → List ℕ
  remove_ids [] is = is
  remove_ids (c ∷ cs) is = remove_ids cs (remove_id c.promise_id is)

  abbrev pub all_args : List (Completed V) → List (Arg V)
  all_args [] = []
  all_args (c ∷ cs) = args_of c ++ all_args cs

  abbrev pub all_events : List (Completed V) → List (ℕ × Bool)
  all_events [] = []
  all_events (c ∷ cs) = event_of c ++ all_events cs

  -- The loop has taken `done` from the queue, and stopped for the number of its arguments or because
  -- nothing more was ready.
  pub record Drained (k : ℕ) (queue : List (Completed V)) (d e : Dispatch V) : Type 0 where
    pub done : List (Completed V)
    pub rest : List (Completed V)
    pub parts : queue ≡ done ++ rest
    pub left : e.queue ≡ rest
    pub args_eq : e.args ≡ d.args ++ all_args done
    pub unrefed_eq : e.unrefed_ops ≡ remove_ids done d.unrefed_ops
    pub events_eq : e.events ≡ d.events ++ all_events done
    pub at_most : length done + k ≤ 342
    pub all_taken : (rest ≡ []) ⊎ (length done + k ≡ 342)
    pub woken_eq : e.woken ≡ (length done + k == 342)

  stopped :
      (k : ℕ) (queue : List (Completed V)) (d : Dispatch V)
      → d.queue ≡ queue
      → d.woken ≡ false
      → k ≤ 342
      → (queue ≡ []) ⊎ (k ≡ 342)
      → Drained k queue d (if leb 342 k then record d { woken = true } else d)
  stopped k queue d q off le end = record {
    done = [];
    rest = queue;
    parts = refl;
    left = ground (arith, q);
    args_eq = ground (arith, append-nil d.args);
    unrefed_eq = ground arith;
    events_eq = ground (arith, append-nil d.events);
    at_most = omega arith;
    all_taken = elim end [ inl e ↦ inl e | inr e ↦ inr (omega (arith, e)) ];
    woken_eq = ground (arith, off, le);
  }

  drain-Drained :
      (queue : List (Completed V)) (k : ℕ) (d : Dispatch V)
      → d.queue ≡ queue
      → d.woken ≡ false
      → length d.args ≡ 3 * k
      → k ≤ 342
      → Drained k queue d (drain queue d)
  unfolding drain
  drain-Drained [] k d q off n le =
      subst (λ (b : Bool). Drained k [] d (if b then record d { woken = true } else d))
        (sym (args_limit (length d.args) k n)) (stopped k [] d q off le (inl refl))
  drain-Drained (c ∷ cs) k d q off n le =
      let next = accept c cs d in
      let full = record d { woken = true } in
      elim (Bool-cases (leb 342 k)) [
        | inl b ↦
            subst (Drained k (c ∷ cs) d)
              (if_true full d b
                ∙ sym (if_true full (drain cs next) (args_limit (length d.args) k n ∙ b)))
              (stopped k (c ∷ cs) d q off le (inr (ground (arith, b, le))))
        | inr b ↦
            let r =
              drain-Drained cs (suc k) next refl off
                (omega (arith, n, length-append d.args (args_of c))) (ground (arith, b)) in
            subst (Drained k (c ∷ cs) d)
              (sym (if_false full (drain cs next) (args_limit (length d.args) k n ∙ b)))
              (record {
                done = c ∷ r.done;
                rest = r.rest;
                parts = ap (λ z. c ∷ z) r.parts;
                left = r.left;
                args_eq = r.args_eq ∙ append_assoc d.args (args_of c) (all_args r.done);
                unrefed_eq = r.unrefed_eq;
                events_eq = r.events_eq ∙ append_assoc d.events (event_of c) (all_events r.done);
                at_most = omega (arith, r.at_most);
                all_taken = elim r.all_taken [ inl e ↦ inl e | inr e ↦ inr (omega (arith, e)) ];
                woken_eq =
                    r.woken_eq
                    ∙ ap (λ (z : ℕ). z == 342) {y = suc (length r.done) + k} (omega arith);
              })
      ]

  no_args : (done : List (Completed V)) → is_empty (all_args done) ≡ (length done == 0)
  no_args [] = refl
  no_args (c ∷ cs) = ground arith

  outcome :
      (done : List (Completed V)) (args : List (Arg V)) (resolve_ops : List (Arg V) → Outcome)
      → args ≡ all_args done
      → (if is_empty args then dispatched false else after_call (resolve_ops args))
        ≡ (if length done == 0 then dispatched false else after_call (resolve_ops (all_args done)))
  outcome done args f e =
      ap (λ z. if is_empty z then dispatched false else after_call (f z)) e
      ∙ ap (λ b. if b then dispatched false else after_call (f (all_args done))) (no_args done)

  -- A dispatch takes the first ops that are ready, all of them or 342 if there are as many,
  -- removes their promises from the unreferenced ones, and hands their ids, flags and values
  -- over in order, with one event for each op that has metrics; the others stay queued, and the
  -- loop is woken exactly when 342 were taken. The result is that of the call, or false without
  -- a call if nothing was ready.
  pub dispatch_pending_ops_lem :
      (unrefed_ops : List ℕ) (queue : List (Completed V)) (resolve_ops : List (Arg V) → Outcome)
      → (done rest : List (Completed V)) × (queue ≡ done ++ rest)
        × ((rest ≡ []) ⊎ (length done ≡ 342))
        × (length done ≤ 342)
        × ((dispatch_pending_ops unrefed_ops queue resolve_ops).0 ≡ record {
          queue = rest;
          unrefed_ops = remove_ids done unrefed_ops;
          args = all_args done;
          events = all_events done;
          woken = length done == 342;
        })
        × ((dispatch_pending_ops unrefed_ops queue resolve_ops).1 ≡ (
            if length done == 0
            then dispatched false
            else after_call (resolve_ops (all_args done))))
  unfolding dispatch_pending_ops
  dispatch_pending_ops_lem unrefed_ops queue resolve_ops =
      let start : Dispatch V = record {
        queue = queue;
        unrefed_ops = unrefed_ops;
        args = [];
        events = [];
        woken = false;
      } in
      let r = drain-Drained queue 0 start refl refl (omega arith) (omega arith) in
      (
        r.done,
        r.rest,
        r.parts,
        elim r.all_taken [ inl e ↦ inl e | inr e ↦ inr (omega (arith, e)) ],
        omega (arith, r.at_most),
        ground (arith, r.left, r.args_eq, r.unrefed_eq, r.events_eq, r.woken_eq),
        outcome r.done (drain queue start).args resolve_ops r.args_eq,
      )
