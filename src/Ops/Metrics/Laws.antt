-- ===== src/Ops/Metrics/Laws.antt =====
-- core/ops_metrics.rs: the aggregate counts the events of all ops.
use deno_core.Common.{
  ℕ, ◌%◌, ◌^◌, ◌<◌, ◌≡◌, refl, sym, ap, ◌∙◌, subst, Bool, true, false, not, ◌&&◌, List, [], ◌∷◌,
  map, Option, some, if◌then◌else◌, ◌>>=◌, bind-some, length, length-set, get_elem?,
  get_elem?_of_lt, set, bit, arith,
}
use deno_core.Ops.{OpDecl}
use deno_core.Ops.Metrics.{
  OpMetricsEvent, dispatched, completed, completed_async, failed, failed_async, OpMetricsSource,
  slow, fast, async, OpMetricsSummary, default_summary, add_u64, add_summary, aggregate_from,
  aggregate, change_metrics, complete, count_fast, count_dispatch, count_completion, op_metrics_fn,
}
use deno_core.Ops.Metrics.Totals.{total, total-set, total_bound}

pub record Call : Type 0 where
  pub id : ℕ
  pub decl : OpDecl
  pub event : OpMetricsEvent
  pub source : OpMetricsSource

abbrev pub run_calls : List OpMetricsSummary → List Call → Option (List OpMetricsSummary)
run_calls ops [] = some ops
run_calls ops (c ∷ cs) =
    op_metrics_fn ops c.id c.decl c.event c.source >>= λ ops'. run_calls ops' cs

abbrev is_dispatch : OpMetricsEvent → Bool
is_dispatch dispatched = true
is_dispatch completed = false
is_dispatch completed_async = false
is_dispatch failed = false
is_dispatch failed_async = false

abbrev is_fast : OpMetricsSource → Bool
is_fast slow = false
is_fast fast = true
is_fast async = false

-- What one call adds to the counters.
abbrev pub adds : OpMetricsEvent → OpMetricsSource → Bool → OpMetricsSummary
adds event source is_async = record {
  ops_dispatched_sync = bit (is_dispatch event && not is_async);
  ops_dispatched_async = bit (is_dispatch event && is_async);
  ops_dispatched_fast = bit (is_dispatch event && is_fast source);
  ops_completed_async = bit (not (is_dispatch event) && is_async);
}

abbrev pub Below : ℕ → List Call → Type 0
Below n [] = Unit
Below n (c ∷ cs) = (c.id < n) × Below n cs

pub summary_ext :
    (a b : OpMetricsSummary)
    → a.ops_dispatched_sync ≡ b.ops_dispatched_sync
    → a.ops_dispatched_async ≡ b.ops_dispatched_async
    → a.ops_dispatched_fast ≡ b.ops_dispatched_fast
    → a.ops_completed_async ≡ b.ops_completed_async
    → a ≡ b
summary_ext a b e1 e2 e3 e4 = λ i. record {
  ops_dispatched_sync = e1 i;
  ops_dispatched_async = e2 i;
  ops_dispatched_fast = e3 i;
  ops_completed_async = e4 i;
}

-- Each counter of the aggregate is a total.
aggregate_totals :
    (sum : OpMetricsSummary) (ops : List OpMetricsSummary)
    → ((aggregate_from sum ops).ops_dispatched_sync
        ≡ total (λ m. m.ops_dispatched_sync) sum.ops_dispatched_sync ops)
      × ((aggregate_from sum ops).ops_dispatched_async
          ≡ total (λ m. m.ops_dispatched_async) sum.ops_dispatched_async ops)
      × ((aggregate_from sum ops).ops_dispatched_fast
          ≡ total (λ m. m.ops_dispatched_fast) sum.ops_dispatched_fast ops)
      × ((aggregate_from sum ops).ops_completed_async
          ≡ total (λ m. m.ops_completed_async) sum.ops_completed_async ops)
aggregate_totals sum [] = (refl, refl, refl, refl)
aggregate_totals sum (m ∷ ops) = aggregate_totals (add_summary sum m) ops

-- The summary `after` has what `before` has, and `k` more.
abbrev Grows : OpMetricsSummary → OpMetricsSummary → OpMetricsSummary → Type 0
Grows before after k =
    (after.ops_dispatched_sync % 2 ^ 64 ≡ add_u64 before.ops_dispatched_sync k.ops_dispatched_sync)
    × (after.ops_dispatched_async % 2 ^ 64
        ≡ add_u64 before.ops_dispatched_async k.ops_dispatched_async)
    × (after.ops_dispatched_fast % 2 ^ 64
        ≡ add_u64 before.ops_dispatched_fast k.ops_dispatched_fast)
    × (after.ops_completed_async % 2 ^ 64
        ≡ add_u64 before.ops_completed_async k.ops_completed_async)

aggregate-set :
    (ops : List OpMetricsSummary) (id : ℕ) (m m' k : OpMetricsSummary)
    → get_elem? ops id ≡ some m
    → Grows m m' k
    → aggregate (set ops id m') ≡ add_summary (aggregate ops) k
unfolding aggregate
aggregate-set ops id m m' k at (g1, g2, g3, g4) =
    let (a1, a2, a3, a4) = aggregate_totals default_summary (set ops id m') in
    let (b1, b2, b3, b4) = aggregate_totals default_summary ops in
    summary_ext (aggregate (set ops id m')) (add_summary (aggregate ops) k)
      (a1
        ∙ total-set (λ s. s.ops_dispatched_sync) 0 k.ops_dispatched_sync ops id m m' at g1
        ∙ ap (λ n. add_u64 n k.ops_dispatched_sync) (sym b1))
      (a2
        ∙ total-set (λ s. s.ops_dispatched_async) 0 k.ops_dispatched_async ops id m m' at g2
        ∙ ap (λ n. add_u64 n k.ops_dispatched_async) (sym b2))
      (a3
        ∙ total-set (λ s. s.ops_dispatched_fast) 0 k.ops_dispatched_fast ops id m m' at g3
        ∙ ap (λ n. add_u64 n k.ops_dispatched_fast) (sym b3))
      (a4
        ∙ total-set (λ s. s.ops_completed_async) 0 k.ops_completed_async ops id m m' at g4
        ∙ ap (λ n. add_u64 n k.ops_completed_async) (sym b4))

count_dispatch-Grows :
    (m : OpMetricsSummary) (source : OpMetricsSource) (is_async : Bool)
    → Grows m (count_dispatch is_async (count_fast source m)) (adds dispatched source is_async)
count_dispatch-Grows m slow true = (omega arith, omega arith, omega arith, omega arith)
count_dispatch-Grows m slow false = (omega arith, omega arith, omega arith, omega arith)
count_dispatch-Grows m fast true = (omega arith, omega arith, omega arith, omega arith)
count_dispatch-Grows m fast false = (omega arith, omega arith, omega arith, omega arith)
count_dispatch-Grows m async true = (omega arith, omega arith, omega arith, omega arith)
count_dispatch-Grows m async false = (omega arith, omega arith, omega arith, omega arith)

count_completion-Grows :
    (m : OpMetricsSummary) (source : OpMetricsSource)
    → Grows m (count_completion m) (adds completed source true)
count_completion-Grows m source = (omega arith, omega arith, omega arith, omega arith)

-- Adding nothing changes nothing, since the counters are below 2 ^ 64.
aggregate_idle :
    (ops : List OpMetricsSummary) (source : OpMetricsSource)
    → aggregate ops ≡ add_summary (aggregate ops) (adds completed source false)
unfolding aggregate
aggregate_idle ops source =
    let (b1, b2, b3, b4) = aggregate_totals default_summary ops in
    summary_ext (aggregate ops) (add_summary (aggregate ops) (adds completed source false))
      (omega (arith, b1, total_bound (λ s. s.ops_dispatched_sync) 0 ops (omega arith)))
      (omega (arith, b2, total_bound (λ s. s.ops_dispatched_async) 0 ops (omega arith)))
      (omega (arith, b3, total_bound (λ s. s.ops_dispatched_fast) 0 ops (omega arith)))
      (omega (arith, b4, total_bound (λ s. s.ops_completed_async) 0 ops (omega arith)))

abbrev Counts : List OpMetricsSummary → Option (List OpMetricsSummary) → OpMetricsSummary → Type 0
Counts ops result k =
    (ops' : List OpMetricsSummary) × (result ≡ some ops')
    × (length ops' ≡ length ops)
    × (aggregate ops' ≡ add_summary (aggregate ops) k)

change_metrics_lem :
    (ops : List OpMetricsSummary) (id : ℕ) (f : OpMetricsSummary → OpMetricsSummary)
    (k : OpMetricsSummary)
    → id < length ops
    → ((m : OpMetricsSummary) → Grows m (f m) k)
    → Counts ops (change_metrics ops id f) k
change_metrics_lem ops id f k below grows =
    let (m, at) = get_elem?_of_lt ops id below in
    (
      set ops id (f m),
      bind-some (λ m. some (set ops id (f m))) at,
      length-set ops id (f m),
      aggregate-set ops id m (f m) k at (grows m),
    )

complete_lem :
    (ops : List OpMetricsSummary) (id : ℕ) (decl : OpDecl) (source : OpMetricsSource)
    → id < length ops
    → Counts ops (complete ops id decl) (adds completed source decl.is_async)
complete_lem ops id decl source below = by_kind decl.is_async
  where
    by_kind :
        (is_async : Bool)
        → Counts ops
            (if is_async then change_metrics ops id count_completion else some ops)
            (adds completed source is_async)
    by_kind true =
        change_metrics_lem ops id count_completion (adds completed source true) below
          (λ m. count_completion-Grows m source)
    by_kind false = (ops, refl, refl, aggregate_idle ops source)

pub op_metrics_fn_lem :
    (ops : List OpMetricsSummary) (id : ℕ) (decl : OpDecl) (event : OpMetricsEvent)
    (source : OpMetricsSource)
    → id < length ops
    → Counts ops (op_metrics_fn ops id decl event source) (adds event source decl.is_async)
unfolding op_metrics_fn
op_metrics_fn_lem ops id decl dispatched source below =
    change_metrics_lem ops id (λ m. count_dispatch decl.is_async (count_fast source m))
      (adds dispatched source decl.is_async) below
      (λ m. count_dispatch-Grows m source decl.is_async)
op_metrics_fn_lem ops id decl completed source below = complete_lem ops id decl source below
op_metrics_fn_lem ops id decl completed_async source below = complete_lem ops id decl source below
op_metrics_fn_lem ops id decl failed source below = complete_lem ops id decl source below
op_metrics_fn_lem ops id decl failed_async source below = complete_lem ops id decl source below

-- A run of metrics events whose ids have a summary does not panic, keeps the number of
-- summaries, and changes the aggregate by what each event adds: a dispatch counts as synchronous
-- or asynchronous, and as fast if its source is; a completion or an error counts for an
-- asynchronous op. All modulo 2 ^ 64.
pub run_calls_lem :
    (ops : List OpMetricsSummary) (cs : List Call)
    → Below (length ops) cs
    → (ops' : List OpMetricsSummary) × (run_calls ops cs ≡ some ops')
      × (length ops' ≡ length ops)
      × (aggregate ops'
          ≡ aggregate_from (aggregate ops) (map (λ c. adds c.event c.source c.decl.is_async) cs))
run_calls_lem ops [] below = (ops, refl, refl, refl)
run_calls_lem ops (c ∷ cs) (below, rest) =
    let (ops', e, same, grown) = op_metrics_fn_lem ops c.id c.decl c.event c.source below in
    let (last, e', same', grown') =
      run_calls_lem ops' cs (subst (λ n. Below n cs) (sym same) rest) in
    (
      last,
      bind-some (λ o. run_calls o cs) e ∙ e',
      same' ∙ same,
      grown'
          ∙ ap (λ s. aggregate_from s (map (λ c. adds c.event c.source c.decl.is_async) cs)) grown,
    )
