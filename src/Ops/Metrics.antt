-- ===== src/Ops/Metrics.antt =====
-- core/ops_metrics.rs: the counters of the ops. The tracker is the vector of summaries that its
-- closures share; a metrics function is called with the id and the declaration of the context.
pub mod Totals
pub mod Laws
pub mod Tracked
use deno_core.Common.{
  ℕ, zero, suc, ◌+◌, ◌%◌, ◌^◌, ◌≡◌, Bool, true, false, List, [], ◌∷◌, ◌++◌, Option, none, some, ltb,
  if◌then◌else◌, ◌>>=◌, get_elem?, set,
}
use deno_core.Ops.{OpDecl, OpMetricsFactoryFn}

pub data OpMetricsEvent : Type 0 where
  dispatched completed completed_async failed failed_async : OpMetricsEvent

pub data OpMetricsSource : Type 0 where
  slow fast async : OpMetricsSource

abbrev pub OpMetricsFn : Type 0 → Type 0
OpMetricsFn S = S → ℕ → OpDecl → OpMetricsEvent → OpMetricsSource → Option S

module _ {S : Type 0} where
  abbrev pub both_fns : Option (OpMetricsFn S) → Option (OpMetricsFn S) → Option (OpMetricsFn S)
  both_fns none none = none
  both_fns (some a) none = some a
  both_fns none (some b) = some b
  both_fns (some a) (some b) =
      some (λ s id decl event source. a s id decl event source >>= λ s'. b s' id decl event source)

  unfoldable pub merge_op_metrics :
      OpMetricsFactoryFn S (OpMetricsFn S)
      → OpMetricsFactoryFn S (OpMetricsFn S)
      → OpMetricsFactoryFn S (OpMetricsFn S)
  merge_op_metrics fn1 fn2 s op count decl =
      let (s1, a) = fn1 s op count decl in let (s2, b) = fn2 s1 op count decl in (s2, both_fns a b)

pub record OpMetricsSummary : Type 0 where
  pub ops_dispatched_sync : ℕ
  pub ops_dispatched_async : ℕ
  pub ops_dispatched_fast : ℕ
  pub ops_completed_async : ℕ

abbrev pub default_summary : OpMetricsSummary
default_summary = record {
  ops_dispatched_sync = 0;
  ops_dispatched_async = 0;
  ops_dispatched_fast = 0;
  ops_completed_async = 0;
}

-- `+=` on `u64`
abbrev pub add_u64 : ℕ → ℕ → ℕ
add_u64 a b = (a + b) % 2 ^ 64

unfoldable pub has_outstanding_ops : OpMetricsSummary → Bool
has_outstanding_ops m = ltb m.ops_completed_async m.ops_dispatched_async

abbrev pub add_summary : OpMetricsSummary → OpMetricsSummary → OpMetricsSummary
add_summary sum metrics = record {
  ops_dispatched_sync = add_u64 sum.ops_dispatched_sync metrics.ops_dispatched_sync;
  ops_dispatched_async = add_u64 sum.ops_dispatched_async metrics.ops_dispatched_async;
  ops_dispatched_fast = add_u64 sum.ops_dispatched_fast metrics.ops_dispatched_fast;
  ops_completed_async = add_u64 sum.ops_completed_async metrics.ops_completed_async;
}

abbrev pub aggregate_from : OpMetricsSummary → List OpMetricsSummary → OpMetricsSummary
aggregate_from sum [] = sum
aggregate_from sum (metrics ∷ ops) = aggregate_from (add_summary sum metrics) ops

unfoldable pub aggregate : List OpMetricsSummary → OpMetricsSummary
aggregate ops = aggregate_from default_summary ops

-- `metrics_mut`, with what is done to the summary.
abbrev pub change_metrics :
    List OpMetricsSummary
    → ℕ
    → (OpMetricsSummary → OpMetricsSummary)
    → Option (List OpMetricsSummary)
change_metrics ops id f = get_elem? ops id >>= λ m. some (set ops id (f m))

abbrev pub count_fast : OpMetricsSource → OpMetricsSummary → OpMetricsSummary
count_fast slow m = m
count_fast async m = m
count_fast fast m = record m { ops_dispatched_fast = add_u64 m.ops_dispatched_fast 1 }

abbrev pub count_dispatch : Bool → OpMetricsSummary → OpMetricsSummary
count_dispatch true m = record m { ops_dispatched_async = add_u64 m.ops_dispatched_async 1 }
count_dispatch false m = record m { ops_dispatched_sync = add_u64 m.ops_dispatched_sync 1 }

abbrev pub count_completion : OpMetricsSummary → OpMetricsSummary
count_completion m = record m { ops_completed_async = add_u64 m.ops_completed_async 1 }

abbrev pub complete : List OpMetricsSummary → ℕ → OpDecl → Option (List OpMetricsSummary)
complete ops id decl = if decl.is_async then change_metrics ops id count_completion else some ops

unfoldable pub op_metrics_fn : OpMetricsFn (List OpMetricsSummary)
op_metrics_fn ops id decl dispatched source =
    change_metrics ops id (λ m. count_dispatch decl.is_async (count_fast source m))
op_metrics_fn ops id decl completed source = complete ops id decl
op_metrics_fn ops id decl completed_async source = complete ops id decl
op_metrics_fn ops id decl failed source = complete ops id decl
op_metrics_fn ops id decl failed_async source = complete ops id decl

unfoldable pub op_metrics_factory_fn :
    (OpDecl → Bool)
    → OpMetricsFactoryFn (List OpMetricsSummary) (OpMetricsFn (List OpMetricsSummary))
op_metrics_factory_fn op_enabled ops id total op =
    (ops ++ default_summary ∷ [], if op_enabled op then some op_metrics_fn else none)
