-- ===== src/Ops/Metrics/Tracked.antt =====
-- core/ops_metrics.rs and core/extension_set.rs: the tracker has a summary for each context.
use deno_core.Common.{ℕ, ◌+◌, ◌≡◌, Bool, List, Option, some, length}
use deno_core.Ops.{OpDecl, OpCtx, OpMetricsFactoryFn}
use deno_core.Ops.Metrics.{OpMetricsSummary, OpMetricsFn, op_metrics_factory_fn}

abbrev Tracker : Type 0
Tracker = List OpMetricsSummary

module _ (enabled : OpDecl → Bool) (op_count : ℕ) where
  abbrev factory : Option (OpMetricsFactoryFn Tracker (OpMetricsFn Tracker))
  factory = some (op_metrics_factory_fn enabled)

  -- As many summaries are new as there are contexts.
  abbrev Tracked : Tracker → Tracker × List (OpCtx (OpMetricsFn Tracker)) → Type 0
  Tracked ops (left, ctxs) = length left ≡ length ops + length ctxs
