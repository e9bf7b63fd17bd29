-- ===== src/Ops/Tests.antt =====
-- Two classes, the second without a constructor, and two ops.
use Prim.Native.String.{String}
use deno_core.Common.{
  ◌≡◌, refl, Bool, true, false, List, [], ◌∷◌, ◌++◌, map, Option, none, some, length,
}
use deno_core.Ops.{
  OpDecl, OpMethodDecl, OpCtx, no_accessor, OpMetricsFactoryFn, OpCtx_new, create_op_ctxs,
}
use deno_core.Ops.Creation.{made, class_entries, op_entries, create_op_ctxs_lem}
use deno_core.Ops.Bindings.{initialize_bindings}
use deno_core.Ops.Metrics.{
  OpMetricsSummary, dispatched, completed_async, fast, async, default_summary,
}
use deno_core.Ops.Metrics.Laws.{Call}

abbrev op_named : String → Bool → OpDecl
op_named name is_async = record {
  name = name;
  name_fast = name;
  is_async = is_async;
  accessor_type = no_accessor;
  slow_fn = 1;
  slow_fn_with_metrics = 2;
  fast_fn = none;
  fast_fn_with_metrics = none;
}

abbrev two_classes : List OpMethodDecl
two_classes =
    record {
      name = "Point";
      name_fast = "Point";
      new_decl = some (op_named "new" false);
      methods = op_named "move" true ∷ op_named "x" false ∷ [];
      static_methods = op_named "origin" false ∷ [];
    }
    ∷ record {
      name = "Line";
      name_fast = "Line";
      new_decl = none;
      methods = op_named "cut" true ∷ [];
      static_methods = [];
    }
    ∷ []

abbrev two_ops : List OpDecl
two_ops = op_named "op_read" true ∷ op_named "op_now" false ∷ []

abbrev no_factory : Option (OpMetricsFactoryFn Unit Unit)
no_factory = none

-- The ids of the contexts: those of a class share the index of the class.
ids_of_two_classes :
    map (λ e. e.0) (made (create_op_ctxs no_factory tt two_ops two_classes).1)
    ≡ 0 ∷ 0 ∷ 0 ∷ 0 ∷ 1 ∷ 5 ∷ 6 ∷ []
unfolding create_op_ctxs
ids_of_two_classes = refl

create_op_ctxs_lem_example :
    let (_, ctxs, methods_ctx_offset) = create_op_ctxs no_factory tt two_ops two_classes in
    (made ctxs ≡ class_entries 0 two_classes ++ op_entries methods_ctx_offset two_ops)
    × (methods_ctx_offset ≡ length (class_entries 0 two_classes))
create_op_ctxs_lem_example = create_op_ctxs_lem no_factory tt two_ops two_classes

abbrev one_ctx : OpCtx Unit
one_ctx = OpCtx_new 0 (op_named "op_now" false) none

no_classes_bound : initialize_bindings (one_ctx ∷ []) [] 0 ≡ some ([], one_ctx ∷ [])
unfolding initialize_bindings
no_classes_bound = refl

abbrev two_calls : List Call
two_calls =
    record { id = 1; decl = op_named "op_read" true; event = dispatched; source = fast }
    ∷ record { id = 1; decl = op_named "op_read" true; event = completed_async; source = async }
    ∷ []

abbrev two_summaries : List OpMetricsSummary
two_summaries = default_summary ∷ default_summary ∷ []
