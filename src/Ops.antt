-- ===== src/Ops.antt =====
-- core/extensions.rs and core/ops.rs: the declarations of ops and the contexts made of them, and
-- `create_op_ctxs` of core/extension_set.rs. A function that JavaScript calls is a number. The
-- factory of metrics functions is a closure with a state, which is passed along.
pub mod Creation
pub mod Bindings
pub mod Metrics
mod Tests
use Prim.Native.String.{String}
use deno_core.Common.{
  ℕ, zero, suc, ◌+◌, ◌%◌, ◌^◌, ◌≡◌, Bool, true, false, not, List, [], ◌∷◌, ◌++◌, Option, none, some,
  ◌==◌, if◌then◌else◌, length,
}

pub data AccessorType : Type 0 where
  getter setter no_accessor : AccessorType

pub record OpDecl : Type 0 where
  pub name : String
  pub name_fast : String
  pub is_async : Bool
  pub accessor_type : AccessorType
  pub slow_fn : ℕ
  pub slow_fn_with_metrics : ℕ
  pub fast_fn : Option ℕ
  pub fast_fn_with_metrics : Option ℕ

pub record OpMethodDecl : Type 0 where
  pub name : String
  pub name_fast : String
  pub new_decl : Option OpDecl
  pub methods : List OpDecl
  pub static_methods : List OpDecl

pub record OpCtx (F : Type 0) : Type 0 where
  pub id : ℕ
  pub decl : OpDecl
  pub fast_fn_info : Option ℕ
  pub metrics_fn : Option F

-- The id of the op, the number of ops, the declaration.
abbrev pub OpMetricsFactoryFn : Type 0 → Type 0 → Type 0
OpMetricsFactoryFn S F = S → ℕ → ℕ → OpDecl → S × Option F

-- `as OpId`, a `u16`.
abbrev pub op_id : ℕ → ℕ
op_id index = index % 2 ^ 16

module _ {F : Type 0} where
  abbrev pub fast_fn_info_of : OpDecl → Option F → Option ℕ
  fast_fn_info_of decl none = decl.fast_fn
  fast_fn_info_of decl (some f) = decl.fast_fn_with_metrics

  abbrev pub OpCtx_new : ℕ → OpDecl → Option F → OpCtx F
  OpCtx_new index decl metrics_fn = record {
    id = index;
    decl = decl;
    fast_fn_info = fast_fn_info_of decl metrics_fn;
    metrics_fn = metrics_fn;
  }

-- The constructor of a class takes the names of the class.
abbrev pub new_decls : OpMethodDecl → Option OpDecl → List OpDecl
new_decls class none = []
new_decls class (some decl) = record decl { name = class.name; name_fast = class.name_fast } ∷ []

module _ {S F : Type 0} where
  abbrev pub metrics_fn_of : Option (OpMetricsFactoryFn S F) → S → ℕ → ℕ → OpDecl → S × Option F
  metrics_fn_of none s index op_count decl = (s, none)
  metrics_fn_of (some factory) s index op_count decl = factory s (op_id index) op_count decl

module _ {S F : Type 0} (factory : Option (OpMetricsFactoryFn S F)) (op_count : ℕ) where
  abbrev pub create_ctx : S → ℕ → OpDecl → S × OpCtx F
  create_ctx s index decl =
      let (s', metrics_fn) = metrics_fn_of factory s index op_count decl in
      (s', OpCtx_new (op_id index) decl metrics_fn)

  -- One context for each declaration, all with the same index.
  abbrev pub create_ctxs : S → ℕ → List OpDecl → S × List (OpCtx F)
  create_ctxs s index [] = (s, [])
  create_ctxs s index (decl ∷ decls) =
      let (s', ctx) = create_ctx s index decl in
      let (left, ctxs) = create_ctxs s' index decls in (left, ctx ∷ ctxs)

  abbrev pub create_class : S → ℕ → OpMethodDecl → S × List (OpCtx F)
  create_class s index class =
      let (s1, new_ctxs) = create_ctxs s index (new_decls class class.new_decl) in
      let (s2, method_ctxs) = create_ctxs s1 index class.methods in
      let (s3, static_ctxs) = create_ctxs s2 index class.static_methods in
      (s3, new_ctxs ++ method_ctxs ++ static_ctxs)

  -- The loop over the classes, from an index on.
  abbrev pub create_classes : S → ℕ → List OpMethodDecl → S × List (OpCtx F)
  create_classes s index [] = (s, [])
  create_classes s index (class ∷ classes) =
      let (s', ctxs) = create_class s index class in
      let (left, rest) = create_classes s' (suc index) classes in (left, ctxs ++ rest)

  -- The loop over the ops, from an index on.
  abbrev pub create_ops : S → ℕ → ℕ → List OpDecl → S × List (OpCtx F)
  create_ops s methods_ctx_offset index [] = (s, [])
  create_ops s methods_ctx_offset index (decl ∷ decls) =
      let (s', ctx) = create_ctx s (index + methods_ctx_offset) decl in
      let (left, ctxs) = create_ops s' methods_ctx_offset (suc index) decls in (left, ctx ∷ ctxs)

-- The contexts, those of the classes first, and how many of them the classes have.
unfoldable pub create_op_ctxs :
    {S F : Type 0}
    → Option (OpMetricsFactoryFn S F)
    → S
    → List OpDecl
    → List OpMethodDecl
    → S × List (OpCtx F) × ℕ
create_op_ctxs factory s op_decls op_method_decls =
    let op_count = length op_decls + length op_method_decls in
    let (s1, class_ctxs) = create_classes factory op_count s 0 op_method_decls in
    let (s2, op_ctxs) = create_ops factory op_count s1 (length class_ctxs) 0 op_decls in
    (s2, class_ctxs ++ op_ctxs, length class_ctxs)
