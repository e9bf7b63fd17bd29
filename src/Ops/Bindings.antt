-- ===== src/Ops/Bindings.antt =====
-- core/runtime/bindings.rs: `initialize_deno_core_ops_bindings` and
-- `create_exports_for_ops_virtual_module`, which walk over the contexts of the ops with a running
-- index. What they create in V8 is represented by the contexts that it is made of; an index out of
-- range is a panic.
pub mod Walk
pub mod Laws
use Prim.Native.String.{String}
use deno_core.Common.{
  ℕ, zero, suc, ◌+◌, ◌≡◌, Bool, true, false, not, List, [], ◌∷◌, ◌++◌, map, Option, none, some,
  ◌==◌, leb, if◌then◌else◌, ◌>>=◌, length, get_elem?, take, drop,
}
use deno_core.Ops.{OpDecl, OpMethodDecl, OpCtx}

-- `&xs[start..start + n]` and `&xs[start..]`
abbrev pub slice : {A : Type 0} → List A → ℕ → ℕ → Option (List A)
slice xs start n = if leb (start + n) (length xs) then some (take n (drop start xs)) else none

abbrev pub slice_from : {A : Type 0} → List A → ℕ → Option (List A)
slice_from xs start = if leb start (length xs) then some (drop start xs) else none

-- What the function of a class is made of, the methods in the order of their registration.
pub record ClassBinding (F : Type 0) : Type 0 where
  pub key : String
  pub new_ctx : Option (OpCtx F)
  pub sync_methods : List (OpCtx F)
  pub static_methods : List (OpCtx F)
  pub async_methods : List (OpCtx F)

module _ {F : Type 0} where
  abbrev pub sync_ctxs : List (OpCtx F) → List (OpCtx F)
  sync_ctxs [] = []
  sync_ctxs (ctx ∷ ctxs) = if ctx.decl.is_async then sync_ctxs ctxs else ctx ∷ sync_ctxs ctxs

  abbrev pub async_ctxs : List (OpCtx F) → List (OpCtx F)
  async_ctxs [] = []
  async_ctxs (ctx ∷ ctxs) = if ctx.decl.is_async then ctx ∷ async_ctxs ctxs else async_ctxs ctxs

  abbrev pub class_binding :
      OpMethodDecl → Option (OpCtx F) → List (OpCtx F) → List (OpCtx F) → ClassBinding F
  class_binding class new_ctx method_ctxs static_ctxs = record {
    key = class.name_fast;
    new_ctx = new_ctx;
    sync_methods = sync_ctxs method_ctxs;
    static_methods = static_ctxs;
    async_methods = async_ctxs method_ctxs;
  }

module _ {F : Type 0} (op_ctxs : List (OpCtx F)) where
  -- The context of the constructor, and the index after it.
  abbrev pub bind_new : ℕ → Option OpDecl → Option (Option (OpCtx F) × ℕ)
  bind_new index none = some (none, index)
  bind_new index (some decl) = get_elem? op_ctxs index >>= λ ctx. some (some ctx, index + 1)

  abbrev pub bind_class : ℕ → OpMethodDecl → Option (ClassBinding F × ℕ)
  bind_class index class = do
    (new_ctx, at) ← bind_new index class.new_decl
    method_ctxs ← slice op_ctxs at (length class.methods)
    static_ctxs ← slice op_ctxs (at + length class.methods) (length class.static_methods)
    some (
      class_binding class new_ctx method_ctxs static_ctxs,
      at + length class.methods + length class.static_methods,
    )

  -- The loop over the classes, from an index on.
  abbrev pub bind_classes : ℕ → ℕ → List OpMethodDecl → Option (List (ClassBinding F) × ℕ)
  bind_classes methods_ctx_offset index [] = some ([], index)
  bind_classes methods_ctx_offset index (class ∷ classes) =
      let bound = (do
        (binding, next) ← bind_class index class
        (bindings, end) ← bind_classes methods_ctx_offset next classes
        some (binding ∷ bindings, end)) in
      if index == methods_ctx_offset then some ([], index) else bound

  -- The classes that are bound, and the contexts that become functions.
  unfoldable pub initialize_bindings :
      List OpMethodDecl → ℕ → Option (List (ClassBinding F) × List (OpCtx F))
  initialize_bindings op_method_decls methods_ctx_offset = do
    (bindings, index) ← bind_classes methods_ctx_offset 0 op_method_decls
    ctxs ← slice_from op_ctxs index
    some (bindings, ctxs)

abbrev pub after_new : ℕ → Option OpDecl → ℕ
after_new index none = index
after_new index (some decl) = index + 1

-- The names of the classes, and the index after them.
abbrev pub export_classes : ℕ → ℕ → List OpMethodDecl → List String × ℕ
export_classes methods_ctx_offset index [] = ([], index)
export_classes methods_ctx_offset index (class ∷ classes) =
    let at = after_new index class.new_decl in
    let (names, end) =
      export_classes methods_ctx_offset (at + (length class.methods + length class.static_methods))
        classes in
    if index == methods_ctx_offset then ([], index) else (class.name_fast ∷ names, end)

unfoldable pub create_exports :
    {F : Type 0} → List (OpCtx F) → List OpMethodDecl → ℕ → Option (List String)
create_exports op_ctxs op_method_decls methods_ctx_offset =
    let (names, index) = export_classes methods_ctx_offset 0 op_method_decls in
    slice_from op_ctxs index >>= λ ctxs. some (names ++ map (λ ctx. ctx.decl.name_fast) ctxs)
