-- ===== src/Ops/Creation.antt =====
-- core/extension_set.rs: which contexts `create_op_ctxs` makes, with which ids.
use mathlib.Core.List.{map-append}
use deno_core.Common.{
  ℕ, zero, suc, ◌+◌, ◌^◌, ◌<◌, ◌≡◌, refl, sym, ap, ◌∙◌, ap₂, List, [], ◌∷◌, ◌++◌, map, Option, some,
  length, length-map, get_elem?, get_elem?-append_right, get_elem?-map, arith,
}
use deno_core.Ops.{
  OpDecl, OpMethodDecl, OpCtx, OpMetricsFactoryFn, op_id, new_decls, create_ctx, create_ctxs,
  create_class, create_classes, create_ops, create_op_ctxs,
}

-- The declarations of a class in their order.
abbrev pub class_decls : OpMethodDecl → List OpDecl
class_decls class = new_decls class class.new_decl ++ class.methods ++ class.static_methods

-- All declarations of a class with one id.
abbrev pub entries_of : ℕ → List OpDecl → List (ℕ × OpDecl)
entries_of index = map (λ decl. (op_id index, decl))

abbrev pub class_entries : ℕ → List OpMethodDecl → List (ℕ × OpDecl)
class_entries index [] = []
class_entries index (class ∷ classes) =
    entries_of index (class_decls class) ++ class_entries (suc index) classes

-- Declarations with successive ids.
abbrev pub op_entries : ℕ → List OpDecl → List (ℕ × OpDecl)
op_entries index [] = []
op_entries index (decl ∷ decls) = (op_id index, decl) ∷ op_entries (suc index) decls

abbrev pub entry_of : {F : Type 0} → OpCtx F → ℕ × OpDecl
entry_of ctx = (ctx.id, ctx.decl)

abbrev pub made : {F : Type 0} → List (OpCtx F) → List (ℕ × OpDecl)
made = map entry_of

module _ {S F : Type 0} (factory : Option (OpMetricsFactoryFn S F)) (op_count : ℕ) where
  create_ctxs_lem :
      (s : S) (index : ℕ) (decls : List OpDecl)
      → made (create_ctxs factory op_count s index decls).1 ≡ entries_of index decls
  create_ctxs_lem s index [] = refl
  create_ctxs_lem s index (decl ∷ decls) =
      ap (λ es. (op_id index, decl) ∷ es)
        (create_ctxs_lem (create_ctx factory op_count s index decl).0 index decls)

  pub create_class_lem :
      (s : S) (index : ℕ) (class : OpMethodDecl)
      → made (create_class factory op_count s index class).1 ≡ entries_of index (class_decls class)
  create_class_lem s index class =
      let (s1, new_ctxs) = create_ctxs factory op_count s index (new_decls class class.new_decl) in
      let (s2, method_ctxs) = create_ctxs factory op_count s1 index class.methods in
      simp (
        map-append,
        create_ctxs_lem s index (new_decls class class.new_decl),
        create_ctxs_lem s1 index class.methods,
        create_ctxs_lem s2 index class.static_methods,
      )

  pub create_classes_lem :
      (s : S) (index : ℕ) (classes : List OpMethodDecl)
      → made (create_classes factory op_count s index classes).1 ≡ class_entries index classes
  create_classes_lem s index [] = refl
  create_classes_lem s index (class ∷ classes) =
      let (s', ctxs) = create_class factory op_count s index class in
      map-append entry_of ctxs (create_classes factory op_count s' (suc index) classes).1
      ∙ ap₂ ◌++◌ (create_class_lem s index class) (create_classes_lem s' (suc index) classes)

  create_ops_lem :
      (s : S) (offset index : ℕ) (decls : List OpDecl)
      → made (create_ops factory op_count s offset index decls).1
        ≡ op_entries (index + offset) decls
  create_ops_lem s offset index [] = refl
  create_ops_lem s offset index (decl ∷ decls) =
      ap (λ es. (op_id (index + offset), decl) ∷ es)
        (create_ops_lem (create_ctx factory op_count s (index + offset) decl).0 offset (suc index)
            decls
          ∙ ap (λ n. op_entries n decls) (omega arith))

-- `create_op_ctxs` makes a context for every declaration, in their order: the constructor,
-- methods and static methods of each class, then the ops. The contexts of a class all have the
-- index of the class as their id; those of the ops have successive ids from the returned offset
-- on, which is the number of contexts of classes. Ids are taken modulo 2 ^ 16.
pub create_op_ctxs_lem :
    {S F : Type 0} (factory : Option (OpMetricsFactoryFn S F)) (s : S) (op_decls : List OpDecl)
    (classes : List OpMethodDecl)
    → let (_, ctxs, methods_ctx_offset) = create_op_ctxs factory s op_decls classes in
      (made ctxs ≡ class_entries 0 classes ++ op_entries methods_ctx_offset op_decls)
      × (methods_ctx_offset ≡ length (class_entries 0 classes))
unfolding create_op_ctxs
create_op_ctxs_lem factory s op_decls classes =
    let op_count = length op_decls + length classes in
    let (s1, class_ctxs) = create_classes factory op_count s 0 classes in
    let (s2, op_ctxs) = create_ops factory op_count s1 (length class_ctxs) 0 op_decls in
    (
      map-append entry_of class_ctxs op_ctxs
          ∙ ap₂ ◌++◌ (create_classes_lem factory op_count s 0 classes) (
              create_ops_lem factory op_count s1 (length class_ctxs) 0 op_decls
              ∙ ap (λ n. op_entries n op_decls) (omega arith)),
      sym (length-map entry_of class_ctxs)
          ∙ ap length (create_classes_lem factory op_count s 0 classes),
    )

op_entries_at :
    (index : ℕ) (decls : List OpDecl) (i : ℕ) (decl : OpDecl)
    → get_elem? decls i ≡ some decl
    → get_elem? (op_entries index decls) i ≡ some (op_id (index + i), decl)
op_entries_at index [] i decl e = absurd (ground (arith, e))
op_entries_at index (d ∷ decls) zero decl e = ground (arith, e)
op_entries_at index (d ∷ decls) (suc i) decl e =
    op_entries_at (suc index) decls i decl e ∙ ap (λ n. some (op_id n, decl)) (omega arith)

-- x
pub op_ctx_by_id :
    {S F : Type 0} (factory : Option (OpMetricsFactoryFn S F)) (s : S) (op_decls : List OpDecl)
    (classes : List OpMethodDecl) (i : ℕ) (decl : OpDecl)
    → let (_, ctxs, methods_ctx_offset) = create_op_ctxs factory s op_decls classes in
      get_elem? op_decls i ≡ some decl
      → methods_ctx_offset + i < 2 ^ 16
      → (ctx : OpCtx F) × (get_elem? ctxs (methods_ctx_offset + i) ≡ some ctx)
        × (ctx.id ≡ methods_ctx_offset + i)
        × (ctx.decl ≡ decl)
op_ctx_by_id factory s op_decls classes i decl found small =
    let (_, ctxs, offset) = create_op_ctxs factory s op_decls classes in
    let (entries, at) = create_op_ctxs_lem factory s op_decls classes in
    let (ctx, ctx_at, same) =
      get_elem?-map entry_of ctxs (offset + i) (op_id (offset + i), decl)
        (ap (λ es. get_elem? es (offset + i)) entries
          ∙ ap (λ n. get_elem? (class_entries 0 classes ++ op_entries offset op_decls) (n + i)) at
          ∙ get_elem?-append_right (class_entries 0 classes) (op_entries offset op_decls) i
          ∙ op_entries_at offset op_decls i decl found) in
    (ctx, ctx_at, ap (λ e. e.0) same ∙ ground (arith, small), ap (λ e. e.1) same)
