-- ===== src/Ops/Bindings/Laws.antt =====
-- core/runtime/bindings.rs and core/extension_set.rs: what is bound are the contexts that were
-- created.
use mathlib.Core.List.{map-append}
use deno_core.Common.{
  ℕ, suc, ◌+◌, ◌≡◌, refl, sym, ap, ap₂, ◌∙◌, List, [], ◌∷◌, ◌++◌, map, Option, none, some, ◌==◌,
  leb-true, if◌then◌else◌, ◌>>=◌, bind-some, length, length-append, length-map, get_elem?, drop,
  bind_parts, some_value, if_true, if_false, arith, Bool-cases, inl, inr,
}
use deno_core.Ops.{OpDecl, OpMethodDecl, OpCtx, OpMetricsFactoryFn, create_op_ctxs}
use deno_core.Ops.Creation.{
  class_decls, entries_of, class_entries, op_entries, made, create_op_ctxs_lem,
}
use deno_core.Ops.Bindings.{
  slice, slice_from, bind_new, after_new, ClassBinding, bind_class, bind_classes,
  initialize_bindings, export_classes, create_exports,
}
use deno_core.Ops.Bindings.Walk.{
  decls_of, all_decls, ServesAll, map_split, take_append, bind_classes_lem,
}

decls-made : {F : Type 0} (ctxs : List (OpCtx F)) → decls_of ctxs ≡ map (λ e. e.1) (made ctxs)
decls-made [] = refl
decls-made (ctx ∷ ctxs) = ap (λ ds. ctx.decl ∷ ds) (decls-made ctxs)

entries_of_decls :
    (index : ℕ) (decls : List OpDecl) → map (λ e. e.1) (entries_of index decls) ≡ decls
entries_of_decls index [] = refl
entries_of_decls index (decl ∷ decls) = ap (λ ds. decl ∷ ds) (entries_of_decls index decls)

class_entries_decls :
    (index : ℕ) (classes : List OpMethodDecl)
    → map (λ e. e.1) (class_entries index classes) ≡ all_decls classes
class_entries_decls index [] = refl
class_entries_decls index (class ∷ classes) =
    map-append (λ e. e.1) (entries_of index (class_decls class)) (class_entries (suc index) classes)
    ∙ ap₂ ◌++◌ (entries_of_decls index (class_decls class))
        (class_entries_decls (suc index) classes)

op_entries_decls :
    (index : ℕ) (decls : List OpDecl) → map (λ e. e.1) (op_entries index decls) ≡ decls
op_entries_decls index [] = refl
op_entries_decls index (decl ∷ decls) = ap (λ ds. decl ∷ ds) (op_entries_decls (suc index) decls)

module _ {S F : Type 0} (factory : Option (OpMetricsFactoryFn S F)) (s : S) (op_decls : List OpDecl)
    (classes : List OpMethodDecl) where
  -- The declarations of the contexts, and where those of the ops start.
  created :
      let (_, ctxs, offset) = create_op_ctxs factory s op_decls classes in
      (decls_of ctxs ≡ all_decls classes ++ op_decls) × (offset ≡ length (all_decls classes))
  created =
      let (_, ctxs, offset) = create_op_ctxs factory s op_decls classes in
      let (entries, at) = create_op_ctxs_lem factory s op_decls classes in
      (
        decls-made ctxs
            ∙ ap (map (λ e. e.1)) entries
            ∙ map-append (λ e. e.1) (class_entries 0 classes) (op_entries offset op_decls)
            ∙ ap₂ ◌++◌ (class_entries_decls 0 classes) (op_entries_decls offset op_decls),
        at
            ∙ sym (length-map (λ e. e.1) (class_entries 0 classes))
            ∙ ap length (class_entries_decls 0 classes),
      )

  -- On contexts that `create_op_ctxs` made, setting up the bindings does not panic. It binds the
  -- classes of a prefix, after which there are only classes without any declaration; each is
  -- bound with contexts of exactly its own constructor, methods and static methods; and the
  -- contexts that become functions are those of the ops, all of them.
  pub initialize_bindings_lem :
      let (_, ctxs, offset) = create_op_ctxs factory s op_decls classes in
      (bound left : List OpMethodDecl) × (bindings : List (ClassBinding F)) × (classes
        ≡ bound ++ left)
      × (all_decls left ≡ [])
      × (initialize_bindings ctxs classes offset ≡ some (bindings, drop offset ctxs))
      × ServesAll bound bindings
      × (decls_of (drop offset ctxs) ≡ op_decls)
  unfolding initialize_bindings
  initialize_bindings_lem =
      let (_, ctxs, offset) = create_op_ctxs factory s op_decls classes in
      let (same, at) = created in
      let (bound, left, bindings, parts, none_left, found, serves) =
        bind_classes_lem ctxs offset 0 classes op_decls (omega arith, same) (omega (arith, at)) in
      let (ys, zs, halves, first, second) =
        map_split (λ ctx. ctx.decl) ctxs (all_decls classes) op_decls same in
      let sizes : offset ≡ length ys =
        at ∙ sym (ap length first) ∙ length-map (λ ctx. ctx.decl) ys in
      (
        bound,
        left,
        bindings,
        parts,
        none_left,
        bind-some (λ (bs, index). slice_from ctxs index >>= λ fs. some (bs, fs)) found
            ∙ bind-some (λ fs. some (bindings, fs))
                (ap (λ b. if b then some (drop offset ctxs) else none)
                  (leb-true {n = offset} {m = length ctxs}
                    (omega (arith, sizes, ap length halves, length-append ys zs)))),
        serves,
        ap (λ cs. decls_of (drop offset cs)) halves
            ∙ ap decls_of (take_append ys zs offset sizes).1
            ∙ second,
      )

module _ {F : Type 0} (op_ctxs : List (OpCtx F)) where
  bind_new_next :
      (index : ℕ) (o : Option OpDecl) (new : Option (OpCtx F)) (next : ℕ)
      → bind_new op_ctxs index o ≡ some (new, next)
      → next ≡ after_new index o
  bind_new_next index none new next e = ground (arith, e)
  bind_new_next index (some decl) new next e =
      let (ctx, found, e1) =
        bind_parts (get_elem? op_ctxs index) (λ ctx. some (some ctx, index + 1)) (new, next) e in
      ground (arith, e1)

  bind_class_key :
      (index : ℕ) (class : OpMethodDecl) (b : ClassBinding F) (next : ℕ)
      → bind_class op_ctxs index class ≡ some (b, next)
      → (b.key ≡ class.name_fast)
        × (next
            ≡ after_new index class.new_decl + (length class.methods + length class.static_methods))
  bind_class_key index class b next e =
      let ((new, at), found, e1) =
        bind_parts (bind_new op_ctxs index class.new_decl) _ (b, next) e in
      let (methods, _, e2) = bind_parts (slice op_ctxs at (length class.methods)) _ (b, next) e1 in
      let (statics, _, e3) =
        bind_parts (slice op_ctxs (at + length class.methods) (length class.static_methods)) _
          (b, next) e2 in
      (
        sym (ap (λ r. r.0.key) (some_value e3)),
        ground (arith, e3, bind_new_next index class.new_decl new at found),
      )

  bind_classes_keys :
      (offset index : ℕ) (classes : List OpMethodDecl) (bindings : List (ClassBinding F)) (end : ℕ)
      → bind_classes op_ctxs offset index classes ≡ some (bindings, end)
      → export_classes offset index classes ≡ (map (λ b. b.key) bindings, end)
  bind_classes_keys offset index [] bindings end e =
      ap (λ r. (map (λ b. b.key) r.0, r.1)) (some_value e)
  bind_classes_keys offset index (class ∷ classes) bindings end e =
      elim (Bool-cases (index == offset)) [
        | inl stop ↦
            if_true _ _ stop
            ∙ ap (λ r. (map (λ b. b.key) r.0, r.1)) (some_value (sym (if_true _ _ stop) ∙ e))
        | inr go ↦
            let ((b, next), found, e1) =
              bind_parts (bind_class op_ctxs index class) _ (bindings, end)
                (sym (if_false _ _ go) ∙ e) in
            let ((rest, last), found_rest, e2) =
              bind_parts (bind_classes op_ctxs offset next classes) _ (bindings, end) e1 in
            let (key, at) = bind_class_key index class b next found in
            let tail : export_classes offset
                  (after_new index class.new_decl
                    + (length class.methods + length class.static_methods))
                  classes
                ≡ (map (λ b. b.key) rest, last) =
              ap (λ n. export_classes offset n classes) (sym at)
              ∙ bind_classes_keys offset next classes rest last found_rest in
            if_false _ _ go
            ∙ ap₂ (λ k r. (k ∷ r.0, r.1)) (sym key) tail
            ∙ ap (λ r. (map (λ b. b.key) r.0, r.1)) (some_value e2)
      ]

  -- On any contexts, classes and offset for which the bindings can be set up, the exports of the
  -- virtual module are the keys of the classes that are bound and then those of the functions,
  -- in the same order.
  pub create_exports_lem :
      (classes : List OpMethodDecl) (offset : ℕ) (bindings : List (ClassBinding F))
      (functions : List (OpCtx F))
      → initialize_bindings op_ctxs classes offset ≡ some (bindings, functions)
      → create_exports op_ctxs classes offset
        ≡ some (map (λ b. b.key) bindings ++ map (λ ctx. ctx.decl.name_fast) functions)
  unfolding initialize_bindings create_exports
  create_exports_lem classes offset bindings functions e =
      let ((bs, index), found, e1) =
        bind_parts (bind_classes op_ctxs offset 0 classes) _ (bindings, functions) e in
      let (fs, found_fs, e2) = bind_parts (slice_from op_ctxs index) _ (bindings, functions) e1 in
      let walked = bind_classes_keys offset 0 classes bs index found in
      ap
        (λ (names, index).
          slice_from op_ctxs index >>= λ ctxs. some (names ++ map (λ ctx. ctx.decl.name_fast) ctxs))
        walked
      ∙ bind-some (λ ctxs. some (map (λ b. b.key) bs ++ map (λ ctx. ctx.decl.name_fast) ctxs))
          found_fs
      ∙ ap (λ r. some (map (λ b. b.key) r.0 ++ map (λ ctx. ctx.decl.name_fast) r.1)) (some_value e2)
