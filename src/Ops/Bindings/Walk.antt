-- ===== src/Ops/Bindings/Walk.antt =====
-- core/runtime/bindings.rs: the walk over the contexts of the ops finds those of each class.
use mathlib.Core.List.{append_assoc}
use deno_core.Common.{
  ℕ, zero, suc, ◌+◌, ◌≤◌, ◌≡◌, refl, sym, ap, ap₂, ◌∙◌, List, [], ◌∷◌, ◌++◌, map, Option, none,
  some, ◌==◌, leb-true, if◌then◌else◌, bind-some, length, length-append, length-map, length-drop,
  get_elem?, take, drop, drop-drop, drop_by, arith, Bool-cases, inl, inr, ◌<◌,
}
use deno_core.Ops.{OpDecl, OpMethodDecl, OpCtx}
use deno_core.Ops.{new_decls}
use deno_core.Ops.Creation.{class_decls}
use deno_core.Ops.Bindings.{
  after_new, class_binding, sync_ctxs, async_ctxs, slice, ClassBinding, bind_new, bind_class,
  bind_classes,
}

-- A list that is mapped to two parts has two parts.
pub map_split :
    {A B : Type 0} (f : A → B) (xs : List A) (bs cs : List B)
    → map f xs ≡ bs ++ cs
    → (ys zs : List A) × (xs ≡ ys ++ zs) × (map f ys ≡ bs) × (map f zs ≡ cs)
map_split f xs [] cs e = ([], xs, refl, refl, e)
map_split f [] (b ∷ bs) cs e = absurd (ground (arith, e))
map_split f (x ∷ xs) (b ∷ bs) cs e =
    let (ys, zs, parts, left, right) = map_split f xs bs cs (ground (arith, e)) in
    (x ∷ ys, zs, ap (λ l. x ∷ l) parts, ap₂ ◌∷◌ (ground (arith, e)) left, right)

pub take_append :
    {A : Type 0} (ys zs : List A) (n : ℕ)
    → n ≡ length ys
    → (take n (ys ++ zs) ≡ ys) × (drop n (ys ++ zs) ≡ zs)
take_append [] zs zero e = (refl, refl)
take_append [] zs (suc n) e = absurd (omega (arith, e))
take_append (y ∷ ys) zs zero e = absurd (omega (arith, e))
take_append (y ∷ ys) zs (suc n) e =
    let (front, back) = take_append ys zs n (omega (arith, e)) in (ap (λ l. y ∷ l) front, back)

drop_cons :
    {A : Type 0} (xs : List A) (n : ℕ) (y : A) (ys : List A)
    → drop n xs ≡ y ∷ ys
    → (get_elem? xs n ≡ some y) × (drop (n + 1) xs ≡ ys) × (n < length xs)
drop_cons [] zero y ys e = absurd (ground (arith, e))
drop_cons [] (suc n) y ys e = absurd (ground (arith, e))
drop_cons (x ∷ xs) zero y ys e = (ground (arith, e), ground (arith, e), omega arith)
drop_cons (x ∷ xs) (suc n) y ys e =
    let (found, left, below) = drop_cons xs n y ys e in
    (
      found,
      drop_by {k = suc n + 1} {n = suc (n + 1)} (x ∷ xs) (omega arith) ∙ left,
      omega (arith, below),
    )

abbrev pub sync_decls : List OpDecl → List OpDecl
sync_decls [] = []
sync_decls (decl ∷ decls) = if decl.is_async then sync_decls decls else decl ∷ sync_decls decls

abbrev pub async_decls : List OpDecl → List OpDecl
async_decls [] = []
async_decls (decl ∷ decls) = if decl.is_async then decl ∷ async_decls decls else async_decls decls

empty_of_length : {A : Type 0} (xs : List A) → length xs ≡ 0 → xs ≡ []
empty_of_length [] e = refl
empty_of_length (x ∷ xs) e = absurd (omega (arith, e))

abbrev pub all_decls : List OpMethodDecl → List OpDecl
all_decls [] = []
all_decls (class ∷ classes) = class_decls class ++ all_decls classes

after_new_lem :
    (index : ℕ) (class : OpMethodDecl) (o : Option OpDecl)
    → after_new index o ≡ index + length (new_decls class o)
after_new_lem index class none = omega arith
after_new_lem index class (some decl) = refl

module _ {F : Type 0} where
  abbrev pub decls_of : List (OpCtx F) → List OpDecl
  decls_of = map (λ ctx. ctx.decl)

  abbrev pub new_ctxs : Option (OpCtx F) → List (OpCtx F)
  new_ctxs none = []
  new_ctxs (some ctx) = ctx ∷ []

  -- The binding of a class has contexts of exactly its declarations.
  abbrev pub Serves : OpMethodDecl → ClassBinding F → Type 0
  Serves class b =
      (b.key ≡ class.name_fast)
      × (decls_of (new_ctxs b.new_ctx) ≡ new_decls class class.new_decl)
      × (decls_of b.sync_methods ≡ sync_decls class.methods)
      × (decls_of b.static_methods ≡ class.static_methods)
      × (decls_of b.async_methods ≡ async_decls class.methods)

  abbrev pub ServesAll : List OpMethodDecl → List (ClassBinding F) → Type 0
  ServesAll [] [] = Unit
  ServesAll [] (b ∷ bs) = ⊥
  ServesAll (class ∷ classes) [] = ⊥
  ServesAll (class ∷ classes) (b ∷ bs) = Serves class b × ServesAll classes bs

  sync_ctxs_lem : (ctxs : List (OpCtx F)) → decls_of (sync_ctxs ctxs) ≡ sync_decls (decls_of ctxs)
  sync_ctxs_lem [] = refl
  sync_ctxs_lem (ctx ∷ ctxs) = ground (arith, sync_ctxs_lem ctxs)

  async_ctxs_lem :
      (ctxs : List (OpCtx F)) → decls_of (async_ctxs ctxs) ≡ async_decls (decls_of ctxs)
  async_ctxs_lem [] = refl
  async_ctxs_lem (ctx ∷ ctxs) = ground (arith, async_ctxs_lem ctxs)

  -- From an index on, the contexts are those of these declarations.
  abbrev pub From : List (OpCtx F) → ℕ → List OpDecl → Type 0
  From ctxs index decls = (index ≤ length ctxs) × (decls_of (drop index ctxs) ≡ decls)

  pub slice_lem :
      (ctxs : List (OpCtx F)) (index : ℕ) (decls rest : List OpDecl)
      → From ctxs index (decls ++ rest)
      → (part : List (OpCtx F)) × (slice ctxs index (length decls) ≡ some part)
        × (decls_of part ≡ decls)
        × From ctxs (index + length decls) rest
  slice_lem ctxs index decls rest (inside, same) =
      let (part, others, parts, left, right) =
        map_split (λ ctx. ctx.decl) (drop index ctxs) decls rest same in
      let sizes : length decls ≡ length part =
        sym (ap length left) ∙ length-map (λ ctx. ctx.decl) part in
      let (front, back) = take_append part others (length decls) sizes in
      let total : length ctxs ≡ index + (length decls + length others) = omega (
        arith,
        inside,
        length-drop index ctxs,
        ap length parts,
        length-append part others,
        sizes,
      ) in
      (
        part,
        ground (
          arith,
          leb-true {n = index + length decls} {m = length ctxs} (omega (arith, total)),
          parts,
          front,
        ),
        left,
        (
          omega (arith, total),
          ap decls_of
                (sym (drop-drop (length decls) index ctxs) ∙ ap (drop (length decls)) parts ∙ back)
              ∙ right,
        ),
      )

  bind_new_lem :
      (ctxs : List (OpCtx F)) (index : ℕ) (class : OpMethodDecl) (o : Option OpDecl)
      (rest : List OpDecl)
      → From ctxs index (new_decls class o ++ rest)
      → (new : Option (OpCtx F)) × (bind_new ctxs index o ≡ some (new, after_new index o))
        × (decls_of (new_ctxs new) ≡ new_decls class o)
        × From ctxs (after_new index o) rest
  bind_new_lem ctxs index class none rest from = (none, refl, refl, from)
  bind_new_lem ctxs index class (some decl) rest (inside, same) = go (drop index ctxs) refl same
    where
      go :
          (left : List (OpCtx F))
          → drop index ctxs ≡ left
          → decls_of left ≡ new_decls class (some decl) ++ rest
          → (new : Option (OpCtx F)) × (bind_new ctxs index (some decl) ≡ some (new, index + 1))
            × (decls_of (new_ctxs new) ≡ new_decls class (some decl))
            × From ctxs (index + 1) rest
      go [] at e = absurd (ground (arith, e))
      go (ctx ∷ left) at e =
          let (found, next, below) = drop_cons ctxs index ctx left at in
          (
            some ctx,
            bind-some (λ ctx. some (some ctx, index + 1)) found,
            ap (λ d. d ∷ []) (ground (arith, e)),
            (omega (arith, below), ap decls_of next ∙ ground (arith, e)),
          )

  bind_class_lem :
      (ctxs : List (OpCtx F)) (index : ℕ) (class : OpMethodDecl) (rest : List OpDecl)
      → From ctxs index (class_decls class ++ rest)
      → (b : ClassBinding F) × (next : ℕ) × (bind_class ctxs index class ≡ some (b, next))
        × Serves class b
        × (next ≡ index + length (class_decls class))
        × From ctxs next rest
  bind_class_lem ctxs index class rest (inside, same) =
      let fresh = new_decls class class.new_decl in
      let (new, new_at, new_same, from1) =
        bind_new_lem ctxs index class class.new_decl
          (class.methods ++ (class.static_methods ++ rest))
          (
            inside,
            same
                ∙ append_assoc (fresh ++ class.methods) class.static_methods rest
                ∙ append_assoc fresh class.methods (class.static_methods ++ rest),
          ) in
      let at = after_new index class.new_decl in
      let (methods, methods_at, methods_same, from2) =
        slice_lem ctxs at class.methods (class.static_methods ++ rest) from1 in
      let (statics, statics_at, statics_same, from3) =
        slice_lem ctxs (at + length class.methods) class.static_methods rest from2 in
      (
        class_binding class new methods statics,
        at + length class.methods + length class.static_methods,
        ground (arith, new_at, methods_at, statics_at),
        (
          refl,
          new_same,
          sync_ctxs_lem methods ∙ ap sync_decls methods_same,
          statics_same,
          async_ctxs_lem methods ∙ ap async_decls methods_same,
        ),
        omega (
          arith,
          length-append (fresh ++ class.methods) class.static_methods,
          length-append fresh class.methods,
          after_new_lem index class class.new_decl,
        ),
        from3,
      )

  pub bind_classes_lem :
      (ctxs : List (OpCtx F)) (offset index : ℕ) (classes : List OpMethodDecl) (rest : List OpDecl)
      → From ctxs index (all_decls classes ++ rest)
      → offset ≡ index + length (all_decls classes)
      → (bound left : List OpMethodDecl) × (bindings : List (ClassBinding F)) × (classes
          ≡ bound ++ left)
        × (all_decls left ≡ [])
        × (bind_classes ctxs offset index classes ≡ some (bindings, offset))
        × ServesAll bound bindings
  bind_classes_lem ctxs offset index [] rest from end =
      ([], [], [], refl, refl, ap (λ n. some ([], n)) (omega (arith, end)), tt)
  bind_classes_lem ctxs offset index (class ∷ classes) rest from end =
      elim (Bool-cases (index == offset)) [
        | inl stop ↦ (
          [],
          class ∷ classes,
          [],
          refl,
          empty_of_length (all_decls (class ∷ classes)) (ground (arith, stop, end)),
          ground (arith, stop),
          tt,
        )
        | inr go ↦
            let (b, next, found, serves, size, from') =
              bind_class_lem ctxs index class (all_decls classes ++ rest)
                (from.0, from.1 ∙ append_assoc (class_decls class) (all_decls classes) rest) in
            let (bound, left, bindings, parts, none_left, result, all) =
              bind_classes_lem ctxs offset next classes rest from'
                (omega (arith, end, size, length-append (class_decls class) (all_decls classes))) in
            (
              class ∷ bound,
              left,
              b ∷ bindings,
              ap (λ cs. class ∷ cs) parts,
              none_left,
              ground (arith, go, found, result),
              (serves, all),
            )
      ]
