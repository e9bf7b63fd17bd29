-- ===== src/Extensions/Ops.antt =====
-- core/extension_set.rs: the ops and classes that `init_ops` collects.
use Prim.Native.String.{String}
use mathlib.Core.Logic.{ite}
use mathlib.Core.List.{map-append}
use deno_core.Common.{
  ◌+◌, ◌≤◌, ◌≡◌, refl, sym, ap, ap₂, ◌∙◌, true, false, not, List, [], ◌∷◌, ◌++◌, map, Option, none,
  some, ◌>>◌, bind-some, bind_parts, String-discrete, Bool-cases, inl, inr, if_true, if_false,
  arith,
}
use deno_core.Ops.{OpDecl, OpMethodDecl}
use deno_core.Extensions.{
  Extension, same_name, disable_each, extension_ops, has_extension, check_deps,
  check_extensions_dependencies, middlewares, macroware, wrap, check_no_duplicate_op_names,
  collect_ops, collect_methods, take_middleware, init_ops,
}
use deno_core.Extensions.Names.{occurrences, check_names_lem}

occurrences-append :
    (name : String) (xs ys : List OpDecl)
    → occurrences name (xs ++ ys) ≡ occurrences name xs + occurrences name ys
occurrences-append name [] ys = omega arith
occurrences-append name (x ∷ xs) ys = omega (arith, occurrences-append name xs ys)

occurrences-wrap :
    (name : String) (ms : List (OpDecl → OpDecl)) (ops : List OpDecl)
    → occurrences name (map (wrap ms) ops) ≡ occurrences name ops
occurrences-wrap name ms [] = refl
occurrences-wrap name ms (op ∷ ops) =
    ap (λ n. ite (String-discrete op.name name) 1 0 + n) (occurrences-wrap name ms ops)

disable_each_lem : (ops : List OpDecl) → disable_each ops ≡ ops
disable_each_lem [] = refl
disable_each_lem (op ∷ ops) = ap (λ os. op ∷ os) (disable_each_lem ops)

-- What a function makes of an op, with the op's own names.
abbrev pub under_own_name : (OpDecl → OpDecl) → OpDecl → OpDecl
under_own_name f op = record (f op) { name = op.name; name_fast = op.name_fast }

module _ {State : Type 0} where
  -- The ops that the extensions declare.
  abbrev pub declared : List (Extension State) → List OpDecl
  declared [] = []
  declared (ext ∷ exts) = ext.ops ++ declared exts

  -- The names are those of earlier extensions, and none is the extension's own.
  abbrev pub Met : String → List String → List (Extension State) → Type 0
  Met name [] previous = Unit
  Met name (dep ∷ deps) previous =
      (same_name dep name ≡ false) × (has_extension dep previous ≡ true) × Met name deps previous

  abbrev pub AllMet : List (Extension State) → List (Extension State) → Type 0
  AllMet previous [] = Unit
  AllMet previous (ext ∷ exts) = Met ext.name ext.deps previous × AllMet (previous ++ ext ∷ []) exts

  extension_ops_lem : (ext : Extension State) → extension_ops ext ≡ ext.ops
  extension_ops_lem ext = elim (Bool-cases (not ext.enabled)) [
    | inl off ↦ if_true _ _ off ∙ disable_each_lem ext.ops
    | inr on ↦ if_false _ _ on
  ]

  collect_ops_lem :
      (ms : List (OpDecl → OpDecl)) (exts : List (Extension State))
      → collect_ops ms exts ≡ map (wrap ms) (declared exts)
  collect_ops_lem ms [] = refl
  collect_ops_lem ms (ext ∷ exts) =
      ap₂ ◌++◌ (ap (map (wrap ms)) (extension_ops_lem ext)) (collect_ops_lem ms exts)
      ∙ sym (map-append (wrap ms) ext.ops (declared exts))

  check_deps-Met :
      (name : String) (deps : List String) (previous : List (Extension State))
      → (Met name deps previous → check_deps name deps previous ≡ some tt)
        × (check_deps name deps previous ≡ some tt → Met name deps previous)
  check_deps-Met name [] previous = (λ m. refl, λ e. tt)
  check_deps-Met name (dep ∷ deps) previous =
      let (there, back) = check_deps-Met name deps previous in
      (
        λ (other, has, rest). if_false _ _ other ∙ if_true _ _ has ∙ there rest,
        λ e. elim (Bool-cases (same_name dep name)) [
          | inl same ↦ absurd (ground (arith, sym (if_true _ _ same) ∙ e))
          | inr other ↦ elim (Bool-cases (has_extension dep previous)) [
            | inl has ↦ (other, has, back (sym (if_true _ _ has) ∙ sym (if_false _ _ other) ∙ e))
            | inr missing ↦
                absurd (ground (arith, sym (if_false _ _ missing) ∙ sym (if_false _ _ other) ∙ e))
          ]
        ],
      )

  check_extensions-AllMet :
      (previous exts : List (Extension State))
      → (AllMet previous exts → check_extensions_dependencies previous exts ≡ some tt)
        × (check_extensions_dependencies previous exts ≡ some tt → AllMet previous exts)
  check_extensions-AllMet previous [] = (λ m. refl, λ e. tt)
  check_extensions-AllMet previous (ext ∷ exts) =
      let (there, back) = check_extensions-AllMet (previous ++ ext ∷ []) exts in
      let (there1, back1) = check_deps-Met ext.name ext.deps previous in
      (
        λ (met, rest).
            bind-some (λ _. check_extensions_dependencies (previous ++ ext ∷ []) exts) (there1 met)
            ∙ there rest,
        λ e.
            let (u, first, others) = bind_parts (check_deps ext.name ext.deps previous) _ tt e in
            (back1 first, back others),
      )

  -- No name stands twice among the ops of the core and those that are declared.
  abbrev pub UniqueNames : List OpDecl → List (Extension State) → Type 0
  UniqueNames core exts = (name : String) → occurrences name (core ++ declared exts) ≤ 1

  abbrev all_ops : List OpDecl → List (Extension State) → List OpDecl
  all_ops core exts = map (wrap (middlewares exts)) core ++ collect_ops (middlewares exts) exts

  all_ops_lem :
      (core : List OpDecl) (exts : List (Extension State))
      → all_ops core exts ≡ map (wrap (middlewares exts)) (core ++ declared exts)
  all_ops_lem core exts =
      ap (λ os. map (wrap (middlewares exts)) core ++ os) (collect_ops_lem (middlewares exts) exts)
      ∙ sym (map-append (wrap (middlewares exts)) core (declared exts))

  occurrences-all :
      (core : List OpDecl) (exts : List (Extension State)) (name : String)
      → occurrences name (all_ops core exts) ≡ occurrences name (core ++ declared exts)
  occurrences-all core exts name =
      ap (occurrences name) (all_ops_lem core exts)
      ∙ occurrences-wrap name (middlewares exts) (core ++ declared exts)

  -- The middleware of each extension, that of the first one first.
  abbrev pub through : List (Extension State) → OpDecl → OpDecl
  through [] op = op
  through (ext ∷ exts) op = elim ext.middleware_fn [
    | none ↦ through exts op
    | some m ↦ through exts (m op)
  ]

  abbrev pub all_objects : List (Extension State) → List OpMethodDecl
  all_objects [] = []
  all_objects (ext ∷ exts) = ext.objects ++ all_objects exts

  macroware_next :
      (exts : List (Extension State)) (op : OpDecl) (m : Option (OpDecl → OpDecl))
      → ((d : OpDecl) → macroware (middlewares exts) d ≡ through exts d)
      → macroware (elim m [ none ↦ middlewares exts | some f ↦ f ∷ middlewares exts ]) op
        ≡ elim m [ none ↦ through exts op | some f ↦ through exts (f op) ]
  macroware_next exts op none h = h op
  macroware_next exts op (some f) h = h (f op)

  macroware_lem :
      (exts : List (Extension State)) (op : OpDecl)
      → macroware (middlewares exts) op ≡ through exts op
  macroware_lem [] op = refl
  macroware_lem (ext ∷ exts) op =
      macroware_next exts op ext.middleware_fn (λ d. macroware_lem exts d)

  wrap_lem :
      (exts : List (Extension State)) (ops : List OpDecl)
      → map (wrap (middlewares exts)) ops ≡ map (under_own_name (through exts)) ops
  wrap_lem exts [] = refl
  wrap_lem exts (op ∷ ops) =
      ap₂ ◌∷◌
        (ap (λ (d : OpDecl). record d { name = op.name; name_fast = op.name_fast })
          (macroware_lem exts op))
        (wrap_lem exts ops)

  collect_methods_lem : (exts : List (Extension State)) → collect_methods exts ≡ all_objects exts
  collect_methods_lem [] = refl
  collect_methods_lem (ext ∷ exts) = ap (λ os. ext.objects ++ os) (collect_methods_lem exts)

  -- When each dependency of an extension is the name of an earlier one and not its own, and no
  -- name stands twice among the ops, `init_ops` returns the ops of the core and then those that
  -- the extensions declare, each as the middleware functions of all extensions, that of the
  -- first one first, make it, but with its own names; the classes of the extensions in order;
  -- and the extensions without middleware. It does so whether or not an extension is enabled.
  pub init_ops_lem :
      (core : List OpDecl) (exts : List (Extension State))
      → AllMet [] exts
      → UniqueNames core exts
      → init_ops core exts
        ≡ some (
          map (under_own_name (through exts)) (core ++ declared exts),
          all_objects exts,
          map (λ (ext : Extension State). record ext { middleware_fn = none }) exts,
        )
  unfolding init_ops
  init_ops_lem core exts met unique =
      bind-some
        (λ _.
          check_no_duplicate_op_names (all_ops core exts)
          >> some (all_ops core exts, collect_methods exts, map take_middleware exts))
        ((check_extensions-AllMet [] exts).0 met)
      ∙ bind-some (λ _. some (all_ops core exts, collect_methods exts, map take_middleware exts))
          ((check_names_lem (all_ops core exts)).1
            (λ name. omega (arith, occurrences-all core exts name, unique name)))
      ∙ ap₂ (λ os cs. some (os, cs, map take_middleware exts))
          (all_ops_lem core exts ∙ wrap_lem exts (core ++ declared exts)) (collect_methods_lem exts)

  -- When `init_ops` returns, each dependency of an extension is the name of an earlier one and
  -- not its own, and no name stands twice among the ops of the core and those that are declared.
  pub init_ops_returns :
      (core : List OpDecl) (exts : List (Extension State))
      (r : List OpDecl × List OpMethodDecl × List (Extension State))
      → init_ops core exts ≡ some r
      → AllMet [] exts × UniqueNames core exts
  unfolding init_ops
  init_ops_returns core exts r e =
      let (u, met, e1) = bind_parts (check_extensions_dependencies [] exts) _ r e in
      let (v, unique, e2) = bind_parts (check_no_duplicate_op_names (all_ops core exts)) _ r e1 in
      (
        (check_extensions-AllMet [] exts).1 met,
        λ name. omega (
          arith,
          occurrences-all core exts name,
          (check_names_lem (all_ops core exts)).0 unique name,
        ),
      )
