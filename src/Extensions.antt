-- ===== src/Extensions.antt =====
-- core/extensions.rs and core/extension_set.rs: extensions, their ops and their sources. A debug
-- build is modelled: the dependencies and the names of the ops are checked. `none` is a panic.
pub mod Names
pub mod Ops
pub mod Sources
mod Tests
use Prim.Native.String.{String}
use deno_core.Common.{
  ℕ, zero, suc, ◌+◌, ◌≡◌, Bool, true, false, not, List, [], ◌∷◌, ◌++◌, map, Option, none, some, ltb,
  if◌then◌else◌, ◌>>=◌, ◌>>◌, length, lookup, insert, String-discrete,
}
use deno_core.Ops.{OpDecl, OpMethodDecl}

pub record ExtensionFileSource : Type 0 where
  pub specifier : String
  pub code : ℕ

pub record Extension (State : Type 0) : Type 0 where
  pub name : String
  pub deps : List String
  pub js_files : List ExtensionFileSource
  pub esm_files : List ExtensionFileSource
  pub lazy_loaded_esm_files : List ExtensionFileSource
  pub esm_entry_point : Option String
  pub ops : List OpDecl
  pub objects : List OpMethodDecl
  pub op_state_fn : Option (State → State)
  pub needs_lazy_init : Bool
  pub middleware_fn : Option (OpDecl → OpDecl)
  pub enabled : Bool

abbrev pub same_name : String → String → Bool
same_name s t = elim (String-discrete s t) [ yes _ ↦ true | no _ ↦ false ]

-- The functions that throw and that do nothing.
abbrev op_disabled_fn : ℕ
op_disabled_fn = 0

abbrev noop_fn : ℕ
noop_fn = 0

abbrev noop_of : Option ℕ → Option ℕ
noop_of none = none
noop_of (some f) = some noop_fn

unfoldable pub disable_decl : OpDecl → OpDecl
disable_decl decl = record decl {
  slow_fn = op_disabled_fn;
  slow_fn_with_metrics = op_disabled_fn;
  fast_fn = noop_of decl.fast_fn;
  fast_fn_with_metrics = noop_of decl.fast_fn_with_metrics;
}

-- `disable` takes and returns a value, and what it returns is dropped here.
abbrev pub disable_each : List OpDecl → List OpDecl
disable_each [] = []
disable_each (op ∷ ops) = let disabled = disable_decl op in op ∷ disable_each ops

module _ {State : Type 0} where
  unfoldable pub for_warmup : Extension State → Extension State
  for_warmup ext = record ext {
    op_state_fn = none;
    middleware_fn = none;
    js_files = [];
    esm_files = [];
    lazy_loaded_esm_files = [];
    esm_entry_point = none;
  }

  unfoldable pub set_enabled : Extension State → Bool → Extension State
  set_enabled ext enabled = record ext { enabled = enabled }

  abbrev pub extension_ops : Extension State → List OpDecl
  extension_ops ext = if not ext.enabled then disable_each ext.ops else ext.ops

  abbrev pub has_extension : String → List (Extension State) → Bool
  has_extension name [] = false
  has_extension name (ext ∷ exts) =
      if same_name name ext.name then true else has_extension name exts

  abbrev pub check_deps : String → List String → List (Extension State) → Option (Unit {0})
  check_deps name [] previous = some tt
  check_deps name (dep ∷ deps) previous =
      let rest = check_deps name deps previous in
      if same_name dep name then none else if has_extension dep previous then rest else none

  -- Each extension is checked against those before it.
  abbrev pub check_extensions_dependencies :
      List (Extension State) → List (Extension State) → Option (Unit {0})
  check_extensions_dependencies previous [] = some tt
  check_extensions_dependencies previous (ext ∷ exts) =
      check_deps ext.name ext.deps previous
      >> check_extensions_dependencies (previous ++ ext ∷ []) exts

  abbrev pub run_state_fn : Option (State → State) → State → State
  run_state_fn none state = state
  run_state_fn (some f) state = f state

  -- The state, the names of the lazy extensions, and the extensions without their functions.
  unfoldable pub setup_op_state :
      State → List (Extension State) → State × List String × List (Extension State)
  setup_op_state state [] = (state, [], [])
  setup_op_state state (ext ∷ exts) =
      let (last, names, left) = setup_op_state (run_state_fn ext.op_state_fn state) exts in
      (
        last,
        if ext.needs_lazy_init then ext.name ∷ names else names,
        record ext { op_state_fn = none } ∷ left,
      )

  abbrev pub middlewares : List (Extension State) → List (OpDecl → OpDecl)
  middlewares [] = []
  middlewares (ext ∷ exts) = elim ext.middleware_fn [
    | none ↦ middlewares exts
    | some m ↦ m ∷ middlewares exts
  ]

abbrev pub macroware : List (OpDecl → OpDecl) → OpDecl → OpDecl
macroware [] decl = decl
macroware (m ∷ ms) decl = macroware ms (m decl)

-- The names of an op stay, whatever the middleware does.
abbrev pub wrap : List (OpDecl → OpDecl) → OpDecl → OpDecl
wrap ms decl = record (macroware ms decl) { name = decl.name; name_fast = decl.name_fast }

-- How often each name stands in a list of ops.
abbrev pub or_zero : Option ℕ → ℕ
or_zero none = 0
or_zero (some n) = n

abbrev pub count_by_name : List (String × ℕ) → List OpDecl → List (String × ℕ)
count_by_name counts [] = counts
count_by_name counts (op ∷ ops) =
    count_by_name
      (insert String-discrete op.name (or_zero (lookup String-discrete op.name counts) + 1) counts)
      ops

abbrev pub duplicates : List (String × ℕ) → List String
duplicates [] = []
duplicates ((name, n) ∷ counts) = if ltb 1 n then name ∷ duplicates counts else duplicates counts

abbrev pub panic_unless_empty : List String → Option (Unit {0})
panic_unless_empty [] = some tt
panic_unless_empty (name ∷ names) = none

unfoldable pub check_no_duplicate_op_names : List OpDecl → Option (Unit {0})
check_no_duplicate_op_names ops = panic_unless_empty (duplicates (count_by_name [] ops))

module _ {State : Type 0} where
  abbrev pub collect_ops : List (OpDecl → OpDecl) → List (Extension State) → List OpDecl
  collect_ops ms [] = []
  collect_ops ms (ext ∷ exts) = map (wrap ms) (extension_ops ext) ++ collect_ops ms exts

  abbrev pub collect_methods : List (Extension State) → List OpMethodDecl
  collect_methods [] = []
  collect_methods (ext ∷ exts) = ext.objects ++ collect_methods exts

  abbrev pub take_middleware : Extension State → Extension State
  take_middleware ext = record ext { middleware_fn = none }

  -- The ops, the classes, and the extensions, whose middleware is taken.
  unfoldable pub init_ops :
      List OpDecl
      → List (Extension State)
      → Option (List OpDecl × List OpMethodDecl × List (Extension State))
  init_ops deno_core_ops extensions = do
    check_extensions_dependencies [] extensions
    let ms = middlewares extensions
    let ops = map (wrap ms) deno_core_ops ++ collect_ops ms extensions
    check_no_duplicate_op_names ops
    some (ops, collect_methods extensions, map take_middleware extensions)
