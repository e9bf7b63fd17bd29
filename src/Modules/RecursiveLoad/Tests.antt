-- ===== src/Modules/RecursiveLoad/Tests.antt =====
-- A map of two modules that import one another; the first also imports one that is not registered.
use Prim.Native.String.{String}
use mathlib.Core.Logic.{ite}
use deno_core.Common.{
  take, ◌≤◌, ◌<◌, ℕ, zero, suc, ◌≡◌, ◌≢◌, refl, true, false, List, [], ◌∷◌, Option, none, some,
  contains, String-discrete, arith,
}
use deno_core.Modules.{
  ModuleType, RequestedModuleType, RequestedModuleType-discrete, ModuleReference, ModuleRequest,
  ModuleImportPhase, evaluation,
}
use deno_core.Modules.RecursiveLoad.{
  ModuleReference-discrete, ModuleGraph, main_module, loading_root, RecursiveModuleLoad,
}
use deno_core.Modules.NameTypeMap
use deno_core.Modules.NameTypeMap.{index_of}
use deno_core.Modules.MapData.{new_data, get_id}
use deno_core.Modules.RecursiveLoad.Graph.{IdsKnown, graph_of}
use deno_core.Modules.RecursiveLoad.Referrer.{unchanged, mapped, source_mapped_module_load_referrer}
use deno_core.Modules.RecursiveLoad.Referrer.Position.{scan, referrer_lem}
use deno_core.Modules.RecursiveLoad.Poll.{
  new_load, registered, register_and_recurse, start_load, found, item, ready, poll_loading,
  poll_pending, poll_next,
}
use deno_core.Modules.RecursiveLoad.Laws.{Settled, register_and_recurse_lem}

abbrev reference_to : String → ModuleReference
reference_to specifier = record {
  specifier = specifier;
  requested_module_type = RequestedModuleType.none;
}

abbrev request_of : String → ModuleRequest
request_of specifier = record {
  reference = reference_to specifier;
  specifier_key = none;
  referrer_source_offset = none;
  phase = evaluation;
}

abbrev module_a : ModuleReference
module_a = reference_to "file:///a.js"

abbrev module_b : ModuleReference
module_b = reference_to "file:///b.js"

abbrev id_of : ModuleReference → Option ℕ
id_of r =
    ite (ModuleReference-discrete module_a r) (some 0)
      (ite (ModuleReference-discrete module_b r) (some 1) none)

abbrev imports_of : ℕ → Option (List ModuleRequest)
imports_of zero = some (request_of "file:///b.js" ∷ request_of "file:///c.js" ∷ [])
imports_of (suc n) = some (request_of "file:///a.js" ∷ [])

id_of_known :
    (r : ModuleReference) (id : ℕ)
    → id_of r ≡ some id
    → contains ModuleReference-discrete r (module_a ∷ module_b ∷ []) ≡ true
id_of_known r id e =
    by (ModuleReference-discrete module_a r) (ModuleReference-discrete module_b r) e
  where
    by :
        (d : Dec (module_a ≡ r)) (d' : Dec (module_b ≡ r))
        → ite d (some 0) (ite d' (some 1) none) ≡ some id
        → ite d true (ite d' true false) ≡ true
    by (yes p) d' e = refl
    by (no p) (yes q) e = refl
    by (no p) (no q) e = absurd (ground (arith, e))

imports_of_all : (id : ℕ) → (imports : List ModuleRequest) × (imports_of id ≡ some imports)
imports_of_all zero = (request_of "file:///b.js" ∷ request_of "file:///c.js" ∷ [], refl)
imports_of_all (suc n) = (request_of "file:///a.js" ∷ [], refl)

abbrev two_modules : ModuleGraph
two_modules = record {
  get_requested_modules = imports_of;
  get_id = id_of;
  known = module_a ∷ module_b ∷ [];
  known_lem = id_of_known;
  registered_lem = λ r id e. imports_of_all id;
}

abbrev fresh_load : RecursiveModuleLoad
fresh_load = record {
  root_module_id = some 0;
  init = main_module "file:///a.js";
  state = loading_root;
  pending = [];
  visited = [];
  visited_as_alias = [];
  root_module_reference = some module_a;
}

a_registered : id_of module_a ≡ some 0
unfolding ModuleReference-discrete String-discrete RequestedModuleType-discrete
a_registered = refl

is_evaluation : (request_of "file:///a.js").phase ≢ ModuleImportPhase.source
is_evaluation e = absurd (ground (arith, e))

register_and_recurse_lem_example :
    (load' : RecursiveModuleLoad) × (register_and_recurse 3 fresh_load
        (request_of "file:///a.js")
        ModuleType.java_script
        (some tt)
        (some (0, two_modules))
      ≡ some (registered load'))
    × Settled two_modules load'
register_and_recurse_lem_example =
    register_and_recurse_lem two_modules 3 fresh_load (request_of "file:///a.js")
      ModuleType.java_script 0 is_evaluation a_registered (omega arith) (λ r h. absurd h)

-- A registry without modules.
empty_known : IdsKnown new_data
unfolding new_data NameTypeMap.empty NameTypeMap.get index_of
empty_known ty name id e = absurd (ground (arith, e))

abbrev empty_graph : ModuleGraph
empty_graph = graph_of 0 new_data empty_known

abbrev new_root : RecursiveModuleLoad
new_root = new_load empty_graph (main_module "file:///a.js") (some "file:///a.js")

-- A loader that answers at once: the first poll returns the root, and nothing is left pending.
synchronous_root :
    poll_next empty_graph 3 (some "file:///a.js") ((0, found none) ∷ []) new_root
    ≡ some (
      record new_root { state = loading_root; root_module_reference = some module_a },
      ready (item (request_of "file:///a.js")),
    )
unfolding poll_next start_load new_load poll_loading poll_pending graph_of new_data
    NameTypeMap.empty NameTypeMap.get index_of get_id
synchronous_root = refl

-- Two lines; the offset is that of the second byte of the second line.
abbrev two_lines : List ℕ
two_lines = 97 ∷ 10 ∷ 98 ∷ 99 ∷ []

referrer_lem_example :
    (3 ≤ 4
      → let (line, column) = scan (1, 1) (take 3 two_lines) in
        source_mapped_module_load_referrer (λ s l c. unchanged) some "file:///a.js" two_lines 3
        ≡ mapped some "file:///a.js" (line, column) unchanged)
    × (4 < 3
        → source_mapped_module_load_referrer (λ s l c. unchanged) some "file:///a.js" two_lines 3
          ≡ none)
referrer_lem_example =
    referrer_lem (λ s l c. unchanged) some "file:///a.js" two_lines 3 (omega arith)
