-- ===== src/Modules/RecursiveLoad.antt =====
-- core/modules/recursive_load.rs: RecursiveModuleLoad, which loads a graph of modules. The module map
-- is what the load asks of it: the requests of a registered module and the id under a reference. A
-- pending future is the request that it loads; which one ends next is an argument. `none` is a
-- panic, or fuel that ran out.
pub mod Walk
pub mod Poll
pub mod Graph
pub mod Referrer
pub mod Laws
pub mod FirstPoll
mod Tests
use Prim.Native.String.{String}
use mathlib.Core.Logic.{ite}
use deno_core.Common.{
  ℕ, zero, suc, ◌+◌, ◌≡◌, Bool, true, false, not, ◌&&◌, ◌||◌, List, [], ◌∷◌, ◌++◌, map, Option,
  none, some, if◌then◌else◌, ◌>>=◌, contains, String-discrete, take_at,
}
use deno_core.Modules.{
  RequestedModuleType, RequestedModuleType-discrete, ModuleReference, ModuleRequest,
  ModuleImportPhase, evaluation, source, defer,
}

unfoldable pub ModuleReference-discrete : Discrete ModuleReference
ModuleReference-discrete = hlevel (String-discrete, RequestedModuleType-discrete)

-- The parts of the module map that a load reads, with what the map promises: a reference that has
-- an id is among finitely many, and the id is that of a registered module.
pub record ModuleGraph : Type 0 where
  pub get_requested_modules : ℕ → Option (List ModuleRequest)
  pub get_id : ModuleReference → Option ℕ
  pub known : List ModuleReference
  pub known_lem :
      (r : ModuleReference) (id : ℕ)
      → get_id r ≡ some id
      → contains ModuleReference-discrete r known ≡ true
  pub registered_lem :
      (r : ModuleReference) (id : ℕ)
      → get_id r ≡ some id
      → (imports : List ModuleRequest) × (get_requested_modules id ≡ some imports)

pub data SideModuleKind : Type 0 where
  async sync : SideModuleKind

pub data LoadInit : Type 0 where
  main_module : String → LoadInit
  side_module : String → SideModuleKind → Option String → LoadInit
  dynamic_import : String → String → RequestedModuleType → ModuleImportPhase → LoadInit

pub data LoadState : Type 0 where
  init loading_root loading_imports done : LoadState

pub record RecursiveModuleLoad : Type 0 where
  pub root_module_id : Option ℕ
  pub init : LoadInit
  pub state : LoadState
  pub pending : List ModuleRequest
  pub visited : List ModuleReference
  pub visited_as_alias : List String
  pub root_module_reference : Option ModuleReference

-- The queue of registered modules, what is visited, what is pending.
pub record Worklist : Type 0 where
  pub already_registered : List (ℕ × ModuleReference)
  pub visited : List ModuleReference
  pub pending : List ModuleRequest

abbrev pub is_visited : List String → List ModuleReference → ModuleReference → Bool
is_visited visited_as_alias visited r =
    contains ModuleReference-discrete r visited
    || contains String-discrete r.specifier visited_as_alias

abbrev pub enqueue : Option ℕ → ModuleRequest → Worklist → Worklist
enqueue (some id) request w = record w {
  already_registered = w.already_registered ++ (id, request.reference) ∷ [];
  visited = request.reference ∷ w.visited;
}
enqueue none request w = record w {
  visited = request.reference ∷ w.visited;
  pending = w.pending ++ request ∷ [];
}

module _ (graph : ModuleGraph) (visited_as_alias : List String) where
  abbrev pub visit : ModuleRequest → Worklist → Worklist
  visit request w =
      if is_visited visited_as_alias w.visited request.reference
      then w
      else enqueue (graph.get_id request.reference) request w

  -- The loop over the imports of a module.
  abbrev pub visit_all : List ModuleRequest → Worklist → Worklist
  visit_all [] w = w
  visit_all (request ∷ requests) w = visit_all requests (visit request w)

  abbrev pub pop_queue :
      List (ℕ × ModuleReference)
      → (ℕ → List (ℕ × ModuleReference) → Option Worklist)
      → Option Worklist
      → Option Worklist
  pop_queue [] next end = end
  pop_queue ((id, r) ∷ queue) next end = next id queue

  -- The loop over the queue.
  unfoldable pub recurse : ℕ → Worklist → Option Worklist
  recurse zero w = pop_queue w.already_registered (λ id queue. none) (some w)
  recurse (suc fuel) w =
      pop_queue w.already_registered
        (λ id queue. graph.get_requested_modules id >>= λ imports.
          recurse fuel (visit_all imports (record w { already_registered = queue })))
        (some w)

unfoldable pub register_and_recurse_inner :
    ModuleGraph → ℕ → RecursiveModuleLoad → ℕ → ModuleReference → Option RecursiveModuleLoad
register_and_recurse_inner graph fuel load module_id module_reference = do
  w ← recurse graph load.visited_as_alias fuel (record {
    already_registered = (module_id, module_reference) ∷ [];
    visited = module_reference ∷ load.visited;
    pending = load.pending;
  })
  some (record load { visited = w.visited; pending = w.pending })
