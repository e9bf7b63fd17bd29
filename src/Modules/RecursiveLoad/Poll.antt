-- ===== src/Modules/RecursiveLoad/Poll.antt =====
-- core/modules/recursive_load.rs: the states of a load. What V8 and the module map make of a source
-- (`new_wasm_module_source`, `new_module`) and what the loader returns are arguments.
use Prim.Native.String.{String}
use deno_core.Common.{ℕ, List, [], ◌∷◌, ◌++◌, Option, none, some, ◌>>=◌, take_at}
use deno_core.Modules.{
  ModuleType, RequestedModuleType, ModuleRequest, ModuleImportPhase, evaluation, source, defer,
}
use deno_core.Modules.RecursiveLoad.{
  ModuleGraph, LoadInit, main_module, side_module, dynamic_import, LoadState, init, loading_root,
  loading_imports, done, RecursiveModuleLoad, register_and_recurse_inner,
}

abbrev pub requested_type : LoadInit → RequestedModuleType
requested_type (main_module specifier) = RequestedModuleType.none
requested_type (side_module specifier kind code) = RequestedModuleType.none
requested_type (dynamic_import specifier referrer type phase) = type

abbrev pub requested_phase : LoadInit → ModuleImportPhase
requested_phase (main_module specifier) = evaluation
requested_phase (side_module specifier kind code) = evaluation
requested_phase (dynamic_import specifier referrer type phase) = phase

abbrev pub root_id : ModuleGraph → LoadInit → Option String → Option ℕ
root_id graph from none = none
root_id graph from (some specifier) =
    graph.get_id (record { specifier = specifier; requested_module_type = requested_type from })

-- `resolved` is what `resolve_root` returns, `none` for an error.
unfoldable pub new_load : ModuleGraph → LoadInit → Option String → RecursiveModuleLoad
new_load graph from resolved = record {
  root_module_id = root_id graph from resolved;
  init = from;
  state = init;
  pending = [];
  visited = [];
  visited_as_alias = [];
  root_module_reference = none;
}

abbrev pub state_after : LoadState → List ModuleRequest → LoadState
state_after state [] = done
state_after state (request ∷ pending) = state

-- `if self.pending.is_empty() { self.state = Done }`
abbrev pub done_if_idle : RecursiveModuleLoad → RecursiveModuleLoad
done_if_idle load = record load { state = state_after load.state load.pending }

abbrev pub enter_imports : LoadState → ℕ → RecursiveModuleLoad → RecursiveModuleLoad
enter_imports loading_root module_id load = record load {
  root_module_id = some module_id;
  state = loading_imports;
}
enter_imports init module_id load = load
enter_imports loading_imports module_id load = load
enter_imports done module_id load = load

-- The result of `register_and_recurse`: an error of the module, or the load.
pub data RegisterResult : Type 0 where
  module_error : RecursiveModuleLoad → RegisterResult
  registered : RecursiveModuleLoad → RegisterResult

abbrev pub register_module :
    ℕ → RecursiveModuleLoad → ModuleRequest → Option (ℕ × ModuleGraph) → Option RegisterResult
register_module fuel load request none = some (module_error load)
register_module fuel load request (some (module_id, graph)) = do
  load' ← register_and_recurse_inner graph fuel load module_id request.reference
  some (registered (done_if_idle (enter_imports load'.state module_id load')))

-- A source with a kind, which only a Wasm module has; `kept` is what V8 makes of it.
abbrev pub register_wasm :
    ℕ
    → RecursiveModuleLoad
    → ModuleRequest
    → ModuleImportPhase
    → Option (Unit {0})
    → Option (ℕ × ModuleGraph)
    → Option RegisterResult
register_wasm fuel load request phase none created = some (module_error load)
register_wasm fuel load request source (some _) created = some (registered (done_if_idle load))
register_wasm fuel load request evaluation (some _) created =
    register_module fuel load request created
register_wasm fuel load request defer (some _) created = register_module fuel load request created

abbrev pub register_other :
    ℕ
    → RecursiveModuleLoad
    → ModuleRequest
    → ModuleImportPhase
    → Option (ℕ × ModuleGraph)
    → Option RegisterResult
register_other fuel load request source created = some (module_error load)
register_other fuel load request evaluation created = register_module fuel load request created
register_other fuel load request defer created = register_module fuel load request created

-- `created` is the id of the new module and the module map with it, `none` for an error.
unfoldable pub register_and_recurse :
    ℕ
    → RecursiveModuleLoad
    → ModuleRequest
    → ModuleType
    → Option (Unit {0})
    → Option (ℕ × ModuleGraph)
    → Option RegisterResult
register_and_recurse fuel load request ModuleType.wasm kept created =
    register_wasm fuel load request request.phase kept created
register_and_recurse fuel load request ModuleType.java_script kept created =
    register_other fuel load request request.phase created
register_and_recurse fuel load request ModuleType.json kept created =
    register_other fuel load request request.phase created
register_and_recurse fuel load request ModuleType.text kept created =
    register_other fuel load request request.phase created
register_and_recurse fuel load request ModuleType.bytes kept created =
    register_other fuel load request request.phase created
register_and_recurse fuel load request (ModuleType.other type) kept created =
    register_other fuel load request request.phase created

abbrev pub root_request : LoadInit → String → ModuleRequest
root_request from specifier = record {
  reference = record { specifier = specifier; requested_module_type = requested_type from };
  specifier_key = none;
  referrer_source_offset = none;
  phase = requested_phase from;
}

-- The root is not in the map: it is loaded.
abbrev pub load_root : RecursiveModuleLoad → ModuleRequest → RecursiveModuleLoad
load_root load request = record load {
  pending = load.pending ++ request ∷ [];
  state = loading_root;
}

-- The root is in the map: its imports are loaded.
abbrev pub recurse_root :
    ModuleGraph → ℕ → RecursiveModuleLoad → ModuleRequest → ℕ → Option RecursiveModuleLoad
recurse_root graph fuel load request module_id = do
  load' ← register_and_recurse_inner graph fuel load module_id request.reference
  some (record load' { state = state_after loading_imports load'.pending })

abbrev pub start_root :
    ModuleGraph
    → ℕ
    → RecursiveModuleLoad
    → ModuleRequest
    → ModuleImportPhase
    → Option ℕ
    → Option RecursiveModuleLoad
start_root graph fuel load request evaluation (some module_id) =
    recurse_root graph fuel load request module_id
start_root graph fuel load request evaluation none = some (load_root load request)
start_root graph fuel load request source id = some (load_root load request)
start_root graph fuel load request defer id = some (load_root load request)

-- What `poll_next` does in the state `init`, with a root that was resolved, before it polls again.
unfoldable pub start_load :
    ModuleGraph → ℕ → RecursiveModuleLoad → String → Option RecursiveModuleLoad
start_load graph fuel load specifier =
    let request = root_request load.init specifier in
    start_root graph fuel (record load { root_module_reference = some request.reference }) request
      request.phase load.root_module_id

-- What a pending future returns: an error, nothing for an alias that was visited, or a source and
-- the specifier that it was found under.
pub data Loaded : Type 0 where
  failed skipped : Loaded
  found : Option String → Loaded

pub data Item : Type 0 where
  load_error end repoll : Item
  item : ModuleRequest → Item

abbrev pub with_alias : Option String → RecursiveModuleLoad → RecursiveModuleLoad
with_alias none load = load
with_alias (some specifier) load = record load {
  visited_as_alias = specifier ∷ load.visited_as_alias;
}

abbrev pub skip_item : List ModuleRequest → Item
skip_item [] = end
skip_item (request ∷ pending) = repoll

abbrev pub poll_finished : Loaded → ModuleRequest → RecursiveModuleLoad → RecursiveModuleLoad × Item
poll_finished failed request load = (load, load_error)
poll_finished skipped request load = (done_if_idle load, skip_item load.pending)
poll_finished (found specifier) request load = (with_alias specifier load, item request)

-- `poll_next` while loading: the pending future at a position returns.
unfoldable pub poll_pending : RecursiveModuleLoad → ℕ → Loaded → Option (RecursiveModuleLoad × Item)
poll_pending load i loaded = do
  (request, pending) ← take_at i load.pending
  some (poll_finished loaded request (record load { pending = pending }))

-- `Poll::Pending`, or an item or the end of the stream.
pub data Polled : Type 0 where
  waits : Polled
  ready : Item → Polled

-- A poll goes on after a future that was skipped, unless nothing is pending.
abbrev pub go_on :
    (RecursiveModuleLoad → Option (RecursiveModuleLoad × Polled))
    → RecursiveModuleLoad × Item
    → Option (RecursiveModuleLoad × Polled)
go_on again (load, repoll) = again load
go_on again (load, load_error) = some (load, ready load_error)
go_on again (load, end) = some (load, ready end)
go_on again (load, item request) = some (load, ready (item request))

-- The set of pending futures is empty only where the load is done: otherwise the code panics.
abbrev pub waits_for :
    List ModuleRequest → RecursiveModuleLoad → Option (RecursiveModuleLoad × Polled)
waits_for [] load = none
waits_for (request ∷ pending) load = some (load, waits)

-- `poll_next` while loading. `answers` has the futures that are ready, by their position and what
-- they return, in the order in which the set of futures yields them.
unfoldable pub poll_loading :
    List (ℕ × Loaded) → RecursiveModuleLoad → Option (RecursiveModuleLoad × Polled)
poll_loading [] load = waits_for load.pending load
poll_loading ((i, loaded) ∷ answers) load =
    poll_pending load i loaded >>= go_on (poll_loading answers)

-- `poll_next` where `init` is dealt with by `started`.
abbrev pub poll_state :
    Option (RecursiveModuleLoad × Polled)
    → LoadState
    → List (ℕ × Loaded)
    → RecursiveModuleLoad
    → Option (RecursiveModuleLoad × Polled)
poll_state started init answers load = started
poll_state started loading_root answers load = poll_loading answers load
poll_state started loading_imports answers load = poll_loading answers load
poll_state started done answers load = some (load, ready end)

-- The poll that follows within the first one; `start_load` does not leave a load in `init`.
abbrev pub poll_again :
    List (ℕ × Loaded) → RecursiveModuleLoad → Option (RecursiveModuleLoad × Polled)
poll_again answers load = poll_state none load.state answers load

-- `poll_next` in the state `init`; `resolved` is what `resolve_root` returns.
abbrev pub poll_init :
    ModuleGraph
    → ℕ
    → Option String
    → List (ℕ × Loaded)
    → RecursiveModuleLoad
    → Option (RecursiveModuleLoad × Polled)
poll_init graph fuel none answers load = some (load, ready load_error)
poll_init graph fuel (some specifier) answers load =
    start_load graph fuel load specifier >>= poll_again answers

unfoldable pub poll_next :
    ModuleGraph
    → ℕ
    → Option String
    → List (ℕ × Loaded)
    → RecursiveModuleLoad
    → Option (RecursiveModuleLoad × Polled)
poll_next graph fuel resolved answers load =
    poll_state (poll_init graph fuel resolved answers load) load.state answers load
