-- ===== src/Modules/RecursiveLoad/Laws.antt =====
-- core/modules/recursive_load.rs: when a load is done, the whole graph that it reached is registered.
use Prim.Native.String.{String}
use deno_core.Common.{
  ℕ, suc, ◌≤◌, ◌≡◌, refl, sym, ap, ap₂, some_value, ◌∙◌, ◌≢◌, subst, ◌⊎◌, inl, inr, List, [], ◌∷◌,
  Option, none, some, bind-some, length, In, lacking_bound, Option-cases, arith,
}
use deno_core.Modules.{
  ModuleType, ModuleReference, ModuleRequest, ModuleImportPhase, evaluation, source, defer,
}
use deno_core.Modules.RecursiveLoad.{
  ModuleReference-discrete, ModuleGraph, LoadInit, LoadState, init, loading_root, loading_imports,
  done, RecursiveModuleLoad, register_and_recurse_inner,
}
use deno_core.Modules.RecursiveLoad.Walk.{references, AllSeen, Seen-more, Covers, recurse_lem}
use deno_core.Modules.RecursiveLoad.Poll.{
  new_load, state_after, done_if_idle, enter_imports, registered, register_module, register_wasm,
  register_other, register_and_recurse, root_request, load_root, start_root, start_load,
}

-- Every import of the module under a reference was seen, if it is registered; else it is pending.
abbrev pub Followed : ModuleGraph → RecursiveModuleLoad → ModuleReference → Type 0
Followed graph load r =
    ((id : ℕ)
      → graph.get_id r ≡ some id
      → (imports : List ModuleRequest) → graph.get_requested_modules id ≡ some imports
      → AllSeen graph load.visited_as_alias load.visited imports)
    × (graph.get_id r ≡ none → In r (references load.pending))

abbrev pub AllFollowed : ModuleGraph → RecursiveModuleLoad → Type 0
AllFollowed graph load = (r : ModuleReference) → In r load.visited → Followed graph load r

-- As before, but for one reference that was just registered.
abbrev pub FollowedBut : ModuleGraph → RecursiveModuleLoad → ModuleReference → Type 0
FollowedBut graph load new =
    (r : ModuleReference) → In r load.visited → (new ≡ r) ⊎ Followed graph load r

abbrev pub with_visited :
    RecursiveModuleLoad → List ModuleReference → List ModuleRequest → RecursiveModuleLoad
with_visited load visited pending = record load { visited = visited; pending = pending }

inner_lem :
    (graph : ModuleGraph) (fuel : ℕ) (load : RecursiveModuleLoad) (id : ℕ) (r : ModuleReference)
    → graph.get_id r ≡ some id
    → suc (length graph.known) ≤ fuel
    → FollowedBut graph load r
    → (visited : List ModuleReference) × (pending : List ModuleRequest)
      × (register_and_recurse_inner graph fuel load id r ≡ some (with_visited load visited pending))
      × AllFollowed graph (with_visited load visited pending)
unfolding register_and_recurse_inner
inner_lem graph fuel load id r at enough before =
    let (w', e, empty, covers, keeps) =
      recurse_lem graph load.visited_as_alias fuel ((id, r) ∷ []) (r ∷ load.visited) load.pending
        (omega
          (arith, enough, lacking_bound ModuleReference-discrete (r ∷ load.visited) graph.known))
        queue_registered start in
    (
      w'.visited,
      w'.pending,
      bind-some (λ w. some (with_visited load w.visited w.pending)) e,
      λ k visited.
          let (handled, waits) = covers k visited in
          (
            λ i at' imports found. elim (handled i at') [
              | inl queued ↦ absurd (subst (In {A = ℕ × ModuleReference} (i, k)) empty queued)
              | inr all ↦ all imports found
            ],
            waits,
          ),
    )
  where
    queue_registered :
        (i : ℕ) (k : ModuleReference)
        → In {A = ℕ × ModuleReference} (i, k) ((id, r) ∷ [])
        → graph.get_id k ≡ some i
    queue_registered i k (inl same) =
        ap graph.get_id (sym (ap (λ e. e.1) same)) ∙ at ∙ ap some (ap (λ e. e.0) same)
    queue_registered i k (inr none_left) = absurd none_left

    root :
        (k : ModuleReference)
        → r ≡ k
        → ((i : ℕ)
            → graph.get_id k ≡ some i
            → In {A = ℕ × ModuleReference} (i, k) ((id, r) ∷ [])
              ⊎ ((imports : List ModuleRequest)
                  → graph.get_requested_modules i ≡ some imports
                  → AllSeen graph load.visited_as_alias (r ∷ load.visited) imports))
          × (graph.get_id k ≡ none → In k (references load.pending))
    root k same = (
      λ i at'.
          inl (inl (ap₂ (λ n q. (n, q)) (some_value (sym at ∙ ap graph.get_id same ∙ at')) same)),
      λ at'. absurd (ground (arith, sym at ∙ ap graph.get_id same ∙ at')),
    )

    start : Covers graph load.visited_as_alias (record {
      already_registered = (id, r) ∷ [];
      visited = r ∷ load.visited;
      pending = load.pending;
    })
    start k (inl same) = root k same
    start k (inr old) = elim (before k old) [
      | inl same ↦ root k same
      | inr (handled, waits) ↦ (
        λ i at'. inr (λ imports found q h.
            Seen-more graph load.visited_as_alias q.reference r load.visited
              (handled i at' imports found q h)),
        waits,
      )
    ]

-- The load after a module was registered: what is visited is followed; and once nothing is pending
-- the load is done and everything visited is registered, with all its imports seen.
abbrev pub Settled : ModuleGraph → RecursiveModuleLoad → Type 0
Settled graph load =
    AllFollowed graph load
    × (load.pending ≡ []
        → (load.state ≡ done)
          × ((r : ModuleReference)
              → In r load.visited
              → (id : ℕ) × (graph.get_id r ≡ some id)
                × ((imports : List ModuleRequest)
                    → graph.get_requested_modules id ≡ some imports
                    → AllSeen graph load.visited_as_alias load.visited imports)))

Followed-Settled :
    (graph : ModuleGraph) (load : RecursiveModuleLoad)
    → (load.pending ≡ [] → load.state ≡ done)
    → AllFollowed graph load
    → Settled graph load
Followed-Settled graph load idle followed = (
  followed,
  λ empty. (
    idle empty,
    λ r visited. elim (Option-cases (graph.get_id r)) [
      | inl missing ↦
          absurd (subst (λ qs. In r (references qs)) empty ((followed r visited).1 missing))
      | inr (id, at) ↦ (id, at, (followed r visited).0 id at)
    ],
  ),
)

state_after_lem :
    (state : LoadState) (pending : List ModuleRequest)
    → pending ≡ []
    → state_after state pending ≡ done
state_after_lem state [] e = refl
state_after_lem state (q ∷ pending) e = absurd (ground (arith, e))

entered :
    (graph : ModuleGraph) (load : RecursiveModuleLoad) (id : ℕ) (state : LoadState)
    → AllFollowed graph load
    → AllFollowed graph (done_if_idle (enter_imports state id load))
entered graph load id init followed = followed
entered graph load id loading_root followed = followed
entered graph load id loading_imports followed = followed
entered graph load id done followed = followed

register_module_lem :
    (graph : ModuleGraph) (fuel : ℕ) (load : RecursiveModuleLoad) (request : ModuleRequest) (id : ℕ)
    → graph.get_id request.reference ≡ some id
    → suc (length graph.known) ≤ fuel
    → FollowedBut graph load request.reference
    → (load' : RecursiveModuleLoad) × (register_module fuel load request (some (id, graph))
        ≡ some (registered load'))
      × Settled graph load'
register_module_lem graph fuel load request id at enough before =
    let (visited, pending, e, followed) =
      inner_lem graph fuel load id request.reference at enough before in
    let inner = with_visited load visited pending in
    let last = done_if_idle (enter_imports load.state id inner) in
    (
      last,
      bind-some (λ l. some (registered (done_if_idle (enter_imports l.state id l)))) e,
      Followed-Settled graph last
          (state_after_lem (enter_imports load.state id inner).state
            (enter_imports load.state id inner).pending)
          (entered graph inner id load.state followed),
    )

-- Take a module that was just registered under its reference, for a request that is not of the
-- source phase, and a load in which every visited reference but that one is followed: a
-- registered one has all its imports seen, another one is pending. Then, with fuel for the
-- references that the module map knows and one more, registering the module and walking over its
-- imports ends without a panic, and every visited reference is followed. If nothing is pending
-- after that, the load is done, and everything that it visited is registered, with all its
-- imports seen.
pub register_and_recurse_lem :
    (graph : ModuleGraph) (fuel : ℕ) (load : RecursiveModuleLoad) (request : ModuleRequest)
    (type : ModuleType) (id : ℕ)
    → request.phase ≢ source
    → graph.get_id request.reference ≡ some id
    → suc (length graph.known) ≤ fuel
    → FollowedBut graph load request.reference
    → (load' : RecursiveModuleLoad) × (register_and_recurse fuel load request type
          (some tt)
          (some (id, graph))
        ≡ some (registered load'))
      × Settled graph load'
unfolding register_and_recurse
register_and_recurse_lem graph fuel load request type id not_source at enough before =
    let (load', e, settled) = register_module_lem graph fuel load request id at enough before in
    (load', same type ∙ e, settled)
  where
    by_wasm :
        (phase : ModuleImportPhase)
        → phase ≢ source
        → register_wasm fuel load request phase (some tt) (some (id, graph))
          ≡ register_module fuel load request (some (id, graph))
    by_wasm evaluation h = refl
    by_wasm defer h = refl
    by_wasm source h = absurd (h refl)

    by_other :
        (phase : ModuleImportPhase)
        → phase ≢ source
        → register_other fuel load request phase (some (id, graph))
          ≡ register_module fuel load request (some (id, graph))
    by_other evaluation h = refl
    by_other defer h = refl
    by_other source h = absurd (h refl)

    same :
        (t : ModuleType)
        → register_and_recurse fuel load request t (some tt) (some (id, graph))
          ≡ register_module fuel load request (some (id, graph))
    same ModuleType.wasm = by_wasm request.phase not_source
    same ModuleType.java_script = by_other request.phase not_source
    same ModuleType.json = by_other request.phase not_source
    same ModuleType.text = by_other request.phase not_source
    same ModuleType.bytes = by_other request.phase not_source
    same (ModuleType.other t) = by_other request.phase not_source

-- A new load whose root resolves is started without a panic.
pub start_load_lem :
    (graph : ModuleGraph) (fuel : ℕ) (from : LoadInit) (specifier : String)
    → suc (length graph.known) ≤ fuel
    → (load' : RecursiveModuleLoad) × (start_load graph fuel
          (new_load graph from (some specifier))
          specifier
        ≡ some load')
      × ((load'.state ≢ init) × (load'.state ≡ done → load'.pending ≡ []))
      × (load'.root_module_reference ≡ some (root_request from specifier).reference)
      × Settled graph load'
unfolding new_load start_load
start_load_lem graph fuel from specifier enough =
    by (root_request from specifier).phase (graph.get_id (root_request from specifier).reference)
      refl
  where
    started : RecursiveModuleLoad
    started = record (new_load graph from (some specifier)) {
      root_module_reference = some (root_request from specifier).reference;
    }

    still_loading : (pending : List ModuleRequest) → state_after loading_imports pending ≢ init
    still_loading [] e = absurd (ground (arith, e))
    still_loading (q ∷ qs) e = absurd (ground (arith, e))

    idle :
        (pending : List ModuleRequest) → state_after loading_imports pending ≡ done → pending ≡ []
    idle [] e = refl
    idle (q ∷ qs) e = absurd (ground (arith, e))

    waiting : RecursiveModuleLoad
    waiting = load_root started (root_request from specifier)

    root_pending :
        (load' : RecursiveModuleLoad) × (some waiting ≡ some load')
        × ((load'.state ≢ init) × (load'.state ≡ done → load'.pending ≡ []))
        × (load'.root_module_reference ≡ some (root_request from specifier).reference)
        × Settled graph load'
    root_pending = (
      waiting,
      refl,
      (λ e. absurd (ground (arith, e)), λ e. absurd (ground (arith, e))),
      refl,
      Followed-Settled graph waiting (λ e. absurd (ground (arith, e))) (λ r h. absurd h),
    )

    by :
        (phase : ModuleImportPhase) (id : Option ℕ)
        → graph.get_id (root_request from specifier).reference ≡ id
        → (load' : RecursiveModuleLoad) × (start_root graph fuel started
              (root_request from specifier)
              phase
              id
            ≡ some load')
          × ((load'.state ≢ init) × (load'.state ≡ done → load'.pending ≡ []))
          × (load'.root_module_reference ≡ some (root_request from specifier).reference)
          × Settled graph load'
    by evaluation (some id) at =
        let (visited, pending, e, followed) =
          inner_lem graph fuel started id (root_request from specifier).reference at enough
            (λ r h. absurd h) in
        (
          record (with_visited started visited pending) {
            state = state_after loading_imports pending;
          },
          bind-some {A = RecursiveModuleLoad}
              (λ l. some (record l { state = state_after loading_imports l.pending })) e,
          (still_loading pending, idle pending),
          refl,
          Followed-Settled graph
              (record (with_visited started visited pending) {
                state = state_after loading_imports pending;
              })
              (state_after_lem loading_imports pending) followed,
        )
    by evaluation none at = root_pending
    by source id at = root_pending
    by defer id at = root_pending
