-- ===== src/Modules/MapData/Registry.antt =====
-- core/modules/module_map_data.rs: what registering a module does to the map.
use Prim.Native.String.{String}
use native.Mathlib.Decide.{ℕ_discrete}
use deno_core.Common.{
  ℕ, ◌<◌, ◌≡◌, refl, Bool, List, [], ◌∷◌, ◌++◌, some, length, get_elem?, lookup, insert,
  if◌then◌else◌, arith, lookup-insert, get_elem?-append_end, lt_of_get_elem?, length-append,
}
use deno_core.Modules.{ModuleType, requested_from, ModuleRequest, ModuleInfo}
use deno_core.Modules.NameTypeMap.{ModuleNameTypeMap}
use deno_core.Modules.NameTypeMap.Laws.{IsWf, empty-IsWf, insert_module_lem}
use deno_core.Modules.MapData.{
  SymbolicModule, ModuleMapData, new_data, create_module_info, get_id, get_handle, get_name_by_id,
  get_name_by_module,
}

-- The tables fit together: a handle is found at its id, every id in use has its information, and
-- the main module is registered.
pub record Inv (d : ModuleMapData) : Type 0 where
  pub named : IsWf d.by_name
  pub matched : length d.info ≡ length d.handles
  pub inverted :
      (h i : ℕ) → lookup ℕ_discrete h d.handles_inverted ≡ some i → get_elem? d.handles i ≡ some h
  pub numbered : (i : ℕ) (x : ModuleInfo) → get_elem? d.info i ≡ some x → x.id ≡ i
  pub main_known : (i : ℕ) → d.main_module_id ≡ some i → i < length d.handles

pub new_data-Inv : Inv new_data
unfolding new_data
new_data-Inv = record {
  named = empty-IsWf;
  matched = refl;
  inverted = λ h i e. ground arith;
  numbered = λ i x e. ground arith;
  main_known = λ i e. ground arith;
}

-- The information on a module that is registered.
abbrev pub new_info : ModuleMapData → String → ModuleType → Bool → List ModuleRequest → ModuleInfo
new_info d name ty main requests = record {
  id = length d.handles;
  main = main;
  name = name;
  requests = requests;
  module_type = ty;
}

module _ (d : ModuleMapData) (m : ModuleNameTypeMap SymbolicModule) (h : ℕ) (main : Bool)
    (x : ModuleInfo) where
  abbrev pub registered : ModuleMapData
  registered = record d {
    handles_inverted = insert ℕ_discrete h (length d.handles) d.handles_inverted;
    handles = d.handles ++ h ∷ [];
    info = d.info ++ x ∷ [];
    by_name = m;
    main_module_id = if main then some (length d.handles) else d.main_module_id;
  }

  registered-Inv : Inv d → IsWf m → x.id ≡ length d.handles → Inv registered
  registered-Inv v wf at = record {
    named = wf;
    matched =
        omega (arith, v.matched, length-append d.handles (h ∷ []), length-append d.info (x ∷ []));
    inverted = λ h' i e. ground (
      arith,
      lookup-insert ℕ_discrete h h' (length d.handles) d.handles_inverted,
      v.inverted h' i,
      get_elem?-append_end d.handles i h,
      lt_of_get_elem? d.handles i h',
    );
    numbered = λ i y e. ground (arith, v.matched, v.numbered i y, get_elem?-append_end d.info i x);
    main_known = λ i e. ground (arith, v.main_known i, length-append d.handles (h ∷ []));
  }

-- On tables that fit together, registering a module never panics and keeps them so: its id is
-- the number of modules before it, its handle and name are found under the id, its name is found
-- under its handle, and its name with the type that its own type is requested by leads to its
-- id.
pub create_module_info_lem :
    (d : ModuleMapData) (name : String) (ty : ModuleType) (h : ℕ) (main : Bool)
    (requests : List ModuleRequest)
    → Inv d
    → (d' : ModuleMapData) × (create_module_info d name ty h main requests
        ≡ some (d', length d.handles))
      × Inv d'
      × (get_handle d' (length d.handles) ≡ some h)
      × (get_name_by_id d' (length d.handles) ≡ some name)
      × (get_name_by_module d' h ≡ some name)
      × (get_id 0 d' name (requested_from ty) ≡ some (some (length d.handles)))
unfolding create_module_info get_handle get_name_by_module get_id
create_module_info_lem d name ty h main requests v =
    let (m, e, wf, _, at) =
      insert_module_lem d.by_name (requested_from ty) name (SymbolicModule.mod_ (length d.handles))
        v.named in
    let x = new_info d name ty main requests in
    (
      registered d m h main x,
      ground arith,
      registered-Inv d m h main x v wf refl,
      ground (arith, get_elem?-append_end d.handles (length d.handles) h),
      ground (arith, v.matched, get_elem?-append_end d.info (length d.handles) x),
      ground (
        arith,
        v.matched,
        get_elem?-append_end d.info (length d.handles) x,
        lookup-insert ℕ_discrete h h (length d.handles) d.handles_inverted,
      ),
      ground (arith, at (requested_from ty) name),
    )
