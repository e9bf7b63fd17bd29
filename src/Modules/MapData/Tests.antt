-- ===== src/Modules/MapData/Tests.antt =====
-- Runs of core/modules/module_map_data.rs, and the theorems at concrete inputs.
use Prim.Native.String.{String}
use text.Mathlib.TextEquality.{eq_iff}
use deno_core.Common.{
  ℕ, suc, ◌↔◌, ◌≤◌, ◌≡◌, ◌≢◌, refl, true, [], ◌∷◌, Option, none, some, arith, length,
  String-discrete,
}
use deno_core.Modules.{
  ModuleType, RequestedModuleType, RequestedModuleType-discrete, requested_from,
}
use deno_core.Modules.NameTypeMap
use deno_core.Modules.NameTypeMap.{ModuleNameTypeMap}
use deno_core.Modules.NameTypeMap.Laws.{IsWf}
use deno_core.Modules.MapData.{
  SymbolicModule, ModuleMapData, new_data, create_module_info, get_id, add_alias, get_handle,
  get_name_by_id, get_name_by_module,
}
use deno_core.Modules.MapData.Registry.{Inv, new_data-Inv, create_module_info_lem}
use deno_core.Modules.MapData.Aliases.{
  Leads, to_module, by_alias, aliases, get_id_lem, alias_cycle_diverges, redirect_adds_name,
}

-- "b.js" is registered as module 0, and "a.js" is redirected to it.
abbrev one_module : Option (ModuleMapData × ℕ)
one_module = create_module_info new_data "b.js" ModuleType.java_script 41 true []

create_module_info_lem_example :
    (d' : ModuleMapData) × (one_module ≡ some (d', length new_data.handles))
    × Inv d'
    × (get_handle d' (length new_data.handles) ≡ some 41)
    × (get_name_by_id d' (length new_data.handles) ≡ some "b.js")
    × (get_name_by_module d' 41 ≡ some "b.js")
    × (get_id 0 d' "b.js" (requested_from ModuleType.java_script)
        ≡ some (some (length new_data.handles)))
create_module_info_lem_example =
    create_module_info_lem new_data "b.js" ModuleType.java_script 41 true [] new_data-Inv

abbrev redirected : ModuleMapData
redirected = record new_data {
  by_name = record {
    submaps = (("b.js", SymbolicModule.mod_ 0) ∷ ("a.js", SymbolicModule.alias "b.js") ∷ []) ∷ [];
    map_index = (RequestedModuleType.none, 0) ∷ [];
    len = 2;
  };
}

not_same : ◌≢◌ {A = String} "a.js" "b.js"
not_same e = cc ((eq_iff "a.js" "b.js").1 e)

a_redirected :
    NameTypeMap.get redirected.by_name RequestedModuleType.none "a.js"
    ≡ some (SymbolicModule.alias "b.js")
unfolding NameTypeMap.get RequestedModuleType-discrete String-discrete
a_redirected = refl

b_found :
    NameTypeMap.get redirected.by_name RequestedModuleType.none "b.js"
    ≡ some (SymbolicModule.mod_ 0)
unfolding NameTypeMap.get RequestedModuleType-discrete String-discrete
b_found = refl

abbrev a_leads : Leads redirected.by_name RequestedModuleType.none "a.js" (some 0)
a_leads = by_alias a_redirected (to_module b_found)

get_id_lem_example : (get_id 1 redirected "a.js" RequestedModuleType.none ≡ some (some 0)) ↔ (
    (l : Leads redirected.by_name RequestedModuleType.none "a.js" (some 0)) × (aliases
        redirected.by_name RequestedModuleType.none l
      ≤ 1))
get_id_lem_example = get_id_lem redirected RequestedModuleType.none 1 "a.js" (some 0)

a_found : get_id 1 redirected "a.js" RequestedModuleType.none ≡ some (some 0)
a_found = get_id_lem_example.1 (a_leads, omega arith)

abbrev one_name : ModuleNameTypeMap SymbolicModule
one_name = record {
  submaps = (("b.js", SymbolicModule.mod_ 0) ∷ []) ∷ [];
  map_index = (RequestedModuleType.none, 0) ∷ [];
  len = 1;
}

one_name-IsWf : IsWf one_name
unfolding NameTypeMap.index_of
one_name-IsWf = record {
  in_range = λ ty i e. ground arith;
  injective = λ ty ty' i e d. ground arith;
  counted = refl;
}

one_name_found :
    NameTypeMap.get one_name RequestedModuleType.none "b.js" ≡ some (SymbolicModule.mod_ 0)
unfolding NameTypeMap.get RequestedModuleType-discrete String-discrete
one_name_found = refl

alias_cycle_diverges_example :
    (d1 d2 : ModuleMapData) × (add_alias new_data "a.js" RequestedModuleType.none "b.js" ≡ some d1)
    × (add_alias d1 "b.js" RequestedModuleType.none "a.js" ≡ some d2)
    × ((fuel : ℕ)
        → (get_id fuel d2 "a.js" RequestedModuleType.none ≡ none)
          × (get_id fuel d2 "b.js" RequestedModuleType.none ≡ none))
alias_cycle_diverges_example =
    alias_cycle_diverges new_data "a.js" "b.js" RequestedModuleType.none (new_data-Inv.named)
      not_same

redirect_adds_name_example :
    (d1 d2 : ModuleMapData) × (add_alias new_data "a.js" RequestedModuleType.none "b.js" ≡ some d1)
    × (create_module_info d1 "b.js" ModuleType.java_script 41 true []
        ≡ some (d2, length new_data.handles))
    × (d2.by_name.len ≡ suc (length d2.handles))
unfolding new_data NameTypeMap.get requested_from
redirect_adds_name_example =
    redirect_adds_name new_data "a.js" "b.js" ModuleType.java_script 41 true [] new_data-Inv.named
      not_same refl refl refl
