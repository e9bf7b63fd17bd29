-- ===== src/Modules/MapData.antt =====
-- core/modules/module_map_data.rs: `ModuleMapData`, the modules that are registered, by id, by name
-- and by handle. A V8 handle is a number. The stores of synthetic exports, of lazy sources and of
-- source objects are left out.
pub mod Registry
pub mod Aliases
mod Tests
use Prim.Native.String.{String}
use deno_core.Common.{
  ℕ, zero, suc, ◌+◌, ◌≡◌, Bool, true, false, List, [], ◌∷◌, ◌++◌, Option, none, some, length,
  get_elem?, lookup, insert, if◌then◌else◌, ◌==◌, ◌>>=◌,
}
use mathlib.Core.Option
use native.Mathlib.Decide.{ℕ_discrete}
use deno_core.Modules.{ModuleType, RequestedModuleType, requested_from, ModuleRequest, ModuleInfo}
use deno_core.Modules.NameTypeMap
use deno_core.Modules.NameTypeMap.{ModuleNameTypeMap}

pub data SymbolicModule : Type 0 where
  alias : String → SymbolicModule
  mod_ : ℕ → SymbolicModule

pub record ModuleMapData : Type 0 where
  pub handles_inverted : List (ℕ × ℕ)
  pub handles : List ℕ
  pub info : List ModuleInfo
  pub by_name : ModuleNameTypeMap SymbolicModule
  pub next_load_id : ℕ
  pub main_module_id : Option ℕ

-- `Default::default`
unfoldable pub new_data : ModuleMapData
unfolding NameTypeMap.empty
new_data = record {
  handles_inverted = [];
  handles = [];
  info = [];
  by_name = NameTypeMap.empty;
  next_load_id = 0;
  main_module_id = none;
}

-- The data with the new module, and its id; `none` is a panic.
unfoldable pub create_module_info :
    ModuleMapData → String → ModuleType → ℕ → Bool → List ModuleRequest → Option (ModuleMapData × ℕ)
create_module_info d name module_type handle main requests = do
  let id = length d.handles
  by_name ←
      NameTypeMap.insert_module d.by_name (requested_from module_type) name (SymbolicModule.mod_ id)
  some (
    record {
      handles_inverted = insert ℕ_discrete handle id d.handles_inverted;
      handles = d.handles ++ handle ∷ [];
      info =
          d.info
          ++ record {
            id = id;
            main = main;
            name = name;
            requests = requests;
            module_type = module_type;
          }
            ∷ [];
      by_name = by_name;
      next_load_id = d.next_load_id;
      main_module_id = if main then some id else d.main_module_id;
    },
    id,
  )

-- The loop of `get_id`, which follows aliases; the outer `none` means that the fuel ran out.
unfoldable pub follow :
    ℕ → ModuleNameTypeMap SymbolicModule → RequestedModuleType → String → Option (Option ℕ)
follow zero map ty mod_name = none
follow (suc fuel) map ty mod_name = elim (NameTypeMap.get map ty mod_name) [
  | none ↦ some none
  | some (SymbolicModule.mod_ id) ↦ some (some id)
  | some (SymbolicModule.alias target) ↦ follow fuel map ty target
]

unfoldable pub get_id : ℕ → ModuleMapData → String → RequestedModuleType → Option (Option ℕ)
get_id fuel d name ty = elim (NameTypeMap.get d.by_name ty name) [
  | none ↦ some none
  | some (SymbolicModule.mod_ id) ↦ some (some id)
  | some (SymbolicModule.alias target) ↦ follow fuel d.by_name ty target
]

-- The assertion that name and target differ is left to the statements that need it: release builds
-- do not have it.
unfoldable pub add_alias :
    ModuleMapData → String → RequestedModuleType → String → Option ModuleMapData
add_alias d name ty target = do
  by_name ← NameTypeMap.insert_module d.by_name ty name (SymbolicModule.alias target)
  some (record d { by_name = by_name })

unfoldable pub get_handle : ModuleMapData → ℕ → Option ℕ
get_handle d id = get_elem? d.handles id

unfoldable pub get_name_by_id : ModuleMapData → ℕ → Option String
get_name_by_id d id = Option.map (λ (i : ModuleInfo). i.name) (get_elem? d.info id)

unfoldable pub get_name_by_module : ModuleMapData → ℕ → Option String
unfolding get_name_by_id
get_name_by_module d handle = elim (lookup ℕ_discrete handle d.handles_inverted) [
  | some id ↦ get_name_by_id d id
  | none ↦ none
]

-- The outer `none` is the panic of `unwrap`.
unfoldable pub get_info_by_module : ModuleMapData → ℕ → Option (Option ModuleInfo)
get_info_by_module d handle = elim (lookup ℕ_discrete handle d.handles_inverted) [
  | some id ↦ (do i ← get_elem? d.info id; some (some i))
  | none ↦ some none
]

unfoldable pub get_type_by_module : ModuleMapData → ℕ → Option (Option ModuleType)
get_type_by_module d handle = elim (lookup ℕ_discrete handle d.handles_inverted) [
  | some id ↦ (do i ← get_elem? d.info id; some (some i.module_type))
  | none ↦ some none
]

unfoldable pub is_main_module : ModuleMapData → ℕ → Bool
is_main_module d handle = elim d.main_module_id [
  | none ↦ false
  | some id ↦ elim (lookup ℕ_discrete handle d.handles_inverted) [
    | some id' ↦ id' == id
    | none ↦ false
  ]
]
