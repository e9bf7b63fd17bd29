-- ===== src/Modules/NameTypeMap.antt =====
-- core/modules/module_map_data.rs: `ModuleNameTypeMap`, a map from a name and a requested module
-- type, kept as one map of names for each type.
pub mod Laws
use Prim.Native.String.{String}
use deno_core.Common.{
  ℕ, suc, ◌+◌, ◌≡◌, List, [], ◌∷◌, ◌++◌, Option, none, some, length, get_elem?, set, lookup, insert,
  is_new, String-discrete, ◌>>=◌,
}
use deno_core.Modules.{RequestedModuleType, RequestedModuleType-discrete}

abbrev pub NameMap : Type 0 → Type 0
NameMap T = List (String × T)

pub record ModuleNameTypeMap (T : Type 0) : Type 0 where
  pub submaps : List (List (String × T))
  pub map_index : List (RequestedModuleType × ℕ)
  pub len : ℕ

module _ {T : Type 0} where
  -- `Default::default`
  unfoldable pub empty : ModuleNameTypeMap T
  empty = record { submaps = []; map_index = []; len = 0 }

  unfoldable pub index_of : ModuleNameTypeMap T → RequestedModuleType → Option ℕ
  index_of m ty = lookup RequestedModuleType-discrete ty m.map_index

  unfoldable pub get : ModuleNameTypeMap T → RequestedModuleType → String → Option T
  unfolding index_of
  get m ty name = do
    index ← index_of m ty
    map ← get_elem? m.submaps index
    lookup String-discrete name map

  -- The index of a type, with a new map for a type that has none.
  unfoldable pub ensure_index : ModuleNameTypeMap T → RequestedModuleType → ModuleNameTypeMap T × ℕ
  unfolding index_of
  ensure_index m ty = elim (index_of m ty) [
    | some index ↦ (m, index)
    | none ↦ (
      record m {
        map_index = insert RequestedModuleType-discrete ty (length m.submaps) m.map_index;
        submaps = m.submaps ++ [] ∷ [];
      },
      length m.submaps,
    )
  ]

  -- `none` is the panic of `unwrap` on an index out of range.
  unfoldable pub insert_module :
      ModuleNameTypeMap T → RequestedModuleType → String → T → Option (ModuleNameTypeMap T)
  unfolding ensure_index
  insert_module m ty name v = do
    let (m', index) = ensure_index m ty
    map ← get_elem? m'.submaps index
    some (record m' {
      submaps = set m'.submaps index (insert String-discrete name v map);
      len = m'.len + is_new (lookup String-discrete name map);
    })
