-- ===== src/Modules/RecursiveLoad/Graph.antt =====
-- core/modules/map.rs: what a load asks of the module map, answered by the registry ModuleMapData.
use Prim.Native.String.{String}
use mathlib.Core.Logic.{ite}
use deno_core.Common.{
  ℕ, zero, suc, ◌<◌, Option-cases, ◌≡◌, refl, sym, ap, ◌∙◌, subst, inl, inr, List, [], ◌∷◌, ◌++◌,
  Option, none, some, bind_parts, some_value, length, get_elem?, get_elem?_of_lt, lookup,
  String-discrete, In, In-left, In-right, In-contains, arith,
}
use deno_core.Modules.{
  RequestedModuleType, RequestedModuleType-discrete, ModuleReference, ModuleRequest, ModuleInfo,
}
use deno_core.Modules.NameTypeMap
use deno_core.Modules.NameTypeMap.{ModuleNameTypeMap, index_of}
use deno_core.Modules.MapData.{SymbolicModule, ModuleMapData, follow, get_id}
use deno_core.Modules.RecursiveLoad.{ModuleReference-discrete, ModuleGraph}

abbrev names_of : RequestedModuleType → List (String × SymbolicModule) → List ModuleReference
names_of ty [] = []
names_of ty ((name, m) ∷ names) =
    record { specifier = name; requested_module_type = ty } ∷ names_of ty names

abbrev or_no_names : Option (List (String × SymbolicModule)) → List (String × SymbolicModule)
or_no_names none = []
or_no_names (some names) = names

-- All names with their types.
abbrev all_names :
    List (List (String × SymbolicModule)) → List (RequestedModuleType × ℕ) → List ModuleReference
all_names submaps [] = []
all_names submaps ((ty, index) ∷ types) =
    names_of ty (or_no_names (get_elem? submaps index)) ++ all_names submaps types

In-names_of :
    (ty : RequestedModuleType) (name : String) (m : SymbolicModule)
    (names : List (String × SymbolicModule))
    → lookup String-discrete name names ≡ some m
    → In (record { specifier = name; requested_module_type = ty }) (names_of ty names)
In-names_of ty name m [] e = absurd (ground (arith, e))
In-names_of ty name m ((kind, n) ∷ names) e =
    by (String-discrete kind name) (In-names_of ty name m names) e
  where
    by :
        (d : Dec (kind ≡ name))
        → (lookup String-discrete name names ≡ some m
            → In (record { specifier = name; requested_module_type = ty }) (names_of ty names))
        → ite d (some n) (lookup String-discrete name names) ≡ some m
        → In
            (record { specifier = name; requested_module_type = ty })
            (names_of ty ((kind, n) ∷ names))
    by (yes p) rest e = inl (ap (λ s. record { specifier = s; requested_module_type = ty }) p)
    by (no p) rest e = inr (rest e)

In-all_names :
    (submaps : List (List (String × SymbolicModule))) (types : List (RequestedModuleType × ℕ))
    (ty : RequestedModuleType) (index : ℕ) (name : String) (m : SymbolicModule)
    (names : List (String × SymbolicModule))
    → lookup RequestedModuleType-discrete ty types ≡ some index
    → get_elem? submaps index ≡ some names
    → lookup String-discrete name names ≡ some m
    → In (record { specifier = name; requested_module_type = ty }) (all_names submaps types)
In-all_names submaps [] ty index name m names e at found = absurd (ground (arith, e))
In-all_names submaps ((kind, i) ∷ types) ty index name m names e at found =
    by (RequestedModuleType-discrete kind ty)
      (λ e. In-all_names submaps types ty index name m names e at found) e
  where
    r : ModuleReference
    r = record { specifier = name; requested_module_type = ty }

    by :
        (d : Dec (kind ≡ ty))
        → (lookup RequestedModuleType-discrete ty types ≡ some index
            → In r (all_names submaps types))
        → ite d (some i) (lookup RequestedModuleType-discrete ty types) ≡ some index
        → In r (all_names submaps ((kind, i) ∷ types))
    by (yes p) rest e =
        In-left r (names_of kind (or_no_names (get_elem? submaps i))) (all_names submaps types) (
          subst (In r)
            (ap (λ t. names_of t names) (sym p)
              ∙ ap (λ o. names_of kind (or_no_names o))
                  (sym (ap (get_elem? submaps) (some_value e) ∙ at)))
            (In-names_of ty name m names found))
    by (no p) rest e =
        In-right r (names_of kind (or_no_names (get_elem? submaps i))) (all_names submaps types)
          (rest e)

-- Every id of the table is that of a module with its information.
abbrev pub IdsKnown : ModuleMapData → Type 0
IdsKnown d =
    (ty : RequestedModuleType) (name : String) (id : ℕ)
    → NameTypeMap.get d.by_name ty name ≡ some (SymbolicModule.mod_ id)
    → id < length d.info

abbrev requests_of : Option ModuleInfo → Option (List ModuleRequest)
requests_of none = none
requests_of (some info) = some info.requests

-- Where the fuel is not enough to follow an alias, there is no id.
abbrev flat : Option (Option ℕ) → Option ℕ
flat none = none
flat (some o) = o

named :
    (m : ModuleNameTypeMap SymbolicModule) (ty : RequestedModuleType) (name : String)
    (s : SymbolicModule)
    → NameTypeMap.get m ty name ≡ some s
    → In (record { specifier = name; requested_module_type = ty }) (all_names m.submaps m.map_index)
unfolding NameTypeMap.get index_of
named m ty name s e =
    let (index, e1, rest) = bind_parts (lookup RequestedModuleType-discrete ty m.map_index) _ s e in
    let (names, e2, found) = bind_parts (get_elem? m.submaps index) _ s rest in
    In-all_names m.submaps m.map_index ty index name s names e1 e2 found

pub get_id_named :
    (fuel : ℕ) (d : ModuleMapData) (r : ModuleReference) (id : ℕ)
    → flat (get_id fuel d r.specifier r.requested_module_type) ≡ some id
    → In r (all_names d.by_name.submaps d.by_name.map_index)
unfolding get_id
get_id_named fuel d r id e =
    by (NameTypeMap.get d.by_name r.requested_module_type r.specifier) refl e
  where
    by :
        (o : Option SymbolicModule)
        → NameTypeMap.get d.by_name r.requested_module_type r.specifier ≡ o
        → flat (elim o [
          | none ↦ some none
          | some (SymbolicModule.mod_ id) ↦ some (some id)
          | some (SymbolicModule.alias target) ↦
              follow fuel d.by_name r.requested_module_type target
        ])
          ≡ some id
        → In r (all_names d.by_name.submaps d.by_name.map_index)
    by none at e = absurd (ground (arith, e))
    by (some s) at e = named d.by_name r.requested_module_type r.specifier s at

follow_known :
    (fuel : ℕ) (d : ModuleMapData) (ty : RequestedModuleType) (name : String) (id : ℕ)
    → IdsKnown d
    → flat (follow fuel d.by_name ty name) ≡ some id
    → id < length d.info
unfolding follow
follow_known zero d ty name id known e = absurd (ground (arith, e))
follow_known (suc fuel) d ty name id known e =
    elim (Option-cases (NameTypeMap.get d.by_name ty name)) [
      | inl at ↦ absurd (ground (arith, e, at))
      | inr (SymbolicModule.mod_ i, at) ↦ ground (arith, e, at, known ty name i at)
      | inr (SymbolicModule.alias target, at) ↦
          follow_known fuel d ty target id known (ground (arith, e, at))
    ]

pub get_id_known :
    (fuel : ℕ) (d : ModuleMapData) (ty : RequestedModuleType) (name : String) (id : ℕ)
    → IdsKnown d
    → flat (get_id fuel d name ty) ≡ some id
    → id < length d.info
unfolding get_id
get_id_known fuel d ty name id known e = elim (Option-cases (NameTypeMap.get d.by_name ty name)) [
  | inl at ↦ absurd (ground (arith, e, at))
  | inr (SymbolicModule.mod_ i, at) ↦ ground (arith, e, at, known ty name i at)
  | inr (SymbolicModule.alias target, at) ↦
      follow_known fuel d ty target id known (ground (arith, e, at))
]

-- The registry as a graph of modules.
unfoldable pub graph_of : (fuel : ℕ) (d : ModuleMapData) → IdsKnown d → ModuleGraph
graph_of fuel d known = record {
  get_requested_modules = λ id. requests_of (get_elem? d.info id);
  get_id = λ r. flat (get_id fuel d r.specifier r.requested_module_type);
  known = all_names d.by_name.submaps d.by_name.map_index;
  known_lem = λ r id e.
      In-contains ModuleReference-discrete r (all_names d.by_name.submaps d.by_name.map_index)
        (get_id_named fuel d r id e);
  registered_lem = λ r id e.
      let (info, at) =
        get_elem?_of_lt d.info id
          (get_id_known fuel d r.requested_module_type r.specifier id known e) in
      (info.requests, ap requests_of at);
}
