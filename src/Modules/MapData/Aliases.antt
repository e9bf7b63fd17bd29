-- ===== src/Modules/MapData/Aliases.antt =====
-- core/modules/module_map_data.rs: following aliases.
use Prim.Native.String.{String}
use deno_core.Common.{
  ℕ, zero, suc, ◌<◌, ◌≤◌, ◌≡◌, ◌≢◌, refl, Option, none, some, arith, inl, inr, ◌↔◌, subst, sym, ◌∙◌,
  Option-cases, Bool, List, ◌∷◌, [], length, length-append,
}
use deno_core.Modules.{ModuleType, ModuleRequest, requested_from, RequestedModuleType}
use deno_core.Modules.NameTypeMap
use deno_core.Modules.NameTypeMap.{ModuleNameTypeMap}
use deno_core.Modules.NameTypeMap.Laws.{IsWf, insert_module_lem}
use deno_core.Modules.MapData.Registry.{registered, new_info}
use deno_core.Modules.MapData.{
  SymbolicModule, ModuleMapData, follow, get_id, add_alias, create_module_info,
}

-- Where a name leads: aliases are followed, to a module or to a name that is not there.
pub data Leads (m : ModuleNameTypeMap SymbolicModule) (ty : RequestedModuleType)
    : String → Option ℕ → Type 0 where
  to_nothing : {name : String} → NameTypeMap.get m ty name ≡ none → Leads m ty name none
  to_module :
      {name : String} {id : ℕ}
      → NameTypeMap.get m ty name ≡ some (SymbolicModule.mod_ id)
      → Leads m ty name (some id)
  by_alias :
      {name target : String} {r : Option ℕ}
      → NameTypeMap.get m ty name ≡ some (SymbolicModule.alias target)
      → Leads m ty target r
      → Leads m ty name r

module _ (m : ModuleNameTypeMap SymbolicModule) (ty : RequestedModuleType) where
  abbrev pub aliases : {name : String} {r : Option ℕ} → Leads m ty name r → ℕ
  aliases (to_nothing e) = 0
  aliases (to_module e) = 0
  aliases (by_alias e l) = suc (aliases l)

  -- What a name leads to over fewer aliases than a bound.
  abbrev pub LeadsWithin : ℕ → String → Option ℕ → Type 0
  LeadsWithin n name r = (l : Leads m ty name r) × (aliases l < n)

  follow-Leads :
      (fuel : ℕ) (name : String) (r : Option ℕ)
      → follow fuel m ty name ≡ some r
      → LeadsWithin fuel name r
  unfolding follow
  follow-Leads zero name r e = absurd (ground (arith, e))
  follow-Leads (suc fuel) name r e = elim (Option-cases (NameTypeMap.get m ty name)) [
    | inl q ↦
        let x : none ≡ r = ground (arith, e, q) in
        subst (LeadsWithin (suc fuel) name) x (to_nothing q, omega arith)
    | inr (SymbolicModule.mod_ id, q) ↦
        let x : some id ≡ r = ground (arith, e, q) in
        subst (LeadsWithin (suc fuel) name) x (to_module q, omega arith)
    | inr (SymbolicModule.alias target, q) ↦
        let (l, lt) = follow-Leads fuel target r (ground (arith, e, q)) in
        (by_alias q l, omega (arith, lt))
  ]

  Leads-follow :
      (fuel : ℕ) {name : String} {r : Option ℕ} (l : Leads m ty name r)
      → aliases l < fuel
      → follow fuel m ty name ≡ some r
  unfolding follow
  Leads-follow zero l lt = absurd (omega arith)
  Leads-follow (suc fuel) (to_nothing e) lt = ground arith
  Leads-follow (suc fuel) (to_module e) lt = ground arith
  Leads-follow (suc fuel) (by_alias e l) lt = ground (arith, Leads-follow fuel l (omega arith))

get_id-follow :
    (d : ModuleMapData) (ty : RequestedModuleType) (fuel : ℕ) (name : String)
    → get_id fuel d name ty ≡ follow (suc fuel) d.by_name ty name
unfolding get_id follow
get_id-follow d ty fuel name = refl

-- get_id returns a result, with fuel for n aliases, exactly when the name leads to that result
-- by aliases of the type, of which there are at most n: to the id of the module that is
-- registered under the last name, or to nothing where the last name is not there.
pub get_id_lem :
    (d : ModuleMapData) (ty : RequestedModuleType) (fuel : ℕ) (name : String) (r : Option ℕ)
    → (get_id fuel d name ty ≡ some r)
      ↔ ((l : Leads d.by_name ty name r) × (aliases d.by_name ty l ≤ fuel))
get_id_lem d ty fuel name r = (
  λ e.
      let (l, lt) =
        follow-Leads d.by_name ty (suc fuel) name r (sym (get_id-follow d ty fuel name) ∙ e) in
      (l, omega (arith, lt)),
  λ (l, le).
      get_id-follow d ty fuel name ∙ Leads-follow d.by_name ty (suc fuel) l (omega (arith, le)),
)

-- On a well-formed name table, an alias to another name under which a module is registered never
-- panics and keeps the table well formed; the module is then found under the alias, after one
-- step, and still under its name.
pub add_alias_lem :
    (d : ModuleMapData) (name target : String) (ty : RequestedModuleType) (id : ℕ)
    → IsWf d.by_name
    → name ≢ target
    → NameTypeMap.get d.by_name ty target ≡ some (SymbolicModule.mod_ id)
    → (d' : ModuleMapData) × (add_alias d name ty target ≡ some d')
      × IsWf d'.by_name
      × (get_id 1 d' name ty ≡ some (some id))
      × (get_id 0 d' target ty ≡ some (some id))
unfolding add_alias get_id follow
add_alias_lem d name target ty id wf ne e =
    let (m, inserted, wf', _, at) =
      insert_module_lem d.by_name ty name (SymbolicModule.alias target) wf in
    (
      record d { by_name = m },
      ground arith,
      wf',
      ground (arith, at ty name, at ty target),
      ground (arith, at ty target),
    )

follow_cycle :
    (fuel : ℕ) (m : ModuleNameTypeMap SymbolicModule) (ty : RequestedModuleType) (a b : String)
    → NameTypeMap.get m ty a ≡ some (SymbolicModule.alias b)
    → NameTypeMap.get m ty b ≡ some (SymbolicModule.alias a)
    → follow fuel m ty a ≡ none
unfolding follow
follow_cycle zero m ty a b p q = refl
follow_cycle (suc fuel) m ty a b p q = ground (arith, follow_cycle fuel m ty b a q p)

-- On a well-formed name table, after the aliases from a to b and from b to a, for different
-- names, get_id runs out of any fuel on both names.
pub alias_cycle_diverges :
    (d : ModuleMapData) (a b : String) (ty : RequestedModuleType)
    → IsWf d.by_name
    → a ≢ b
    → (d1 d2 : ModuleMapData) × (add_alias d a ty b ≡ some d1)
      × (add_alias d1 b ty a ≡ some d2)
      × ((fuel : ℕ) → (get_id fuel d2 a ty ≡ none) × (get_id fuel d2 b ty ≡ none))
unfolding add_alias get_id
alias_cycle_diverges d a b ty wf ne =
    let (m1, e1, wf1, _, at1) = insert_module_lem d.by_name ty a (SymbolicModule.alias b) wf in
    let (m2, e2, wf2, _, at2) = insert_module_lem m1 ty b (SymbolicModule.alias a) wf1 in
    let to_b : NameTypeMap.get m2 ty a ≡ some (SymbolicModule.alias b) =
      ground (arith, at1 ty a, at2 ty a) in
    let to_a : NameTypeMap.get m2 ty b ≡ some (SymbolicModule.alias a) = ground (arith, at2 ty b) in
    (
      record d { by_name = m1 },
      record d { by_name = m2 },
      ground arith,
      ground arith,
      λ fuel. (
        ground (arith, follow_cycle fuel m2 ty b a to_a to_b),
        ground (arith, follow_cycle fuel m2 ty a b to_b to_a),
      ),
    )

-- Where there are as many names as modules and neither of two different names is known, an alias
-- from one to the other and the registration of the other succeed and leave one name more than
-- there are modules.
pub redirect_adds_name :
    (d : ModuleMapData) (name target : String) (ty : ModuleType) (h : ℕ) (main : Bool)
    (requests : List ModuleRequest)
    → IsWf d.by_name
    → name ≢ target
    → d.by_name.len ≡ length d.handles
    → NameTypeMap.get d.by_name (requested_from ty) name ≡ none
    → NameTypeMap.get d.by_name (requested_from ty) target ≡ none
    → (d1 d2 : ModuleMapData) × (add_alias d name (requested_from ty) target ≡ some d1)
      × (create_module_info d1 target ty h main requests ≡ some (d2, length d.handles))
      × (d2.by_name.len ≡ suc (length d2.handles))
unfolding add_alias create_module_info
redirect_adds_name d name target ty h main requests wf ne same new_name new_target =
    let (m1, e1, wf1, len1, at1) =
      insert_module_lem d.by_name (requested_from ty) name (SymbolicModule.alias target) wf in
    let (m2, e2, wf2, len2, at2) =
      insert_module_lem m1 (requested_from ty) target (SymbolicModule.mod_ (length d.handles))
        wf1 in
    (
      record d { by_name = m1 },
      registered (record d { by_name = m1 }) m2 h main (new_info d target ty main requests),
      ground arith,
      ground arith,
      ground (arith, at1 (requested_from ty) target, length-append d.handles (h ∷ [])),
    )
