-- ===== src/Modules/NameTypeMap/Laws.antt =====
-- core/modules/module_map_data.rs: the laws of `ModuleNameTypeMap`.
use Prim.Native.String.{String}
use deno_core.Common.{
  ℕ, zero, suc, ◌+◌, ap, ◌≡◌, ◌<◌, refl, List, [], ◌∷◌, ◌++◌, some, length, get_elem?, set, lookup,
  insert, is_new, String-discrete, arith, inl, inr, Option-cases, lookup-insert, length-insert,
  get_elem?-set, get_elem?-append_end, get_elem?_of_lt, ◌∙◌, sym, length-set, length-append,
}
use mathlib.Core.Logic.{ite}
use deno_core.Modules.{RequestedModuleType, RequestedModuleType-discrete}
use deno_core.Modules.NameTypeMap.{
  ModuleNameTypeMap, empty, index_of, get, ensure_index, insert_module,
}

-- The entries of all maps.
abbrev pub total {ℓ} : {A : Type ℓ} → List (List A) → ℕ
total [] = 0
total (xs ∷ xss) = length xs + total xss

total-append_end : {A : Type 0} (xss : List (List A)) → total (xss ++ [] ∷ []) ≡ total xss
total-append_end [] = refl
total-append_end (xs ∷ xss) = omega (arith, total-append_end xss)

total-set :
    {A : Type 0} (xss : List (List A)) (i : ℕ) (xs ys : List A) (n : ℕ)
    → get_elem? xss i ≡ some xs
    → length ys ≡ n + length xs
    → total (set xss i ys) ≡ total xss + n
total-set [] i xs ys n e l = ground arith
total-set (zs ∷ xss) zero xs ys n e l = ground arith
total-set (zs ∷ xss) (suc i) xs ys n e l = ground (arith, total-set xss i xs ys n e l)

module _ {T : Type 0} where
  -- Each type has a map of its own, and `len` counts the entries of all maps.
  pub record IsWf (m : ModuleNameTypeMap T) : Type 0 where
    pub in_range :
        (ty : RequestedModuleType) (i : ℕ) → index_of m ty ≡ some i → i < length m.submaps
    pub injective :
        (ty ty' : RequestedModuleType) (i : ℕ)
        → index_of m ty ≡ some i
        → index_of m ty' ≡ some i
        → ty ≡ ty'
    pub counted : m.len ≡ total m.submaps

  pub empty-IsWf : IsWf (empty {T = T})
  unfolding empty index_of
  empty-IsWf = record {
    in_range = λ ty i e. ground arith;
    injective = λ ty ty' i e d. ground arith;
    counted = refl;
  }

  index_of-ensure :
      (m : ModuleNameTypeMap T) (ty ty' : RequestedModuleType)
      → index_of (ensure_index m ty).0 ty'
        ≡ ite (RequestedModuleType-discrete ty ty') (some (ensure_index m ty).1) (index_of m ty')
  unfolding ensure_index index_of
  index_of-ensure m ty ty' = elim (Option-cases (index_of m ty)) [
    | inl e ↦
        ground
          (arith, lookup-insert RequestedModuleType-discrete ty ty' (length m.submaps) m.map_index)
    | inr (i, e) ↦ ground arith
  ]

  -- The map of the type at hand, with what it holds.
  submap-ensure :
      (m : ModuleNameTypeMap T) (ty : RequestedModuleType)
      → IsWf m
      → (map : List (String × T)) × (get_elem? (ensure_index m ty).0.submaps (ensure_index m ty).1
          ≡ some map)
        × ((name : String) → lookup String-discrete name map ≡ get m ty name)
  unfolding ensure_index get
  submap-ensure m ty v = elim (Option-cases (index_of m ty)) [
    | inl e ↦ (
      [],
      ground (arith, get_elem?-append_end m.submaps (length m.submaps) []),
      λ name. ground arith,
    )
    | inr (i, e) ↦
        let (map, found) = get_elem?_of_lt m.submaps i (v.in_range ty i e) in
        (map, ground arith, λ name. ground arith)
  ]

  get-ensure :
      (m : ModuleNameTypeMap T) (ty ty' : RequestedModuleType) (name : String)
      → IsWf m
      → get (ensure_index m ty).0 ty' name ≡ get m ty' name
  unfolding get ensure_index
  get-ensure m ty ty' name v = elim (Option-cases (index_of m ty)) [
    | inr (i, e) ↦ ground arith
    | inl e ↦ elim (Option-cases (index_of m ty')) [
      | inl e' ↦ ground (
        arith,
        lookup-insert RequestedModuleType-discrete ty ty' (length m.submaps) m.map_index,
        get_elem?-append_end m.submaps (length m.submaps) [],
      )
      | inr (i', e') ↦
          let lt : i' < length m.submaps = v.in_range ty' i' e' in
          ground (
            arith,
            lookup-insert RequestedModuleType-discrete ty ty' (length m.submaps) m.map_index,
            get_elem?-append_end m.submaps i' [],
          )
    ]
  ]

  ensure_index-IsWf :
      (m : ModuleNameTypeMap T) (ty : RequestedModuleType) → IsWf m → IsWf (ensure_index m ty).0
  unfolding ensure_index index_of
  ensure_index-IsWf m ty v = elim (Option-cases (index_of m ty)) [
    | inr (i, e) ↦ rw (e, ensure_index) v
    | inl e ↦
        let at = λ (ty' : RequestedModuleType).
          lookup-insert RequestedModuleType-discrete ty ty' (length m.submaps) m.map_index in
        rw (e, ensure_index)
          (record {
            in_range = λ ty' i d.
                ground (arith, at ty', v.in_range ty' i, length-append m.submaps ([] ∷ []));
            injective = λ ty1 ty2 i d1 d2.
                ground (
                  arith,
                  at ty1,
                  at ty2,
                  v.in_range ty1 i,
                  v.in_range ty2 i,
                  v.injective ty1 ty2 i,
                );
            counted = v.counted ∙ sym (total-append_end m.submaps);
          })
  ]

  len-ensure :
      (m : ModuleNameTypeMap T) (ty : RequestedModuleType) → (ensure_index m ty).0.len ≡ m.len
  unfolding ensure_index
  len-ensure m ty = elim (Option-cases (index_of m ty)) [
    | inl e ↦ ground arith
    | inr (i, e) ↦ ground arith
  ]

  -- The entry is written into the map of its type.
  abbrev write : ModuleNameTypeMap T → ℕ → List (String × T) → String → T → ModuleNameTypeMap T
  write n i map name v = record n {
    submaps = set n.submaps i (insert String-discrete name v map);
    len = n.len + is_new (lookup String-discrete name map);
  }

  module _ (n : ModuleNameTypeMap T) (ty : RequestedModuleType) (i : ℕ) (map : List (String × T))
      (name : String) (v : T) (wf : IsWf n) (here : index_of n ty ≡ some i)
      (found : get_elem? n.submaps i ≡ some map) where
    write-IsWf : IsWf (write n i map name v)
    unfolding index_of
    write-IsWf = record {
      in_range = λ ty' j e.
          omega (
            arith,
            wf.in_range ty' j e,
            length-set n.submaps i (insert String-discrete name v map),
          );
      injective = wf.injective;
      counted =
          ap (λ (t : ℕ). t + is_new (lookup String-discrete name map)) wf.counted
          ∙ sym (
              total-set n.submaps i map (insert String-discrete name v map) _ found
                (length-insert String-discrete name v map));
    }

    get-write :
        (ty' : RequestedModuleType) (name' : String)
        → get (write n i map name v) ty' name'
          ≡ ite
              (RequestedModuleType-discrete ty ty')
              (ite (String-discrete name name') (some v) (get n ty' name'))
              (get n ty' name')
    unfolding get index_of
    get-write ty' name' = elim (Option-cases (index_of n ty')) [
      | inl e ↦ ground arith
      | inr (j, e) ↦ ground (
        arith,
        get_elem?-set n.submaps i j map (insert String-discrete name v map) found,
        lookup-insert String-discrete name name' v map,
        wf.injective ty ty' i,
      )
    ]

  -- On a well-formed map an insertion never panics and keeps it well formed; it counts a name
  -- that is new for its type; and afterwards a look-up finds what was inserted under the same
  -- type and name, and otherwise what was there.
  pub insert_module_lem :
      (m : ModuleNameTypeMap T) (ty : RequestedModuleType) (name : String) (v : T)
      → IsWf m
      → (m' : ModuleNameTypeMap T) × (insert_module m ty name v ≡ some m')
        × IsWf m'
        × (m'.len ≡ m.len + is_new (get m ty name))
        × ((ty' : RequestedModuleType) (name' : String)
            → get m' ty' name'
              ≡ ite
                  (RequestedModuleType-discrete ty ty')
                  (ite (String-discrete name name') (some v) (get m ty' name'))
                  (get m ty' name'))
  unfolding insert_module
  insert_module_lem m ty name v wf =
      let n = (ensure_index m ty).0 in
      let i = (ensure_index m ty).1 in
      let (map, found, same) = submap-ensure m ty wf in
      let wf' : IsWf n = ensure_index-IsWf m ty wf in
      let here : index_of n ty ≡ some i = ground (arith, index_of-ensure m ty ty) in
      (
        write n i map name v,
        ground arith,
        write-IsWf n ty i map name v wf' here found,
        ground (arith, same name, len-ensure m ty),
        λ ty' name'.
            get-write n ty i map name v wf' here found ty' name'
            ∙ rw (get-ensure m ty ty' name' wf),
      )
