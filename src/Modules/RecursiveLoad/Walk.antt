-- ===== src/Modules/RecursiveLoad/Walk.antt =====
-- core/modules/recursive_load.rs: the walk over the registered modules ends, and covers all of them.
use Prim.Native.String.{String}
use mathlib.Core.Logic.{ite}
use mathlib.Core.List.{map-append}
use deno_core.Common.{
  ℕ, zero, suc, ◌+◌, ◌≤◌, ◌≡◌, refl, sym, ap, ◌∙◌, ap₂, some_value, subst, ◌⊎◌, inl, inr, Bool,
  true, false, ◌||◌, List, [], ◌∷◌, map, Option, none, some, if◌then◌else◌, bind-some, length,
  length-append, In, In-left, In-right, In-parts, contains, lacking, lacking_less, lacking_new,
  String-discrete, arith,
}
use deno_core.Modules.{ModuleReference, ModuleRequest}
use deno_core.Modules.RecursiveLoad.{
  ModuleReference-discrete, ModuleGraph, Worklist, is_visited, enqueue, visit, visit_all, recurse,
}

abbrev pub references : List ModuleRequest → List ModuleReference
references = map (λ q. q.reference)

module _ (graph : ModuleGraph) (aliases : List String) where
  -- What the walk has seen of a reference: it was visited, or it is where another one was found.
  abbrev pub Seen : List ModuleReference → ModuleReference → Type 0
  Seen visited r = is_visited aliases visited r ≡ true

  abbrev pub AllSeen : List ModuleReference → List ModuleRequest → Type 0
  AllSeen visited imports = (q : ModuleRequest) → In q imports → Seen visited q.reference

  -- A reference that was visited is queued when it is registered, and pending when it is not.
  abbrev pub Listed : Worklist → ModuleReference → Type 0
  Listed w r =
      ((id : ℕ) → graph.get_id r ≡ some id → In (id, r) w.already_registered)
      × (graph.get_id r ≡ none → In r (references w.pending))

  -- The worklist `w'` has all that `w` has.
  abbrev pub Extends : Worklist → Worklist → Type 0
  Extends w w' =
      ((e : ℕ × ModuleReference) → In e w.already_registered → In e w'.already_registered)
      × ((r : ModuleReference) → Seen w.visited r → Seen w'.visited r)
      × ((r : ModuleReference) → In r (references w.pending) → In r (references w'.pending))
      × ((r : ModuleReference) → In r w'.visited → In r w.visited ⊎ Listed w' r)

  abbrev pub size : Worklist → ℕ
  size w = length w.already_registered + lacking ModuleReference-discrete w.visited graph.known

  pub Seen-more :
      (r s : ModuleReference) (visited : List ModuleReference)
      → Seen visited r
      → Seen (s ∷ visited) r
  Seen-more r s visited h = by (ModuleReference-discrete s r)
    where
      by :
          (d : Dec (s ≡ r))
          → (ite d true (contains ModuleReference-discrete r visited)
              || contains String-discrete r.specifier aliases)
            ≡ true
      by (yes p) = refl
      by (no p) = h

  Seen-head : (r : ModuleReference) (visited : List ModuleReference) → Seen (r ∷ visited) r
  Seen-head r visited = by (ModuleReference-discrete r r)
    where
      by :
          (d : Dec (r ≡ r))
          → (ite d true (contains ModuleReference-discrete r visited)
              || contains String-discrete r.specifier aliases)
            ≡ true
      by (yes p) = refl
      by (no p) = absurd (p refl)

  enqueue_lem :
      (request : ModuleRequest) (w : Worklist) (o : Option ℕ)
      → graph.get_id request.reference ≡ o
      → is_visited aliases w.visited request.reference ≡ false
      → Extends w (enqueue o request w)
        × Seen (enqueue o request w).visited request.reference
        × (size (enqueue o request w) ≤ size w)
  enqueue_lem request w (some id) at fresh = (
    (
      λ e h. In-left e w.already_registered ((id, request.reference) ∷ []) h,
      λ r h. Seen-more r request.reference w.visited h,
      λ r h. h,
      λ r h. elim h [
        | inl same ↦ inr (
          λ id' at'.
              In-right (id', r) w.already_registered ((id, request.reference) ∷ [])
                (inl (ap₂ (λ i q. (i, q)) (some_value (sym at ∙ ap graph.get_id same ∙ at')) same)),
          λ at'. absurd (ground (arith, sym at ∙ ap graph.get_id same ∙ at')),
        )
        | inr old ↦ inl old
      ],
    ),
    Seen-head request.reference w.visited,
    omega (
      arith,
      length-append w.already_registered ((id, request.reference) ∷ []),
      lacking_new ModuleReference-discrete request.reference w.visited graph.known
          (graph.known_lem request.reference id at) (ground (arith, fresh)),
    ),
  )
  enqueue_lem request w none at fresh = (
    (
      λ e h. h,
      λ r h. Seen-more r request.reference w.visited h,
      λ r h.
          subst (In r) (sym (map-append (λ q. q.reference) w.pending (request ∷ [])))
            (In-left r (references w.pending) (request.reference ∷ []) h),
      λ r h. elim h [
        | inl same ↦ inr (
          λ id' at'. absurd (ground (arith, sym at ∙ ap graph.get_id same ∙ at')),
          λ at'.
              subst (In r) (sym (map-append (λ q. q.reference) w.pending (request ∷ [])))
                (In-right r (references w.pending) (request.reference ∷ []) (inl same)),
        )
        | inr old ↦ inl old
      ],
    ),
    Seen-head request.reference w.visited,
    omega (arith, lacking_less ModuleReference-discrete request.reference w.visited graph.known),
  )

  Extends-refl : (w : Worklist) → Extends w w
  Extends-refl w = (λ e h. h, λ r h. h, λ r h. h, λ r h. inl h)

  Extends-trans : (a b c : Worklist) → Extends a b → Extends b c → Extends a c
  Extends-trans a b c (queue1, seen1, pending1, new1) (queue2, seen2, pending2, new2) = (
    λ e h. queue2 e (queue1 e h),
    λ r h. seen2 r (seen1 r h),
    λ r h. pending2 r (pending1 r h),
    λ r h. elim (new2 r h) [
      | inl middle ↦ elim (new1 r middle) [
        | inl old ↦ inl old
        | inr (queued, waits) ↦
            inr (λ id at. queue2 (id, r) (queued id at), λ at. pending2 r (waits at))
      ]
      | inr listed ↦ inr listed
    ],
  )

  visit_lem :
      (request : ModuleRequest) (w : Worklist)
      → Extends w (visit graph aliases request w)
        × Seen (visit graph aliases request w).visited request.reference
        × (size (visit graph aliases request w) ≤ size w)
  visit_lem request w = by (is_visited aliases w.visited request.reference) refl
    where
      by :
          (b : Bool)
          → is_visited aliases w.visited request.reference ≡ b
          → let w' = if b then w else enqueue (graph.get_id request.reference) request w in
            Extends w w' × Seen w'.visited request.reference × (size w' ≤ size w)
      by true seen = (Extends-refl w, seen, omega arith)
      by false fresh = enqueue_lem request w (graph.get_id request.reference) refl fresh

  pub visit_all_lem :
      (requests : List ModuleRequest) (w : Worklist)
      → Extends w (visit_all graph aliases requests w)
        × AllSeen (visit_all graph aliases requests w).visited requests
        × (size (visit_all graph aliases requests w) ≤ size w)
  visit_all_lem [] w = (Extends-refl w, λ q h. absurd h, omega arith)
  visit_all_lem (request ∷ requests) w =
      let w' = visit graph aliases request w in
      let last = visit_all graph aliases requests w' in
      let (extends, seen, less) = visit_lem request w in
      let (extends', seen', less') = visit_all_lem requests w' in
      (
        Extends-trans w w' last extends extends',
        λ q h. elim h [
          | inl same ↦
              subst (λ p. Seen last.visited p.reference) same (extends'.1 request.reference seen)
          | inr rest ↦ seen' q rest
        ],
        omega (arith, less, less'),
      )

  -- Every visited reference is queued, or its module's imports are seen, or it is pending.
  abbrev pub Covers : Worklist → Type 0
  Covers w =
      (r : ModuleReference)
      → In r w.visited
      → ((id : ℕ)
          → graph.get_id r ≡ some id
          → In (id, r) w.already_registered
            ⊎ ((imports : List ModuleRequest)
                → graph.get_requested_modules id ≡ some imports
                → AllSeen w.visited imports))
        × (graph.get_id r ≡ none → In r (references w.pending))

  -- All entries of the queue are registered.
  abbrev pub Registered : Worklist → Type 0
  Registered w =
      (id : ℕ) (r : ModuleReference) → In (id, r) w.already_registered → graph.get_id r ≡ some id

  Covers-visit_all :
      (id : ℕ) (r : ModuleReference) (queue : List (ℕ × ModuleReference))
      (imports : List ModuleRequest) (w : Worklist)
      → w.already_registered ≡ (id, r) ∷ queue
      → graph.get_requested_modules id ≡ some imports
      → Covers w
      → Covers (visit_all graph aliases imports (record w { already_registered = queue }))
  Covers-visit_all id r queue imports w head found covers k visited =
      let (extends, seen, less) = visit_all_lem imports (record w { already_registered = queue }) in
      elim (extends.3 k visited) [
        | inr (queued, waits) ↦ (λ id' at. inl (queued id' at), waits)
        | inl old ↦
            let (handled, waits) = covers k old in
            (
              λ id' at. elim (handled id' at) [
                | inl queued ↦ elim (subst (In (id', k)) head queued) [
                  | inl same ↦ inr (λ imports' found' q h. seen q (
                      subst (In q)
                        (some_value (
                          sym found'
                          ∙ ap graph.get_requested_modules (sym (ap (λ e. e.0) same))
                          ∙ found))
                        h))
                  | inr rest ↦ inl (extends.0 (id', k) rest)
                ]
                | inr all ↦
                    inr (λ imports' found' q h. extends.1 q.reference (all imports' found' q h))
              ],
              λ at. extends.2 k (waits at),
            )
      ]

  Registered-visit_all :
      (imports : List ModuleRequest) (w : Worklist)
      → Registered w
      → Registered (visit_all graph aliases imports w)
  Registered-visit_all [] w registered = registered
  Registered-visit_all (request ∷ imports) w registered =
      Registered-visit_all imports (visit graph aliases request w)
        (by (is_visited aliases w.visited request.reference) (graph.get_id request.reference) refl)
    where
      by :
          (b : Bool) (o : Option ℕ)
          → graph.get_id request.reference ≡ o
          → Registered (if b then w else enqueue o request w)
      by true o at = λ i r h. registered i r h
      by false none at = λ i r h. registered i r h
      by false (some id) at = λ i r h.
          elim (In-parts (i, r) w.already_registered ((id, request.reference) ∷ []) h) [
            | inl old ↦ registered i r old
            | inr (inr none_left) ↦ absurd none_left
            | inr (inl same) ↦
                ap graph.get_id (sym (ap (λ e. e.1) same)) ∙ at ∙ ap some (ap (λ e. e.0) same)
          ]

  abbrev pub Ends : Worklist → Option Worklist → Type 0
  Ends w result =
      (w' : Worklist) × (result ≡ some w')
      × (w'.already_registered ≡ [])
      × Covers w'
      × ((r : ModuleReference) → Seen w.visited r → Seen w'.visited r)

  abbrev list_of : List (ℕ × ModuleReference) → List ModuleReference → List ModuleRequest → Worklist
  list_of queue visited pending = record {
    already_registered = queue;
    visited = visited;
    pending = pending;
  }

  -- With as much fuel as the worklist is large the walk ends, with an empty queue.
  pub recurse_lem :
      (fuel : ℕ) (queue : List (ℕ × ModuleReference)) (visited : List ModuleReference)
      (pending : List ModuleRequest)
      → size (list_of queue visited pending) ≤ fuel
      → Registered (list_of queue visited pending)
      → Covers (list_of queue visited pending)
      → Ends
          (list_of queue visited pending)
          (recurse graph aliases fuel (list_of queue visited pending))
  unfolding recurse
  recurse_lem zero [] visited pending enough registered covers =
      (list_of [] visited pending, refl, refl, covers, λ r h. h)
  recurse_lem zero (e ∷ queue) visited pending enough registered covers =
      absurd (omega (arith, enough))
  recurse_lem (suc fuel) [] visited pending enough registered covers =
      (list_of [] visited pending, refl, refl, covers, λ r h. h)
  recurse_lem (suc fuel) ((id, r) ∷ queue) visited pending enough registered covers =
      let (imports, found) = graph.registered_lem r id (registered id r (inl refl)) in
      let start = list_of queue visited pending in
      let next = visit_all graph aliases imports start in
      let (extends, seen, less) = visit_all_lem imports start in
      let (w', e, empty, covers', keeps) =
        recurse_lem fuel next.already_registered next.visited next.pending
          (omega (arith, enough, less))
          (Registered-visit_all imports start (λ i k h. registered i k (inr h)))
          (Covers-visit_all id r queue imports (list_of ((id, r) ∷ queue) visited pending) refl
            found covers) in
      (
        w',
        bind-some (λ is. recurse graph aliases fuel (visit_all graph aliases is start)) found ∙ e,
        empty,
        covers',
        λ k h. keeps k (extends.1 k h),
      )
