-- ===== src/Arena/Clear.antt =====
-- core/arena/raw_arena.rs: clearing an arena drops what its handed-out slots hold.
use deno_core.Common.{
  ℕ, zero, suc, ◌≤◌, ◌<◌, ◌≡◌, refl, sym, ap, ◌∙◌, inl, inr, true, false, not, List, [], ◌∷◌, ◌++◌,
  some, if◌then◌else◌, ◌>>=◌, ltb, length, member, arith, Bool-cases, bind-some,
}
use deno_core.Arena.{
  RawArenaEntry, vacant, value, uninit, Memory, RawArena, drop_of, drop_below, drop_allocated,
  clear_allocated,
}
use deno_core.Arena.FreeList.{vacant_slots_lem}
use deno_core.Arena.Refinement.{Refines}

module _ {T : Type 0} where
  -- The values of the slots below `n` that are handed out, in the order of the slots.
  abbrev pub values_of : RawArenaEntry T → List T
  values_of (vacant n) = []
  values_of (value x) = x ∷ []
  values_of uninit = []

  abbrev pub held_values : ℕ → List ℕ → Memory T → List T
  held_values zero live m = []
  held_values (suc n) live m =
      let below = held_values n live m in if member n live then below ++ values_of (m n) else below

  -- Each slot that is handed out holds a value.
  abbrev pub Initialized : Memory T → List ℕ → Type 0
  Initialized m live = (i : ℕ) → member i live ≡ true → (x : T) × (m i ≡ value x)

  held_values_empty : (n : ℕ) (m : Memory T) → held_values n [] m ≡ []
  held_values_empty zero m = refl
  held_values_empty (suc n) m = held_values_empty n m

  drop_below_lem :
      (n : ℕ) (max : ℕ) (free live : List ℕ) (m : Memory T)
      → n ≤ max
      → ((i : ℕ) → i < max → member i free ≡ not (member i live))
      → Initialized m live
      → drop_below n free m ≡ some (held_values n live m)
  unfolding drop_below
  drop_below_lem zero max free live m h apart init = refl
  drop_below_lem (suc n) max free live m h apart init =
      bind-some
        (λ xs. if member n free then some xs else (drop_of (m n) >>= λ x. some (xs ++ x ∷ [])))
        (drop_below_lem n max free live m (omega arith) apart init)
      ∙ (elim (Bool-cases (member n live)) [
        | inl held ↦
            let (x, e) = init n held in
            ground (arith, held, apart n, e, ap drop_of e, ap values_of e)
        | inr other ↦ ground (arith, other, apart n)
      ])

  -- In an arena that represents a pool whose slots all hold values, `clear_allocated` drops
  -- exactly the values of the slots handed out, each once and in the order of the slots, and
  -- leaves an arena of the same capacity that represents the empty pool.
  pub clear_allocated_lem :
      (a : RawArena T) (live : List ℕ)
      → Refines a live
      → Initialized a.memory live
      → (a' : RawArena T) × (clear_allocated a ≡ some (a', held_values a.max live a.memory))
        × Refines a' []
        × (a'.capacity ≡ a.capacity)
  unfolding clear_allocated drop_allocated
  clear_allocated_lem a live r init = (
    record a { max = 0; next = 0; allocated = 0 },
    bind-some (λ xs. some (record a { max = 0; next = 0; allocated = 0 }, xs)) dropped,
    record {
      free = [];
      frees = refl;
      room = omega arith;
      count = omega arith;
      live_count = refl;
      apart = λ i h. absurd (omega arith);
      below = λ i h. ground (arith, h);
      once = tt;
    },
    refl,
  )
    where
      walked : drop_allocated a ≡ some (held_values a.max live a.memory)
      walked =
          bind-some (λ free. drop_below a.max free a.memory)
            (vacant_slots_lem a.max a a.next r.free r.frees (omega (arith, r.count)))
          ∙ drop_below_lem a.max a.max r.free live a.memory (omega arith) r.apart init

      nothing :
          (js : List ℕ)
          → a.allocated ≡ length js
          → ltb 0 a.allocated ≡ false
          → held_values a.max js a.memory ≡ []
      nothing [] e h = held_values_empty a.max a.memory
      nothing (j ∷ js) e h = absurd (ground (arith, e, h))

      dropped :
          (if ltb 0 a.allocated then drop_allocated a else some [])
          ≡ some (held_values a.max live a.memory)
      dropped = elim (Bool-cases (ltb 0 a.allocated)) [
        | inl some_live ↦ ground (arith, some_live, walked)
        | inr none_live ↦
            ground (arith, none_live, ap some (sym (nothing live r.live_count none_live)))
      ]
