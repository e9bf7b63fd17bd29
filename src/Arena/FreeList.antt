-- ===== src/Arena/FreeList.antt =====
-- core/arena/raw_arena.rs: the list of vacant slots in the memory of an arena.
use deno_core.Common.{
  ℕ, zero, suc, ◌≤◌, ◌<◌, ◌≡◌, ap, true, false, List, [], ◌∷◌, some, length, member, arith,
}
use deno_core.Arena.{RawArenaEntry, vacant, Memory, update, RawArena, vacant_slots, next_of}

module _ {T : Type 0} where
  -- From `next`, the vacant entries lead through these slots, each once, to the high-water mark.
  abbrev pub FreeList : Memory T → ℕ → ℕ → List ℕ → Type 0
  FreeList m next max [] = next ≡ max
  FreeList m next max (i ∷ is) =
      (next ≡ i)
      × (i < max)
      × (member i is ≡ false)
      × (n : ℕ) × (m i ≡ vacant n)
      × FreeList m n max is

  -- A write elsewhere keeps the list.
  pub FreeList-update :
      (m : Memory T) (j next max : ℕ) (e : RawArenaEntry T) (is : List ℕ)
      → member j is ≡ false
      → FreeList m next max is
      → FreeList (update m j e) next max is
  FreeList-update m j next max e [] h f = f
  FreeList-update m j next max e (i ∷ is) h (at, lt, once, n, entry, rest) = (
    at,
    lt,
    once,
    n,
    ground (arith, h, entry),
    FreeList-update m j n max e is (ground (arith, h)) rest,
  )

  -- The walk finds exactly the list.
  pub vacant_slots_lem :
      (fuel : ℕ) (a : RawArena T) (next : ℕ) (is : List ℕ)
      → FreeList a.memory next a.max is
      → length is ≤ fuel
      → vacant_slots fuel a next ≡ some is
  unfolding vacant_slots
  vacant_slots_lem zero a next [] f h = ground (arith, f)
  vacant_slots_lem zero a next (i ∷ is) f h = absurd (omega arith)
  vacant_slots_lem (suc fuel) a next [] f h = ground (arith, f)
  vacant_slots_lem (suc fuel) a next (i ∷ is) (at, lt, once, n, entry, rest) h = ground (
    arith,
    at,
    lt,
    entry,
    ap (λ k. next_of (a.memory k)) at,
    vacant_slots_lem fuel a n is rest (omega arith),
  )

  -- Every slot of the list is below the mark.
  pub FreeList-below :
      (m : Memory T) (next max : ℕ) (is : List ℕ) (k : ℕ)
      → FreeList m next max is
      → member k is ≡ true
      → k < max
  FreeList-below m next max [] k f h = ground (arith, h)
  FreeList-below m next max (i ∷ is) k (at, lt, once, n, entry, rest) h =
      ground (arith, h, FreeList-below m n max is k rest)
