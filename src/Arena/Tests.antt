-- ===== src/Arena/Tests.antt =====
-- core/arena/raw_arena.rs: an arena of three slots, of which the first is handed out and the second
-- was given back.
use deno_core.Common.{
  ℕ, zero, suc, ◌≡◌, refl, Bool, true, false, List, [], ◌∷◌, some, ◌==◌, if◌then◌else◌, member,
  arith,
}
use deno_core.Arena.{
  vacant, value, uninit, RawArena, Memory, Pointer, slot, system, allocate, recycle,
  clear_allocated,
}
use deno_core.Arena.Refinement.{Refines, AllocatesAt, GivenBack, allocate_lem, recycle_lem}
use deno_core.Arena.Clear.{Initialized, held_values, clear_allocated_lem}

abbrev slots : Memory ℕ
slots i = if i == 0 then value 5 else if i == 1 then vacant 2 else uninit

abbrev used : RawArena ℕ
used = record { memory = slots; max = 2; next = 1; allocated = 1; capacity = 3 }

abbrev live : List ℕ
live = 0 ∷ []

used-Refines : Refines used live
used-Refines = record {
  free = 1 ∷ [];
  frees = (refl, omega arith, refl, 2, refl, refl);
  room = omega arith;
  count = refl;
  live_count = refl;
  apart = λ i h. ground arith;
  below = λ i h. ground (arith, h);
  once = (refl, tt);
}

used-Initialized : Initialized slots live
used-Initialized zero h = (5, refl)
used-Initialized (suc i) h = absurd (ground (arith, h))

abbrev heap : Memory ℕ
heap i = value 9

allocate_lem_example :
    (a' : RawArena ℕ) × (p : Pointer) × (allocate used 7 ≡ some (a', p))
    × AllocatesAt 7 used live a' p
allocate_lem_example = allocate_lem used live 7 used-Refines

recycle_lem_example :
    ((i x : ℕ)
      → member i live ≡ true
      → slots i ≡ value x
      → (a' : RawArena ℕ) × (emptied : Bool) × (recycle heap used (slot i) ≡ some (a', emptied, x))
        × GivenBack used live i a' emptied)
    × ((n x : ℕ) → heap n ≡ value x → recycle heap used (system n) ≡ some (used, false, x))
recycle_lem_example = recycle_lem heap used live used-Refines

clear_allocated_lem_example :
    (a' : RawArena ℕ) × (clear_allocated used ≡ some (a', held_values 2 live slots))
    × Refines a' []
    × (a'.capacity ≡ 3)
clear_allocated_lem_example = clear_allocated_lem used live used-Refines used-Initialized
