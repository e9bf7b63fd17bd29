-- ===== src/Arena.antt =====
-- core/arena/raw_arena.rs: RawArena, a block of slots with a list of the vacant ones threaded
-- through them. A pointer into the block is the index of its slot, counted from `alloc`; any other
-- pointer comes from the system's allocator, which is not modelled: `system n` is the n-th address
-- that it gave. `none` is undefined behaviour, the use of a slot that does not hold what is read.
pub mod FreeList
pub mod Refinement
pub mod Clear
mod Tests
use deno_core.Common.{
  ℕ, zero, suc, ◌+◌, ◌-◌, ◌≡◌, Bool, true, false, not, List, [], ◌∷◌, ◌++◌, Option, none, some, ltb,
  ◌==◌, if◌then◌else◌, ◌>>=◌, ◌&&◌, decrement, member,
}

-- The union `RawArenaEntry`, with what it holds: the next vacant entry, a value, or nothing yet.
pub data RawArenaEntry (T : Type 0) : Type 0 where
  vacant : ℕ → RawArenaEntry T
  value : T → RawArenaEntry T
  uninit : RawArenaEntry T

pub data Pointer : Type 0 where
  slot system : ℕ → Pointer

abbrev pub Memory : Type 0 → Type 0
Memory T = ℕ → RawArenaEntry T

abbrev pub update : {T : Type 0} → Memory T → ℕ → RawArenaEntry T → Memory T
update m i e j = if j == i then e else m j

pub record RawArena (T : Type 0) : Type 0 where
  pub memory : Memory T
  pub max : ℕ
  pub next : ℕ
  pub allocated : ℕ
  pub capacity : ℕ

module _ {T : Type 0} where
  -- `RawArenaEntry::next`
  abbrev pub next_of : RawArenaEntry T → Option ℕ
  next_of (vacant n) = some n
  next_of (value x) = none
  next_of uninit = none

  -- `RawArenaEntry::drop`
  abbrev pub drop_of : RawArenaEntry T → Option T
  drop_of (vacant n) = none
  drop_of (value x) = some x
  drop_of uninit = none

  unfoldable pub with_capacity : ℕ → RawArena T
  with_capacity capacity = record {
    memory = λ i. uninit;
    max = 0;
    next = 0;
    allocated = 0;
    capacity = capacity;
  }

  abbrev pub is_full : RawArena T → Bool
  is_full a = a.max == a.next && a.max == a.capacity

  -- The slot at the high-water mark.
  abbrev pub extend_mark : RawArena T → RawArena T
  extend_mark a = record a { next = a.max + 1; max = a.max + 1; allocated = a.allocated + 1 }

  -- The first of the vacant slots.
  abbrev pub pop_vacant : RawArena T → ℕ → RawArena T
  pop_vacant a n = record a { next = n; allocated = a.allocated + 1 }

  unfoldable pub take_slot : RawArena T → Option (RawArena T × ℕ)
  take_slot a =
      if a.max == a.next
      then some (extend_mark a, a.next)
      else (next_of (a.memory a.next) >>= λ n. some (pop_vacant a n, a.next))

  -- `address` is what the system's allocator would return.
  unfoldable pub allocate : RawArena T → ℕ → Option (RawArena T × Pointer)
  allocate a address =
      if is_full a then some (a, system address) else (take_slot a >>= λ r. some (r.0, slot r.1))

  unfoldable pub allocate_if_space : RawArena T → Option (RawArena T × Option ℕ)
  allocate_if_space a =
      if is_full a then some (a, none) else (take_slot a >>= λ r. some (r.0, some r.1))

  -- What the owner of a slot does with it.
  unfoldable pub write_slot : RawArena T → ℕ → T → RawArena T
  write_slot a i x = record a { memory = update a.memory i (value x) }

  unfoldable pub remaining : RawArena T → ℕ
  remaining a = a.capacity - a.allocated

  -- The slot joins the list of vacant ones; the result says whether the arena is empty now.
  unfoldable pub free_slot : RawArena T → ℕ → Option (RawArena T × Bool)
  free_slot a i = do
    count ← decrement a.allocated
    some (
      record a { memory = update a.memory i (vacant a.next); next = i; allocated = count },
      count == 0,
    )

  unfoldable pub recycle_without_drop : RawArena T → Pointer → Option (RawArena T × Bool)
  recycle_without_drop a (slot i) = free_slot a i
  recycle_without_drop a (system n) = some (a, false)

  -- What a pointer leads to; `heap` is the memory of the system's allocator.
  abbrev pub entry_at : Memory T → RawArena T → Pointer → RawArenaEntry T
  entry_at heap a (slot i) = a.memory i
  entry_at heap a (system n) = heap n

  -- The third part of the result is the value that is dropped first.
  unfoldable pub recycle : Memory T → RawArena T → Pointer → Option (RawArena T × Bool × T)
  recycle heap a pointer = do
    x ← drop_of (entry_at heap a pointer)
    (left, emptied) ← recycle_without_drop a pointer
    some (left, emptied, x)

  -- The walk over the list of vacant slots; the fuel is a bound on its length.
  unfoldable pub vacant_slots : ℕ → RawArena T → ℕ → Option (List ℕ)
  vacant_slots zero a next = if next == a.max then some [] else none
  vacant_slots (suc fuel) a next =
      let rest =
        (next_of (a.memory next) >>= λ n. vacant_slots fuel a n >>= λ is. some (next ∷ is)) in
      if next == a.max then some [] else rest

  -- The slots below a bound that are not in the list are dropped, from the first on.
  unfoldable pub drop_below : ℕ → List ℕ → Memory T → Option (List T)
  drop_below zero free m = some []
  drop_below (suc n) free m = do
    xs ← drop_below n free m
    if member n free then some xs else (drop_of (m n) >>= λ x. some (xs ++ x ∷ []))

  -- The arena is reset, and these values are dropped.
  unfoldable pub drop_allocated : RawArena T → Option (List T)
  drop_allocated a = do free ← vacant_slots a.max a a.next; drop_below a.max free a.memory

  unfoldable pub clear_allocated : RawArena T → Option (RawArena T × List T)
  clear_allocated a = do
    xs ← if ltb 0 a.allocated then drop_allocated a else some []
    some (record a { max = 0; next = 0; allocated = 0 }, xs)
