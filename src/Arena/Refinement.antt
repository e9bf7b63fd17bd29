-- ===== src/Arena/Refinement.antt =====
-- core/arena/raw_arena.rs: the arena refines a pool of slots, which is the list of the slots that
-- are handed out: an allocation adds a slot that is not in the list, recycling takes one out.
use deno_core.Common.{
  ℕ, suc, ◌+◌, ◌≤◌, ◌<◌, ◌≡◌, refl, ap, ◌∙◌, inl, inr, Bool, true, false, not, List, [], ◌∷◌,
  Option, none, some, ◌==◌, ◌>>=◌, length, member, without, NoRepeat, length-without,
  member-without_other, member-without_self, without-NoRepeat, arith, Bool-cases, bind-some,
  decrement,
}
use deno_core.Arena.{
  vacant, value, Memory, update, RawArena, Pointer, slot, system, next_of, drop_of, with_capacity,
  is_full, extend_mark, pop_vacant, take_slot, allocate, allocate_if_space, write_slot, free_slot,
  recycle, recycle_without_drop,
}
use deno_core.Arena.FreeList.{FreeList, FreeList-update}

module _ {T : Type 0} where
  pub record Refines (a : RawArena T) (live : List ℕ) : Type 0 where
    pub free : List ℕ
    pub frees : FreeList a.memory a.next a.max free
    pub room : a.max ≤ a.capacity
    pub count : length free + a.allocated ≡ a.max
    pub live_count : a.allocated ≡ length live
    pub apart : (i : ℕ) → i < a.max → member i free ≡ not (member i live)
    pub below : (i : ℕ) → member i live ≡ true → i < a.max
    pub once : NoRepeat live

  pub with_capacity-Refines : (capacity : ℕ) → Refines (with_capacity capacity) []
  unfolding with_capacity
  with_capacity-Refines capacity = record {
    free = [];
    frees = refl;
    room = omega arith;
    count = omega arith;
    live_count = refl;
    apart = λ i h. absurd (omega arith);
    below = λ i h. ground (arith, h);
    once = tt;
  }

  -- A new slot is inside the block and was not handed out; the slots that were keep what they hold.
  abbrev pub Fresh : RawArena T → List ℕ → RawArena T → ℕ → Type 0
  Fresh a live a' i =
      (i < a.capacity)
      × (member i live ≡ false)
      × Refines a' (i ∷ live)
      × (a'.memory ≡ a.memory)
      × (a'.capacity ≡ a.capacity)

  take_slot-Refines :
      (a : RawArena T) (live : List ℕ)
      → Refines a live
      → is_full a ≡ false
      → (a' : RawArena T) × (i : ℕ) × (take_slot a ≡ some (a', i)) × Fresh a live a' i
  unfolding take_slot
  take_slot-Refines a live r space = go r.free r.frees r.count r.apart
    where
      mark_unused : member a.max live ≡ false
      mark_unused = elim (Bool-cases (member a.max live)) [
        | inl used ↦ absurd (omega (arith, r.below a.max used))
        | inr unused ↦ unused
      ]

      go :
          (free : List ℕ)
          → FreeList a.memory a.next a.max free
          → length free + a.allocated ≡ a.max
          → ((i : ℕ) → i < a.max → member i free ≡ not (member i live))
          → (a' : RawArena T) × (i : ℕ) × (take_slot a ≡ some (a', i)) × Fresh a live a' i
      go [] f c apart =
          let below_capacity : a.max < a.capacity = ground (arith, space, f, r.room) in
          (
            extend_mark a,
            a.next,
            ground (arith, f),
            (
              omega (arith, f),
              ap (λ k. member k live) f ∙ mark_unused,
              record {
                free = [];
                frees = refl;
                room = omega arith;
                count = omega (arith, c);
                live_count = omega (arith, r.live_count);
                apart = λ i h. ground (arith, f, apart i);
                below = λ i h. ground (arith, f, h, r.below i);
                once = (ap (λ k. member k live) f ∙ mark_unused, r.once);
              },
              refl,
              refl,
            ),
          )
      go (i ∷ free) (at, lt, alone, n, entry, rest) c apart =
          let unused : member i live ≡ false = ground (arith, apart i lt) in
          (
            pop_vacant a n,
            a.next,
            ground (arith, at, lt, entry, ap (λ k. next_of (a.memory k)) at),
            (
              omega (arith, at, lt, r.room),
              ap (λ k. member k live) at ∙ unused,
              record {
                free = free;
                frees = rest;
                room = r.room;
                count = omega (arith, c);
                live_count = omega (arith, r.live_count);
                apart = λ k h. ground (arith, at, alone, apart k h);
                below = λ k h. ground (arith, at, lt, h, r.below k);
                once = (ap (λ k. member k live) at ∙ unused, r.once);
              },
              refl,
              refl,
            ),
          )

  full_lem :
      (a : RawArena T) (live : List ℕ)
      → Refines a live
      → is_full a ≡ true
      → length live ≡ a.capacity
  full_lem a live r full = go r.free r.frees r.count
    where
      go :
          (free : List ℕ)
          → FreeList a.memory a.next a.max free
          → length free + a.allocated ≡ a.max
          → length live ≡ a.capacity
      go [] f c = ground (arith, full, c, r.live_count)
      go (i ∷ free) f c = absurd (ground (arith, full, f.0, f.1))

  pub length_bound : (a : RawArena T) (live : List ℕ) → Refines a live → length live ≤ a.capacity
  length_bound a live r = omega (arith, r.count, r.live_count, r.room)

  -- What `allocate_if_space` may return, in terms of the pool.
  abbrev pub Allocates : RawArena T → List ℕ → RawArena T → Option ℕ → Type 0
  Allocates a live a' none = (a' ≡ a) × (length live ≡ a.capacity)
  Allocates a live a' (some i) = Fresh a live a' i × (length live < a.capacity)

  -- What `allocate` may return: a slot, or an address of the system where the arena is full.
  abbrev pub AllocatesAt : ℕ → RawArena T → List ℕ → RawArena T → Pointer → Type 0
  AllocatesAt address a live a' (slot i) = Fresh a live a' i × (length live < a.capacity)
  AllocatesAt address a live a' (system n) = (n ≡ address) × (a' ≡ a) × (length live ≡ a.capacity)

  Fresh-room :
      (a : RawArena T) (live : List ℕ) (a' : RawArena T) (i : ℕ)
      → Fresh a live a' i
      → length live < a.capacity
  Fresh-room a live a' i fresh = omega (arith, length_bound a' (i ∷ live) fresh.2, fresh.4)

  -- RawArena refines a pool of slots. An arena in the representation of a pool either is full,
  -- and then `allocate` leaves it alone and returns the address of the system; or it has fewer
  -- slots handed out than its capacity, and `allocate` returns a slot of the block that was not
  -- handed out, keeps the contents of all slots, and the new arena represents the pool with that
  -- slot added.
  pub allocate_lem :
      (a : RawArena T) (live : List ℕ) (address : ℕ)
      → Refines a live
      → (a' : RawArena T) × (p : Pointer) × (allocate a address ≡ some (a', p))
        × AllocatesAt address a live a' p
  unfolding allocate
  allocate_lem a live address r = elim (Bool-cases (is_full a)) [
    | inl full ↦ (a, system address, ground (arith, full), (refl, refl, full_lem a live r full))
    | inr space ↦
        let (a', i, e, fresh) = take_slot-Refines a live r space in
        (a', slot i, ground (arith, space, e), (fresh, Fresh-room a live a' i fresh))
  ]

  pub allocate_if_space_lem :
      (a : RawArena T) (live : List ℕ)
      → Refines a live
      → (a' : RawArena T) × (result : Option ℕ) × (allocate_if_space a ≡ some (a', result))
        × Allocates a live a' result
  unfolding allocate_if_space
  allocate_if_space_lem a live r = elim (Bool-cases (is_full a)) [
    | inl full ↦ (a, none, ground (arith, full), (refl, full_lem a live r full))
    | inr space ↦
        let (a', i, e, fresh) = take_slot-Refines a live r space in
        (a', some i, ground (arith, space, e), (fresh, Fresh-room a live a' i fresh))
  ]

  abbrev freed : RawArena T → ℕ → ℕ → RawArena T
  freed a i n = record a { memory = update a.memory i (vacant a.next); next = i; allocated = n }

  -- After a slot was given back: the pool without it, and every other slot as it was.
  abbrev pub GivenBack : RawArena T → List ℕ → ℕ → RawArena T → Bool → Type 0
  GivenBack a live i a' emptied =
      Refines a' (without i live)
      × (emptied ≡ (length (without i live) == 0))
      × ((j : ℕ) → (j == i) ≡ false → a'.memory j ≡ a.memory j)

  free_slot-Refines :
      (a : RawArena T) (live : List ℕ) (i : ℕ)
      → Refines a live
      → member i live ≡ true
      → (a' : RawArena T) × (emptied : Bool) × (free_slot a i ≡ some (a', emptied))
        × GivenBack a live i a' emptied
  unfolding free_slot
  free_slot-Refines a live i r held =
      let left = length (without i live) in
      let count : a.allocated ≡ suc left = r.live_count ∙ length-without i live held in
      let unfree : member i r.free ≡ false = ground (arith, r.apart i (r.below i held), held) in
      (
        freed a i left,
        left == 0,
        bind-some (λ n. some (freed a i n, n == 0)) (ap decrement count),
        (
          record {
            free = i ∷ r.free;
            frees = (
              refl,
              r.below i held,
              unfree,
              a.next,
              ground arith,
              FreeList-update a.memory i a.next a.max (vacant a.next) r.free unfree r.frees,
            );
            room = r.room;
            count = omega (arith, r.count, count);
            live_count = refl;
            apart = λ k h. ground (
              arith,
              r.apart k h,
              member-without_other i k live,
              member-without_self i live r.once,
            );
            below = λ k h. ground (
              arith,
              h,
              r.below k,
              member-without_other i k live,
              member-without_self i live r.once,
            );
            once = without-NoRepeat i live r.once;
          },
          refl,
          λ j other. ground (arith, other),
        ),
      )

  -- Recycling without a drop gives back a slot whatever it holds, and leaves the arena alone where
  -- the pointer is the system's.
  pub recycle_without_drop_lem :
      (a : RawArena T) (live : List ℕ)
      → Refines a live
      → ((i : ℕ)
          → member i live ≡ true
          → (a' : RawArena T) × (emptied : Bool) × (recycle_without_drop a (slot i)
              ≡ some (a', emptied))
            × GivenBack a live i a' emptied)
        × ((n : ℕ) → recycle_without_drop a (system n) ≡ some (a, false))
  unfolding recycle_without_drop
  recycle_without_drop_lem a live r = (λ i held. free_slot-Refines a live i r held, λ n. refl)

  -- Recycling a slot that is handed out and holds a value drops that value, keeps the contents
  -- of all other slots, returns true exactly when no slot is handed out any more, and leads to
  -- an arena that represents the pool without the slot. Recycling a value of the system drops it
  -- and leaves the arena alone.
  pub recycle_lem :
      (heap : Memory T) (a : RawArena T) (live : List ℕ)
      → Refines a live
      → ((i : ℕ) (x : T)
          → member i live ≡ true
          → a.memory i ≡ value x
          → (a' : RawArena T) × (emptied : Bool) × (recycle heap a (slot i) ≡ some (a', emptied, x))
            × GivenBack a live i a' emptied)
        × ((n : ℕ) (x : T) → heap n ≡ value x → recycle heap a (system n) ≡ some (a, false, x))
  unfolding recycle
  recycle_lem heap a live r = (
    λ i x held entry.
        let (a', emptied, e, back) = (recycle_without_drop_lem a live r).0 i held in
        (
          a',
          emptied,
          bind-some (λ y. recycle_without_drop a (slot i) >>= λ (b, c). some (b, c, y))
                (ap drop_of entry)
              ∙ bind-some (λ (b, c). some (b, c, x)) e,
          back,
        ),
    λ n x entry.
        bind-some (λ y. recycle_without_drop a (system n) >>= λ (b, c). some (b, c, y))
          (ap drop_of entry)
        ∙ bind-some (λ (b, c). some (b, c, x)) ((recycle_without_drop_lem a live r).1 n),
  )

  pub write_slot_lem :
      (a : RawArena T) (live : List ℕ) (i : ℕ) (x : T)
      → Refines a live
      → member i live ≡ true
      → Refines (write_slot a i x) live
  unfolding write_slot
  write_slot_lem a live i x r held = record {
    free = r.free;
    frees = FreeList-update a.memory i a.next a.max (value x) r.free (not_free) r.frees;
    room = r.room;
    count = r.count;
    live_count = r.live_count;
    apart = r.apart;
    below = r.below;
    once = r.once;
  }
    where
      not_free : member i r.free ≡ false
      not_free = ground (arith, r.apart i (r.below i held), held)
