-- ===== src/AsyncCell/Queue.antt =====
-- How the queue of an `AsyncRefCell` (core/async_cell.rs) mirrors the futures that wait in it.
use deno_core.Common.{
  ℕ, zero, suc, ◌+◌, ◌≤◌, ◌<◌, ◌≡◌, refl, Bool, true, false, ◌&&◌, List, [], ◌∷◌, ◌++◌, Option,
  none, some, arith, ltb, ◌==◌, if◌then◌else◌, length, get_elem?, set, take_at, count,
  count-take_at,
}
use deno_core.AsyncCell.{BorrowMode, Waiter, BorrowFuture}

abbrev pub is_shared : BorrowMode → Bool
is_shared BorrowMode.shared = true
is_shared BorrowMode.exclusive = false

abbrev pub is_exclusive : BorrowMode → Bool
is_exclusive BorrowMode.shared = false
is_exclusive BorrowMode.exclusive = true

-- Futures of a mode whose waiter has left the queue, that is, for which a borrow is reserved.
abbrev pub granted : (BorrowMode → Bool) → ℕ → List BorrowFuture → ℕ
granted m turn = count (λ f. ltb f.id turn && m f.mode)

-- Futures of a mode with a given id.
abbrev pub at_id : (BorrowMode → Bool) → ℕ → List BorrowFuture → ℕ
at_id m id = count (λ f. f.id == id && m f.mode)

abbrev pub of_mode : (BorrowMode → Bool) → List BorrowFuture → ℕ
of_mode m = count (λ f. m f.mode)

pub granted-suc :
    (m : BorrowMode → Bool) (turn : ℕ) (fs : List BorrowFuture)
    → granted m (suc turn) fs ≡ granted m turn fs + at_id m turn fs
granted-suc m turn [] = refl
granted-suc m turn (f ∷ fs) = ground (arith, granted-suc m turn fs)

-- An entry of the queue stands for one future of its mode, and a hole for none.
abbrev pub Stands : List BorrowFuture → ℕ → Option Waiter → Type 0
Stands fs id none = (at_id is_shared id fs ≡ 0) × (at_id is_exclusive id fs ≡ 0)
Stands fs id (some w) =
    (at_id is_shared id fs ≡ (if is_shared w.borrow_mode then 1 else 0))
    × (at_id is_exclusive id fs ≡ (if is_exclusive w.borrow_mode then 1 else 0))

-- The entries stand for the futures with the ids from `turn` on, and there are no later ids.
abbrev pub Queued : List BorrowFuture → ℕ → List (Option Waiter) → Type 0
Queued fs turn [] =
    (granted is_shared turn fs ≡ of_mode is_shared fs)
    × (granted is_exclusive turn fs ≡ of_mode is_exclusive fs)
Queued fs turn (w ∷ ws) = Stands fs turn w × Queued fs (suc turn) ws

granted_all :
    (m : BorrowMode → Bool) (turn : ℕ) (f : BorrowFuture) (fs : List BorrowFuture)
    → f.id < turn
    → granted m turn fs ≡ of_mode m fs
    → granted m turn (f ∷ fs) ≡ of_mode m (f ∷ fs)
granted_all m turn f fs h e = ground arith

granted-le :
    (m : BorrowMode → Bool) (turn : ℕ) (fs : List BorrowFuture) → granted m turn fs ≤ of_mode m fs
granted-le m turn [] = omega arith
granted-le m turn (f ∷ fs) = ground (arith, granted-le m turn fs)

at_id_beyond :
    (m : BorrowMode → Bool) (turn id : ℕ) (fs : List BorrowFuture)
    → turn ≤ id
    → granted m turn fs ≡ of_mode m fs
    → at_id m id fs ≡ 0
at_id_beyond m turn id [] h e = refl
at_id_beyond m turn id (f ∷ fs) h e =
    ground (arith, at_id_beyond m turn id fs h, granted-le m turn fs)

-- A new future with the next id.
pub Queued-add :
    (fs : List BorrowFuture) (turn : ℕ) (ws : List (Option Waiter)) (f : BorrowFuture) (w : Waiter)
    → Queued fs turn ws
    → f.id ≡ turn + length ws
    → w.borrow_mode ≡ f.mode
    → Queued (f ∷ fs) turn (ws ++ some w ∷ [])
Queued-add fs turn [] f w q e m = ground (
  arith,
  granted-suc is_shared turn fs,
  granted-suc is_exclusive turn fs,
  at_id_beyond is_shared turn turn fs,
  at_id_beyond is_exclusive turn turn fs,
)
Queued-add fs turn (none ∷ ws) f w q e m =
    (ground arith, Queued-add fs (suc turn) ws f w q.1 (omega arith) m)
Queued-add fs turn (some v ∷ ws) f w q e m =
    (ground arith, Queued-add fs (suc turn) ws f w q.1 (omega arith) m)

module _ (i : ℕ) (fs : List BorrowFuture) (f : BorrowFuture) (gs : List BorrowFuture)
    (h : take_at i fs ≡ some (f, gs)) where
  pub granted-take_at :
      (m : BorrowMode → Bool) (turn : ℕ)
      → granted m turn fs ≡ (if ltb f.id turn && m f.mode then 1 else 0) + granted m turn gs
  granted-take_at m turn = count-take_at _ i fs f gs h

  at_id-take_at :
      (m : BorrowMode → Bool) (id : ℕ)
      → at_id m id fs ≡ (if f.id == id && m f.mode then 1 else 0) + at_id m id gs
  at_id-take_at m id = count-take_at _ i fs f gs h

  of_mode-take_at :
      (m : BorrowMode → Bool) → of_mode m fs ≡ (if m f.mode then 1 else 0) + of_mode m gs
  of_mode-take_at m = count-take_at _ i fs f gs h

  -- A future whose waiter has left the queue goes.
  pub Queued-take_granted :
      (turn : ℕ) (ws : List (Option Waiter)) → Queued fs turn ws → f.id < turn → Queued gs turn ws
  Queued-take_granted turn [] q lt = ground (
    arith,
    granted-take_at is_shared turn,
    granted-take_at is_exclusive turn,
    of_mode-take_at is_shared,
    of_mode-take_at is_exclusive,
  )
  Queued-take_granted turn (none ∷ ws) q lt = (
    ground (arith, at_id-take_at is_shared turn, at_id-take_at is_exclusive turn),
    Queued-take_granted (suc turn) ws q.1 (omega arith),
  )
  Queued-take_granted turn (some w ∷ ws) q lt = (
    ground (arith, at_id-take_at is_shared turn, at_id-take_at is_exclusive turn),
    Queued-take_granted (suc turn) ws q.1 (omega arith),
  )

  not-waiting_beyond : (turn : ℕ) → Queued fs turn [] → turn ≤ f.id → ⊥
  not-waiting_beyond turn q le = ground (
    arith,
    granted-take_at is_shared turn,
    granted-take_at is_exclusive turn,
    of_mode-take_at is_shared,
    of_mode-take_at is_exclusive,
    granted-le is_shared turn gs,
    granted-le is_exclusive turn gs,
  )

  -- A future that waits goes, and a hole is left for it.
  pub Queued-take_waiting :
      (k turn : ℕ) (ws : List (Option Waiter))
      → Queued fs turn ws
      → f.id ≡ turn + k
      → Queued gs turn (set ws k none)
  Queued-take_waiting k turn [] q e = absurd (not-waiting_beyond turn q (omega arith))
  Queued-take_waiting zero turn (none ∷ ws) q e = (
    ground (arith, at_id-take_at is_shared turn, at_id-take_at is_exclusive turn),
    Queued-take_granted (suc turn) ws q.1 (omega arith),
  )
  Queued-take_waiting zero turn (some w ∷ ws) q e = (
    ground (arith, at_id-take_at is_shared turn, at_id-take_at is_exclusive turn),
    Queued-take_granted (suc turn) ws q.1 (omega arith),
  )
  Queued-take_waiting (suc k) turn (none ∷ ws) q e = (
    ground (arith, at_id-take_at is_shared turn, at_id-take_at is_exclusive turn),
    Queued-take_waiting k (suc turn) ws q.1 (omega arith),
  )
  Queued-take_waiting (suc k) turn (some w ∷ ws) q e = (
    ground (arith, at_id-take_at is_shared turn, at_id-take_at is_exclusive turn),
    Queued-take_waiting k (suc turn) ws q.1 (omega arith),
  )

  -- A future that waits has its entry in the queue.
  pub entry_of_waiting :
      (k turn : ℕ) (ws : List (Option Waiter))
      → Queued fs turn ws
      → f.id ≡ turn + k
      → (w : Waiter) × (get_elem? ws k ≡ some (some w)) × (w.borrow_mode ≡ f.mode) × (k < length ws)
  entry_of_waiting k turn [] q e = absurd (not-waiting_beyond turn q (omega arith))
  entry_of_waiting zero turn (none ∷ ws) q e =
      absurd (ground (arith, at_id-take_at is_shared turn, at_id-take_at is_exclusive turn))
  entry_of_waiting zero turn (some w ∷ ws) q e = (
    w,
    refl,
    ground (arith, at_id-take_at is_shared turn, at_id-take_at is_exclusive turn),
    omega arith,
  )
  entry_of_waiting (suc k) turn (_ ∷ ws) q e =
      let (w, found, mode, lt) = entry_of_waiting k (suc turn) ws q.1 (omega arith) in
      (w, found, mode, omega arith)

-- A waker that is saved leaves the queue as it stands.
pub Queued-set_waker :
    (fs : List BorrowFuture) (k turn : ℕ) (ws : List (Option Waiter)) (w v : Waiter)
    → Queued fs turn ws
    → get_elem? ws k ≡ some (some w)
    → v.borrow_mode ≡ w.borrow_mode
    → Queued fs turn (set ws k (some v))
Queued-set_waker fs k turn [] w v q e m = q
Queued-set_waker fs zero turn (none ∷ ws) w v q e m = absurd (ground arith)
Queued-set_waker fs zero turn (some u ∷ ws) w v q e m = (ground arith, q.1)
Queued-set_waker fs (suc k) turn (u ∷ ws) w v q e m =
    (q.0, Queued-set_waker fs k (suc turn) ws w v q.1 e m)
