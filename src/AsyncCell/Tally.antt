-- ===== src/AsyncCell/Tally.antt =====
-- core/async_cell.rs: the borrow count as a tally of the reserved and the held borrows, and
-- the waiter at the front of the queue.
use deno_core.Common.{
  ℕ, zero, suc, ◌+◌, ◌<◌, ◌≡◌, refl, Bool, false, List, [], ◌∷◌, Option, none, some, arith,
  if◌then◌else◌, get_elem?, set, count, inl, inr, Option-cases,
}
use deno_core.AsyncCell.{
  BorrowMode, BorrowCount, Waiter, BorrowFuture, AsyncRefCell, try_add, try_remove, is_empty,
  wake_loop, wake_waiters,
}
use deno_core.AsyncCell.Queue.{is_shared, is_exclusive, granted, granted-suc, Queued}

-- The borrow count stands for that many shared and exclusive borrows.
abbrev pub Tally : BorrowCount → ℕ → ℕ → Type 0
Tally (BorrowCount.shared refs) s x = (s ≡ refs) × (x ≡ 0)
Tally BorrowCount.exclusive s x = (s ≡ 0) × (x ≡ 1)

-- The waiter at the front, if there is one, cannot borrow now.
abbrev pub Blocked : BorrowCount → List (Option Waiter) → Type 0
Blocked b [] = Unit {0}
Blocked b (none ∷ ws) = ⊥
Blocked b (some w ∷ ws) = try_add b w.borrow_mode ≡ none

-- The borrows of a mode that the guards hold.
abbrev pub held : (BorrowMode → Bool) → List BorrowMode → ℕ
held m = count m

abbrev pub Tallied : AsyncRefCell → List BorrowFuture → List BorrowMode → Type 0
Tallied c fs gs =
    Tally c.borrow_count (granted is_shared c.turn fs + held is_shared gs)
      (granted is_exclusive c.turn fs + held is_exclusive gs)

-- Adding a borrow where it can be added keeps the tally.
pub Tally-add :
    (b b' : BorrowCount) (mode : BorrowMode) (s x : ℕ)
    → Tally b s x
    → try_add b mode ≡ some b'
    → Tally b' (s + (if is_shared mode then 1 else 0)) (x + (if is_exclusive mode then 1 else 0))
unfolding try_add
Tally-add (BorrowCount.shared zero) b' BorrowMode.shared s x t e = ground arith
Tally-add (BorrowCount.shared (suc n)) b' BorrowMode.shared s x t e = ground arith
Tally-add (BorrowCount.shared zero) b' BorrowMode.exclusive s x t e = ground arith
Tally-add (BorrowCount.shared (suc n)) b' BorrowMode.exclusive s x t e = absurd (ground arith)
Tally-add BorrowCount.exclusive b' BorrowMode.shared s x t e = absurd (ground arith)
Tally-add BorrowCount.exclusive b' BorrowMode.exclusive s x t e = absurd (ground arith)

-- A borrow that is counted can be removed.
pub Tally-remove :
    (b : BorrowCount) (mode : BorrowMode) (s x : ℕ)
    → Tally b (s + (if is_shared mode then 1 else 0)) (x + (if is_exclusive mode then 1 else 0))
    → (b' : BorrowCount) × (try_remove b mode ≡ some b') × Tally b' s x
unfolding try_remove
Tally-remove (BorrowCount.shared zero) BorrowMode.shared s x t = absurd (omega arith)
Tally-remove (BorrowCount.shared (suc n)) BorrowMode.shared s x t =
    (BorrowCount.shared n, refl, omega arith)
Tally-remove (BorrowCount.shared n) BorrowMode.exclusive s x t = absurd (omega arith)
Tally-remove BorrowCount.exclusive BorrowMode.shared s x t = absurd (omega arith)
Tally-remove BorrowCount.exclusive BorrowMode.exclusive s x t =
    (BorrowCount.shared 0, refl, omega arith)

abbrev pub Good : AsyncRefCell → List BorrowFuture → List BorrowMode → Type 0
Good c fs gs = Tallied c fs gs × Queued fs c.turn c.waiters × Blocked c.borrow_count c.waiters

pub Tally-eq : (b : BorrowCount) {s s' x x' : ℕ} → Tally b s x → s' ≡ s → x' ≡ x → Tally b s' x'
Tally-eq (BorrowCount.shared n) t e d = omega arith
Tally-eq BorrowCount.exclusive t e d = omega arith

-- The loop hands out borrows from the front until the front is blocked.
pub wake_loop-Good :
    (b : BorrowCount) (ws : List (Option Waiter)) (turn : ℕ) (fs : List BorrowFuture)
    (gs : List BorrowMode)
    → Tallied (record { borrow_count = b; waiters = ws; turn = turn }) fs gs
    → Queued fs turn ws
    → Good (wake_loop b ws turn).0 fs gs
unfolding wake_loop
wake_loop-Good b [] turn fs gs t q = (t, q, tt)
wake_loop-Good b (none ∷ ws) turn fs gs t q =
    wake_loop-Good b ws (suc turn) fs gs
      (Tally-eq b t (omega (arith, granted-suc is_shared turn fs))
        (omega (arith, granted-suc is_exclusive turn fs)))
      q.1
wake_loop-Good b (some w ∷ ws) turn fs gs t q = elim (Option-cases (try_add b w.borrow_mode)) [
  | inl e ↦ rw (e, wake_loop) (t, q, e)
  | inr (b', e) ↦
      rw (e, wake_loop)
        (wake_loop-Good b' ws (suc turn) fs gs
          (Tally-eq b' (Tally-add b b' w.borrow_mode _ _ t e)
            (omega (arith, granted-suc is_shared turn fs))
            (omega (arith, granted-suc is_exclusive turn fs)))
          q.1)
]

pub wake_waiters-Good :
    (c : AsyncRefCell) (fs : List BorrowFuture) (gs : List BorrowMode)
    → Tallied c fs gs
    → Queued fs c.turn c.waiters
    → Good (wake_waiters c).0 fs gs
unfolding wake_waiters
wake_waiters-Good c fs gs t q = wake_loop-Good c.borrow_count c.waiters c.turn fs gs t q

-- While a borrow is left, whoever was blocked stays so.
pub still_blocked :
    (b b' : BorrowCount) (mode wanted : BorrowMode)
    → try_remove b mode ≡ some b'
    → is_empty b' ≡ false
    → try_add b wanted ≡ none
    → try_add b' wanted ≡ none
unfolding try_remove try_add is_empty
still_blocked b b' mode wanted r l t = ground arith

pub still_Blocked :
    (b b' : BorrowCount) (mode : BorrowMode) (ws : List (Option Waiter))
    → try_remove b mode ≡ some b'
    → is_empty b' ≡ false
    → Blocked b ws
    → Blocked b' ws
still_Blocked b b' mode [] r l t = tt
still_Blocked b b' mode (none ∷ ws) r l t = t
still_Blocked b b' mode (some w ∷ ws) r l t = still_blocked b b' mode w.borrow_mode r l t

pub Blocked-front :
    (b : BorrowCount) (ws : List (Option Waiter)) (w : Waiter)
    → get_elem? ws 0 ≡ some (some w)
    → Blocked b ws
    → try_add b w.borrow_mode ≡ none
Blocked-front b [] w e l = absurd (ground arith)
Blocked-front b (none ∷ ws) w e l = absurd l
Blocked-front b (some v ∷ ws) w e l = ground arith

pub Blocked-set_waker :
    (b : BorrowCount) (ws : List (Option Waiter)) (k : ℕ) (w v : Waiter)
    → get_elem? ws k ≡ some (some w)
    → v.borrow_mode ≡ w.borrow_mode
    → Blocked b ws
    → Blocked b (set ws k (some v))
Blocked-set_waker b [] k w v e m l = l
Blocked-set_waker b (none ∷ ws) k w v e m l = absurd l
Blocked-set_waker b (some u ∷ ws) zero w v e m l = ground arith
Blocked-set_waker b (some u ∷ ws) (suc k) w v e m l = l

-- A hole behind the front does not change who is at the front.
pub Blocked-hole :
    (b : BorrowCount) (ws : List (Option Waiter)) (k : ℕ)
    → 0 < k
    → Blocked b ws
    → Blocked b (set ws k none)
Blocked-hole b [] k h l = l
Blocked-hole b (w ∷ ws) zero h l = absurd (omega arith)
Blocked-hole b (none ∷ ws) (suc k) h l = l
Blocked-hole b (some w ∷ ws) (suc k) h l = l
