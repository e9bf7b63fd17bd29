-- ===== src/UvCompat/WellFormed.antt =====
-- What holds of a loop between calls, and the updates of one handle and of the timers that keep it.
use native.Mathlib.Decide.{ℕ_discrete}
use mathlib.Core.Path.{fun_ext}
use deno_core.Common.{
  if-elim, ℕ, ◌<◌, ◌≡◌, sym, ap, ◌⊎◌, inl, inr, true, false, none, some, ◌==◌, lookup, member,
  NoRepeat, arith, subst, Bool-cases, Option-cases,
}
use deno_core.UvCompat.{Phase, HandleType, unknown, timer, tcp, watcher, Handle, Loop, put, write}
use deno_core.UvCompat.Keys.{has_key, Sorted}

-- Where the loop keeps an active handle of a type.
abbrev pub Kept : HandleType → ℕ → Loop → Type 0
Kept timer h s = lookup ℕ_discrete (s.memory h).internal_id s.timer_handles ≡ some h
Kept (watcher p) h s = member h (s.handles p) ≡ true
Kept t h s = ⊥

-- An entry of timer_handles is an active timer that has its key.
abbrev pub TimerEntry : ℕ → ℕ → Loop → Type 0
TimerEntry i h s =
    ((s.memory h).active ≡ true)
    × ((s.memory h).type ≡ timer)
    × ((s.memory h).internal_id ≡ i)
    × (has_key ((s.memory h).internal_deadline, i) s.timers ≡ true)
    × (i < s.next_timer_id)
    × (0 < i)

pub record WellFormed (s : Loop) : Type 0 where
  pub entry : (i h : ℕ) → lookup ℕ_discrete i s.timer_handles ≡ some h → TimerEntry i h s
  pub keyed :
      (d i : ℕ)
      → has_key (d, i) s.timers ≡ true
      → (h : ℕ) × (lookup ℕ_discrete i s.timer_handles ≡ some h)
        × ((s.memory h).internal_deadline ≡ d)
  pub own : (h j : ℕ) → lookup ℕ_discrete (s.memory h).internal_id s.timer_handles ≡ some j → j ≡ h
  pub fresh : (h : ℕ) → (s.memory h).internal_id < s.next_timer_id
  pub listed :
      (p : Phase) (h : ℕ)
      → member h (s.handles p) ≡ true
      → ((s.memory h).active ≡ true) × ((s.memory h).type ≡ watcher p)
  pub once : (p : Phase) → NoRepeat (s.handles p)
  pub registered : (h : ℕ) → (s.memory h).active ≡ true → Kept (s.memory h).type h s
  pub sorted : Sorted s.timers

-- A handle is written with the fields that the loop relies on as they were.
abbrev pub Agrees : Handle → Handle → Type 0
Agrees v u =
    (v.type ≡ u.type)
    × (v.active ≡ u.active)
    × (v.internal_id ≡ u.internal_id)
    × (v.internal_deadline ≡ u.internal_deadline)

-- A handle that is left alone stays where it is kept.
module _ (g : ℕ) (s t : Loop) (e : t.memory g ≡ s.memory g) where
  pub Kept-eq :
      (u : HandleType)
      → (lookup ℕ_discrete (s.memory g).internal_id s.timer_handles ≡ some g
          → lookup ℕ_discrete (s.memory g).internal_id t.timer_handles ≡ some g)
      → ((p : Phase) → member g (s.handles p) ≡ true → member g (t.handles p) ≡ true)
      → Kept u g s
      → Kept u g t
  Kept-eq timer f l k = rw e (f k)
  Kept-eq (watcher p) f l k = l p k
  Kept-eq unknown f l k = k
  Kept-eq tcp f l k = k

pub put_other : (h g : ℕ) (v : Handle) (m : ℕ → Handle) → (g == h) ≡ false → put h v m g ≡ m g
put_other h g v m e = rw e

pub put_self : (h : ℕ) (v : Handle) (m : ℕ → Handle) → put h v m h ≡ v
put_self h v m = ground arith

-- Writing a handle twice is writing it once.
pub overwrite-WellFormed :
    (h : ℕ) (u : Handle) (s : Loop) (f : Handle → Handle)
    → WellFormed (write h (f u) s)
    → WellFormed (write h (f (put h u s.memory h)) (write h u s))
overwrite-WellFormed h u s f =
    subst (λ m. WellFormed (record s { memory = m }))
      (fun_ext {f = put h (f u) s.memory} {g = put h (f (put h u s.memory h)) (put h u s.memory)}
        (λ a.
          if-elim (λ x. x ≡ put h (f (put h u s.memory h)) (put h u s.memory) a) (a == h) (f u)
            (s.memory a) (λ q. rw q (ap f (sym (put_self h u s.memory)))) (λ q. rw q)))

module _ (h : ℕ) (v : Handle) (s : Loop) (w : WellFormed s) where
  Kept_write :
      (t : HandleType) (a : ℕ)
      → v.internal_id ≡ (s.memory h).internal_id
      → Kept t a s
      → Kept t a (write h v s)
  Kept_write timer a e k = ground (arith, k, e)
  Kept_write (watcher p) a e k = k
  Kept_write unknown a e k = k
  Kept_write tcp a e k = k

  pub write-WellFormed : Agrees v (s.memory h) → WellFormed (write h v s)
  write-WellFormed a = record {
    entry = λ i g e. ground (arith, w.entry i g e, a);
    keyed = λ d i e. let (g, l, x) = w.keyed d i e in (g, l, ground (arith, x, a));
    own = λ g j e. ground (arith, w.own g j, e, a);
    fresh = λ g. ground (arith, w.fresh g, w.fresh h, a);
    listed = λ p g e. ground (arith, w.listed p g e, a);
    once = w.once;
    registered = λ g e.
        let x : (put h v s.memory g).type ≡ (s.memory g).type = ground (arith, a) in
        subst (λ t. Kept t g (write h v s)) (sym x)
          (Kept_write (s.memory g).type g a.2 (w.registered g (ground (arith, e, a))));
    sorted = w.sorted;
  }

  -- An inactive handle is written, and is still inactive.
  pub write_inactive-WellFormed :
      (s.memory h).active ≡ false
      → v.active ≡ false
      → (v.internal_id ≡ 0) ⊎ (v.internal_id ≡ (s.memory h).internal_id)
      → WellFormed (write h v s)
  write_inactive-WellFormed off off' ids = record {
    entry = λ i g e. ground (arith, w.entry i g e, off);
    keyed = λ d i e. let (g, l, x) = w.keyed d i e in (g, l, ground (arith, x, w.entry i g l, off));
    own = λ g j e. ground (arith, w.own g j, w.entry 0 j, e, ids);
    fresh = λ g. ground (arith, w.fresh g, w.fresh h, ids);
    listed = λ p g e. ground (arith, w.listed p g e, off);
    once = w.once;
    registered = λ g e. elim (Bool-cases (g == h)) [
      | inl q ↦ absurd (ground (arith, e, off', q))
      | inr q ↦
          let x = put_other h g v s.memory q in
          subst (λ u. Kept u.type g (write h v s)) (sym x)
            (Kept-eq g s (write h v s) x (s.memory g).type (λ k. k) (λ p k. k)
              (w.registered g (ground (arith, e, x))))
    ];
    sorted = w.sorted;
  }

-- Of the handle `h` that is stopped, and of every other.
module _ (h : ℕ) (s : Loop) (w : WellFormed s) (ty : (s.memory h).type ≡ timer) where
  pub inactive_unkept :
      (s.memory h).active ≡ false
      → lookup ℕ_discrete (s.memory h).internal_id s.timer_handles ≡ none
  inactive_unkept off =
      elim (Option-cases (lookup ℕ_discrete (s.memory h).internal_id s.timer_handles)) [
        | inl e ↦ e
        | inr (j, e) ↦
            absurd (ground (arith, w.own h j e, w.entry (s.memory h).internal_id j e, off))
      ]
