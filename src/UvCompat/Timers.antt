-- ===== src/UvCompat/Timers.antt =====
-- Starting, stopping and re-arming timers keeps the loop well formed.
use native.Mathlib.Decide.{ℕ_discrete}
use deno_core.Common.{
  if-elim, ℕ, ◌<◌, ◌≡◌, refl, sym, inl, inr, true, false, List, none, some, ltb, ◌==◌, lookup,
  remove, lookup-insert, lookup-remove, arith, subst, Bool-cases,
}
use deno_core.UvCompat.{timer, Handle, Loop, remove_key, put, write}
use deno_core.UvCompat.Handles.{deactivate, stop_timer, schedule, u64_add}
use deno_core.UvCompat.Phases.{take_key, rearm, reschedule}
use deno_core.UvCompat.Keys.{
  has_key, has_key-insert_key, has_key-remove_key, insert_key-Sorted, remove_key-Sorted,
}
use deno_core.UvCompat.WellFormed.{Kept, WellFormed, Kept-eq, put_other, write_inactive-WellFormed}

module _ (h : ℕ) (s : Loop) (w : WellFormed s) (ty : (s.memory h).type ≡ timer) where
  abbrev id : ℕ
  id = (s.memory h).internal_id

  abbrev at : ℕ
  at = (s.memory h).internal_deadline

  abbrev th : List (ℕ × ℕ)
  th = s.timer_handles

  -- The state after the branch of stop_timer for a timer that was started.
  abbrev stopped : Handle → Loop
  stopped v = write h v (record s {
    timers = remove_key (at, id) s.timers;
    timer_handles = remove ℕ_discrete id s.timer_handles;
  })

  pub stopped-WellFormed :
      (v : Handle) → v.active ≡ false → v.internal_id ≡ id → WellFormed (stopped v)
  stopped-WellFormed v off ids = record {
    entry = λ i g e. ground (
      arith,
      lookup-remove ℕ_discrete id i th,
      w.entry i g,
      w.own h g,
      e,
      has_key-remove_key ((s.memory g).internal_deadline, i) (at, id) s.timers,
    );
    keyed = λ d i e.
        let (g, l, x) =
          w.keyed d i (ground (arith, e, has_key-remove_key (d, i) (at, id) s.timers)) in
        (
          g,
          ground (
            arith,
            l,
            x,
            lookup-remove ℕ_discrete id i th,
            w.own h g,
            e,
            has_key-remove_key (d, i) (at, id) s.timers,
          ),
          ground (arith, x, l, e, w.entry i g l, has_key-remove_key (d, i) (at, id) s.timers),
        );
    own = λ g j e.
        ground (arith, w.own g j, e, ids, lookup-remove ℕ_discrete id (s.memory g).internal_id th);
    fresh = λ g. ground (arith, w.fresh g, w.fresh h, ids);
    listed = λ p g e. ground (arith, w.listed p g e, ty, off);
    once = w.once;
    registered = λ g e. elim (Bool-cases (g == h)) [
      | inl q ↦ absurd (ground (arith, e, q, off))
      | inr q ↦
          let x = put_other h g v s.memory q in
          subst (λ u. Kept u.type g (stopped v)) (sym x)
            (Kept-eq g s (stopped v) x (s.memory g).type
              (λ k.
                ground
                  (arith, k, q, w.own h g, lookup-remove ℕ_discrete id (s.memory g).internal_id th))
              (λ p k. k) (w.registered g (ground (arith, e, x))))
    ];
    sorted = remove_key-Sorted (at, id) s.timers w.sorted;
  }

  -- A timer that was never started is not active.
  pub unstarted : id ≡ 0 → (s.memory h).active ≡ false
  unstarted e = elim (Bool-cases (s.memory h).active) [
    | inr off ↦ off
    | inl on ↦
        let k = subst (λ t. Kept t h s) ty (w.registered h on) in
        absurd (omega (arith, e, w.entry id h k))
  ]

  pub stop_timer-WellFormed : WellFormed (stop_timer h s)
  unfolding stop_timer
  stop_timer-WellFormed =
      let v = record (s.memory h) { active = false } in
      if-elim (λ t. WellFormed (deactivate h t)) (id == 0) s
        (record s {
          timers = remove_key (at, id) s.timers;
          timer_handles = remove ℕ_discrete id s.timer_handles;
        })
        (λ q. write_inactive-WellFormed h v s w (unstarted (ground (arith, q))) refl (inr refl))
        (λ q. stopped-WellFormed v refl refl)

  pub stop_timer-inactive : ((stop_timer h s).memory h).active ≡ false
  unfolding stop_timer
  stop_timer-inactive = ground arith

  pub stop_timer-type : ((stop_timer h s).memory h).type ≡ timer
  unfolding stop_timer
  stop_timer-type = ground (arith, ty)

-- A timer that is not active gets a new id.
module _ (h wait : ℕ) (s : Loop) (w : WellFormed s) (ty : (s.memory h).type ≡ timer)
    (off : (s.memory h).active ≡ false) where
  old_key : (d i : ℕ) → has_key (d, i) s.timers ≡ true → i < s.next_timer_id
  old_key d i e = let (g, l, x) = w.keyed d i e in omega (arith, w.entry i g l)

  pub schedule-WellFormed : WellFormed (schedule h wait s)
  schedule-WellFormed =
      let n = s.next_timer_id in
      let dl = u64_add s.now_ms wait in
      let v = record (s.memory h) { internal_id = n; internal_deadline = dl; active = true } in
      record {
        entry = λ i g e. ground (
          arith,
          lookup-insert ℕ_discrete n i h s.timer_handles,
          w.entry i g,
          w.fresh h,
          e,
          ty,
          off,
          has_key-insert_key ((put h v s.memory g).internal_deadline, i) (dl, n) s.timers,
        );
        keyed = λ d i e. elim (Bool-cases (i == n)) [
          | inl q ↦ (
            h,
            ground (arith, q, lookup-insert ℕ_discrete n i h s.timer_handles),
            ground (arith, q, e, has_key-insert_key (d, i) (dl, n) s.timers, old_key d i),
          )
          | inr q ↦
              let (g, l, x) =
                w.keyed d i (ground (arith, q, e, has_key-insert_key (d, i) (dl, n) s.timers)) in
              (
                g,
                ground (arith, q, l, lookup-insert ℕ_discrete n i h s.timer_handles),
                ground (arith, x, off, w.entry i g l),
              )
        ];
        own = λ g j e. ground (
          arith,
          w.own g j,
          e,
          w.fresh g,
          lookup-insert ℕ_discrete n (put h v s.memory g).internal_id h s.timer_handles,
        );
        fresh = λ g. ground (arith, w.fresh g);
        listed = λ p g e. ground (arith, w.listed p g e, off);
        once = w.once;
        registered = λ g e. elim (Bool-cases (g == h)) [
          | inl q ↦
              let x : (schedule h wait s).memory g ≡ v = rw q in
              subst (λ u. Kept u.type g (schedule h wait s)) (sym x)
                (subst (λ u. Kept u g (schedule h wait s)) (sym ty)
                  (ground (arith, q, lookup-insert ℕ_discrete n n h s.timer_handles)))
          | inr q ↦
              let x = put_other h g v s.memory q in
              subst (λ u. Kept u.type g (schedule h wait s)) (sym x)
                (Kept-eq g s (schedule h wait s) x (s.memory g).type
                  (λ k. ground (
                    arith,
                    k,
                    w.fresh g,
                    lookup-insert ℕ_discrete n (s.memory g).internal_id h s.timer_handles,
                  ))
                  (λ p k. k) (w.registered g (ground (arith, e, x))))
        ];
        sorted = insert_key-Sorted (dl, n) s.timers w.sorted;
      }

-- run_timers takes the key of a timer, and then re-arms the timer.
module _ (now d i h : ℕ) (s : Loop) (w : WellFormed s)
    (found : lookup ℕ_discrete i s.timer_handles ≡ some h)
    (due : (s.memory h).internal_deadline ≡ d) where
  abbrev moved : ℕ → Loop
  moved dl = reschedule dl i h (take_key (d, i) s)

  due_key : (c : ℕ) → has_key (c, i) s.timers ≡ true → c ≡ d
  due_key c e = let (g, l, x) = w.keyed c i e in ground (arith, l, x)

  reschedule-WellFormed : (dl : ℕ) → WellFormed (moved dl)
  reschedule-WellFormed dl =
      let v = record (s.memory h) { internal_deadline = dl } in
      let ks = remove_key (d, i) s.timers in
      record {
        entry = λ j g e. ground (
          arith,
          w.entry j g e,
          w.entry i h found,
          found,
          has_key-insert_key ((put h v s.memory g).internal_deadline, j) (dl, i) ks,
          has_key-remove_key ((put h v s.memory g).internal_deadline, j) (d, i) s.timers,
        );
        keyed = λ c j e. elim (Bool-cases (j == i)) [
          | inl q ↦ (
            h,
            ground (arith, q, found),
            ground (
              arith,
              q,
              e,
              due_key c,
              has_key-insert_key (c, j) (dl, i) ks,
              has_key-remove_key (c, j) (d, i) s.timers,
            ),
          )
          | inr q ↦
              let (g, l, x) = w.keyed c j (
                ground (
                  arith,
                  q,
                  e,
                  has_key-insert_key (c, j) (dl, i) ks,
                  has_key-remove_key (c, j) (d, i) s.timers,
                )) in
              (g, l, ground (arith, x, q, w.entry i h found, w.entry j g l))
        ];
        own = λ g j e. ground (arith, w.own g j, e);
        fresh = λ g. ground (arith, w.fresh g, w.fresh h);
        listed = λ p g e. ground (arith, w.listed p g e);
        once = w.once;
        registered = λ g e. elim (Bool-cases (g == h)) [
          | inl q ↦
              let x : (moved dl).memory g ≡ v = rw q in
              let ty = (w.entry i h found).1 in
              subst (λ u. Kept u.type g (moved dl)) (sym x)
                (subst (λ u. Kept u g (moved dl)) (sym ty)
                  (ground (arith, q, found, w.entry i h found)))
          | inr q ↦
              let x = put_other h g v s.memory q in
              subst (λ u. Kept u.type g (moved dl)) (sym x)
                (Kept-eq g s (moved dl) x (s.memory g).type (λ k. k) (λ p k. k)
                  (w.registered g (ground (arith, e, x))))
        ];
        sorted = insert_key-Sorted (dl, i) ks (remove_key-Sorted (d, i) s.timers w.sorted);
      }

  abbrev ended : ℕ → ℕ → Loop
  ended e j = deactivate h (record s {
    timers = remove_key (e, j) s.timers;
    timer_handles = remove ℕ_discrete j s.timer_handles;
  })

  ended-WellFormed : WellFormed (ended d i)
  ended-WellFormed =
      let en = w.entry i h found in
      subst (λ e. WellFormed (ended e i)) due
        (subst (λ j. WellFormed (ended (s.memory h).internal_deadline j)) en.2
          (stopped-WellFormed h s w en.1 (record (s.memory h) { active = false }) refl refl))

  pub rearm-WellFormed : WellFormed (rearm now i h (take_key (d, i) s))
  unfolding rearm
  rearm-WellFormed = elim (Bool-cases (ltb 0 (s.memory h).repeat)) [
    | inl q ↦ rw q (reschedule-WellFormed (u64_add now (s.memory h).repeat))
    | inr q ↦ rw q ended-WellFormed
  ]

-- A key whose timer is gone is not in the set.
pub take_key-WellFormed :
    (d i : ℕ) (s : Loop)
    → WellFormed s
    → lookup ℕ_discrete i s.timer_handles ≡ none
    → WellFormed (take_key (d, i) s)
take_key-WellFormed d i s w gone = record {
  entry = λ j g e. ground (
    arith,
    w.entry j g e,
    has_key-remove_key ((s.memory g).internal_deadline, j) (d, i) s.timers,
  );
  keyed = λ c j e. w.keyed c j (ground (arith, e, has_key-remove_key (c, j) (d, i) s.timers));
  own = w.own;
  fresh = w.fresh;
  listed = w.listed;
  once = w.once;
  registered = λ g e.
      Kept-eq g s (take_key (d, i) s) refl (s.memory g).type (λ k. k) (λ p k. k) (w.registered g e);
  sorted = remove_key-Sorted (d, i) s.timers w.sorted;
}
