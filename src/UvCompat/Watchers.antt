-- ===== src/UvCompat/Watchers.antt =====
-- Starting and stopping the watchers of a phase keeps the loop well formed.
use deno_core.Common.{
  if-elim, ℕ, ◌≡◌, refl, sym, ap, inl, inr, true, false, List, [], ◌∷◌, ◌++◌, ◌∙◌, none, some, ◌==◌,
  if◌then◌else◌, member, NoRepeat, arith, subst, Bool-cases,
}
use deno_core.UvCompat.{
  Phase, idle, prepare, check, watcher, Handle, Loop, write, same, put_handles,
}
use deno_core.UvCompat.Handles.{
  drop_handle, stop_watcher, uv_watcher_start, uv_watcher_stop, clear_cb,
}
use deno_core.UvCompat.WellFormed.{Kept, WellFormed, Kept-eq, put_other, write-WellFormed}

pub member-drop_handle :
    (k h : ℕ) (js : List ℕ) → member k (drop_handle h js) ≡ (if k == h then false else member k js)
member-drop_handle k h [] = ground arith
member-drop_handle k h (j ∷ js) = ground (arith, member-drop_handle k h js)

drop_handle-NoRepeat : (h : ℕ) (js : List ℕ) → NoRepeat js → NoRepeat (drop_handle h js)
drop_handle-NoRepeat h [] n = tt
drop_handle-NoRepeat h (j ∷ js) n =
    ground (arith, drop_handle-NoRepeat h js n.1, member-drop_handle j h js)

pub member-push :
    (k h : ℕ) (js : List ℕ) → member k (js ++ h ∷ []) ≡ (if k == h then true else member k js)
member-push k h [] = refl
member-push k h (j ∷ js) = ground (arith, member-push k h js)

push-NoRepeat : (h : ℕ) (js : List ℕ) → member h js ≡ false → NoRepeat js → NoRepeat (js ++ h ∷ [])
push-NoRepeat h [] f n = (refl, tt)
push-NoRepeat h (j ∷ js) f n = ground (arith, push-NoRepeat h js, n, member-push j h js)

same_eq : (p q : Phase) → same p q ≡ true → p ≡ q
same_eq idle idle e = refl
same_eq idle prepare e = cc
same_eq idle check e = cc
same_eq prepare idle e = cc
same_eq prepare prepare e = refl
same_eq prepare check e = cc
same_eq check idle e = cc
same_eq check prepare e = cc
same_eq check check e = refl

pub same_refl : (p : Phase) → same p p ≡ true
same_refl idle = refl
same_refl prepare = refl
same_refl check = refl

put_handles-NoRepeat :
    (p : Phase) (hs : List ℕ) (f : Phase → List ℕ)
    → NoRepeat hs
    → ((q : Phase) → NoRepeat (f q))
    → (q : Phase) → NoRepeat (put_handles p hs f q)
put_handles-NoRepeat p hs f n ns q = elim (Bool-cases (same p q)) [
  | inl e ↦ rw e n
  | inr e ↦ rw e (ns q)
]

true-ne-false : true ≡ false → ⊥
true-ne-false e = cc

module _ (p : Phase) (h : ℕ) (s : Loop) (w : WellFormed s)
    (ty : (s.memory h).type ≡ watcher p) where
  -- It is in no list of another phase.
  elsewhere : (q : Phase) → same p q ≡ false → member h (s.handles q) ≡ false
  elsewhere q e = elim (Bool-cases (member h (s.handles q))) [
    | inr n ↦ n
    | inl m ↦
        let x : watcher p ≡ watcher q = sym ty ∙ (w.listed q h m).1 in
        let y : p ≡ q = cc x in absurd (true-ne-false (sym (same_refl p) ∙ (ap (same p) y ∙ e)))
  ]

  abbrev stopped : Handle → Loop
  stopped v =
      write h v (record s { handles = put_handles p (drop_handle h (s.handles p)) s.handles })

  pub stopped-WellFormed :
      (v : Handle)
      → v.active ≡ false
      → v.internal_id ≡ (s.memory h).internal_id
      → WellFormed (stopped v)
  stopped-WellFormed v off ids = record {
    entry = λ i g e. ground (arith, w.entry i g e, ty, off);
    keyed = λ d i e. let (g, l, x) = w.keyed d i e in (g, l, ground (arith, x, w.entry i g l, ty));
    own = λ g j e. ground (arith, w.own g j, e, ids);
    fresh = λ g. ground (arith, w.fresh g, w.fresh h, ids);
    listed = λ q g e. ground (
      arith,
      w.listed q g,
      e,
      off,
      member-drop_handle g h (s.handles p),
      elsewhere q,
      same_eq p q,
    );
    once =
        put_handles-NoRepeat p (drop_handle h (s.handles p)) s.handles
          (drop_handle-NoRepeat h (s.handles p) (w.once p)) w.once;
    registered = λ g e. elim (Bool-cases (g == h)) [
      | inl q ↦ absurd (ground (arith, e, q, off))
      | inr q ↦
          let x = put_other h g v s.memory q in
          subst (λ u. Kept u.type g (stopped v)) (sym x)
            (Kept-eq g s (stopped v) x (s.memory g).type (λ k. k)
              (λ r m. ground (arith, m, q, member-drop_handle g h (s.handles p), same_eq p r))
              (w.registered g (ground (arith, e, x))))
    ];
    sorted = w.sorted;
  }

  pub stop_watcher-WellFormed : WellFormed (stop_watcher p h s)
  unfolding stop_watcher
  stop_watcher-WellFormed = stopped-WellFormed (record (s.memory h) { active = false }) refl refl

  pub uv_watcher_stop-WellFormed : WellFormed (uv_watcher_stop p h s)
  unfolding uv_watcher_stop
  uv_watcher_stop-WellFormed =
      let t = stop_watcher p h s in
      if-elim WellFormed (s.memory h).active (clear_cb h t) s
        (λ q.
          write-WellFormed h (record (t.memory h) { cb = none }) t stop_watcher-WellFormed
            (refl, refl, refl, refl))
        (λ q. w)

  module _ (cb : ℕ) where
    abbrev started : Loop
    started =
        write h (record (s.memory h) { cb = some cb; active = true })
          (record s { handles = put_handles p (s.handles p ++ h ∷ []) s.handles })

    unlisted : (s.memory h).active ≡ false → (q : Phase) → member h (s.handles q) ≡ false
    unlisted off q = elim (Bool-cases (member h (s.handles q))) [
      | inr n ↦ n
      | inl m ↦ absurd (true-ne-false (sym (w.listed q h m).0 ∙ off))
    ]

    started-WellFormed : (s.memory h).active ≡ false → WellFormed started
    started-WellFormed off =
        let v = record (s.memory h) { cb = some cb; active = true } in
        record {
          entry = λ i g e. ground (arith, w.entry i g e, ty);
          keyed = λ d i e. let (g, l, x) = w.keyed d i e in (g, l, ground (arith, x));
          own = λ g j e. ground (arith, w.own g j, e);
          fresh = λ g. ground (arith, w.fresh g);
          listed = λ q g e. ground (
            arith,
            w.listed q g,
            e,
            ty,
            member-push g h (s.handles p),
            unlisted off q,
            same_eq p q,
          );
          once =
              put_handles-NoRepeat p (s.handles p ++ h ∷ []) s.handles
                (push-NoRepeat h (s.handles p) (unlisted off p) (w.once p)) w.once;
          registered = λ g e. elim (Bool-cases (g == h)) [
            | inl q ↦
                let x : started.memory g ≡ v = rw q in
                subst (λ u. Kept u.type g started) (sym x)
                  (subst (λ u. Kept u g started) (sym ty)
                    (ground (arith, q, same_refl p, member-push g h (s.handles p))))
            | inr q ↦
                let x = put_other h g v s.memory q in
                subst (λ u. Kept u.type g started) (sym x)
                  (Kept-eq g s started x (s.memory g).type (λ k. k)
                    (λ r m. ground (arith, m, q, member-push g h (s.handles p), same_eq p r))
                    (w.registered g (ground (arith, e, x))))
          ];
          sorted = w.sorted;
        }

  pub uv_watcher_start-WellFormed : (cb : ℕ) → WellFormed (uv_watcher_start p h cb s)
  unfolding uv_watcher_start
  uv_watcher_start-WellFormed cb =
      if-elim WellFormed (s.memory h).active (write h (record (s.memory h) { cb = some cb }) s)
        (started cb)
        (λ q.
          write-WellFormed h (record (s.memory h) { cb = some cb }) s w (refl, refl, refl, refl))
        (started-WellFormed cb)
