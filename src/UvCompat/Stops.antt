-- ===== src/UvCompat/Stops.antt =====
-- A watcher whose callback stops it: one round of the pass.
use deno_core.Common.{
  ℕ, suc, ◌==◌, ◌+◌, ◌≡◌, refl, ap, ◌∙◌, true, false, List, [], ◌∷◌, ◌++◌, some, get_elem?, arith,
  subst, member, NoRepeat, length, if_true,
}
use deno_core.UvCompat.{Phase, Loop}
use deno_core.UvCompat.Handles.{stop_watcher, drop_handle, uv_watcher_stop, clear_cb}
use deno_core.UvCompat.Phases.{
  watcher_stop, perform, perform_all, Program, log, call, call_some, visit, run_watchers,
}
use deno_core.UvCompat.WellFormed.{WellFormed}
use deno_core.UvCompat.Watchers.{same_refl}
use deno_core.UvCompat.Passes.{at_end, member_middle}

drop_none : (h : ℕ) (xs : List ℕ) → member h xs ≡ false → drop_handle h xs ≡ xs
drop_none h [] m = refl
drop_none h (x ∷ xs) m = ground (arith, m, drop_none h xs)

drop_middle :
    (h : ℕ) (xs ys : List ℕ) → NoRepeat (xs ++ h ∷ ys) → drop_handle h (xs ++ h ∷ ys) ≡ xs ++ ys
drop_middle h [] ys n = ground (arith, drop_none h ys n.0)
drop_middle h (x ∷ xs) ys n = ground (arith, n.0, member_middle h xs ys, drop_middle h xs ys n.1)

-- A watcher whose callback does nothing but stop it.
module _ (p : Program) (phase : Phase) (h cb : ℕ) (s : Loop) (w : WellFormed s)
    (c : (s.memory h).cb ≡ some cb) (o : p cb h s ≡ watcher_stop phase h ∷ []) where
  abbrev pub stopped : Loop
  stopped = clear_cb h (stop_watcher phase h (log cb h s))

  visit-stopped : (s.memory h).active ≡ true → visit p h s ≡ stopped
  unfolding visit call_some call perform_all perform uv_watcher_stop
  visit-stopped on =
      let l = log cb h s in
      if_true (call_some p (s.memory h).cb h s) s on
      ∙ (ap (λ x. call_some p x h s) c
          ∙ (ap (λ x. perform_all x l) o ∙ if_true (clear_cb h (stop_watcher phase h l)) l on))

  -- The next watcher moves to its place, and the loop goes on with the place after that.
  pub self_stop_step :
      (done rest : List ℕ) (k fuel : ℕ)
      → s.handles phase ≡ done ++ h ∷ k ∷ rest
      → (run_watchers p phase (suc fuel) (length done) s
          ≡ run_watchers p phase fuel (length done + 1) (visit p h s))
        × ((visit p h s).handles phase ≡ done ++ k ∷ rest)
  unfolding run_watchers stop_watcher
  self_stop_step done rest k fuel e =
      let q = ap (λ l. get_elem? l (length done)) e ∙ at_end done (h ∷ k ∷ rest) in
      let on = (w.listed phase h (ap (member h) e ∙ member_middle h done (k ∷ rest))).0 in
      (
        ground (arith, q),
        ap (λ (t : Loop). t.handles phase) (visit-stopped on)
            ∙ (if_true (drop_handle h (s.handles phase)) (s.handles phase) (same_refl phase)
                ∙ (ap (drop_handle h) e
                    ∙ drop_middle h done (k ∷ rest) (subst NoRepeat e (w.once phase)))),
      )

  pub other_callbacks :
      (s.memory h).active ≡ true
      → (g : ℕ) → (g == h) ≡ false
      → ((visit p h s).memory g).cb ≡ (s.memory g).cb
  unfolding stop_watcher
  other_callbacks on g ne =
      ap (λ (t : Loop). (t.memory g).cb) (visit-stopped on) ∙ ground (arith, ne)
