-- ===== src/UvCompat/Skips.antt =====
-- A pass over the watchers of a phase in which one of them stops itself.
use mathlib.Core.List.{append-nil, append_assoc}
use deno_core.Common.{
  ℕ, suc, ◌≡◌, refl, sym, ap, ap₂, ◌∙◌, true, false, List, [], ◌∷◌, ◌++◌, some, ◌==◌, arith, subst,
  member, NoRepeat, length, length-append,
}
use deno_core.UvCompat.{Phase, watcher, Handle, Loop}
use deno_core.UvCompat.Phases.{watcher_stop, Program, visit, run_watchers}
use deno_core.UvCompat.WellFormed.{WellFormed}
use deno_core.UvCompat.Calls.{Obeys}
use deno_core.UvCompat.Due.{call_of}
use deno_core.UvCompat.Rounds.{visit-WellFormed}
use deno_core.UvCompat.Passes.{
  SameWatchers, SameWatchers-refl, member_middle, more, more_lem, watcher_calls, AllCalm,
  visit-calls, end_of_list, pass,
}
use deno_core.UvCompat.Stops.{self_stop_step, other_callbacks}

-- What comes after a member of a list without repetitions is not that member.
after_other :
    (h g : ℕ) (done rest : List ℕ)
    → NoRepeat (done ++ h ∷ rest)
    → member g rest ≡ true
    → (g == h) ≡ false
after_other h g [] rest n m = ground (arith, n, m)
after_other h g (x ∷ done) rest n m = after_other h g done rest n.1 m

watcher_calls_same :
    (m m' : ℕ → Handle) (hs : List ℕ)
    → ((g : ℕ) → member g hs ≡ true → (m g).cb ≡ (m' g).cb)
    → watcher_calls m hs ≡ watcher_calls m' hs
watcher_calls_same m m' [] e = refl
watcher_calls_same m m' (h ∷ hs) e =
    ap₂ ◌++◌ (ap (λ x. call_of x h) (e h (ground arith)))
      (watcher_calls_same m m' hs (λ g i. e g (ground (arith, i))))

module _ (p : Program) (obeys : Obeys p) (phase : Phase) (done rest : List ℕ) (h k cb : ℕ)
    (s : Loop) (w : WellFormed s) (listed : s.handles phase ≡ done ++ h ∷ k ∷ rest)
    (c : (s.memory h).cb ≡ some cb)
    (o : (u : Loop)
      → (u.memory h).type ≡ watcher phase
      → p cb h u ≡ watcher_stop phase h ∷ []) where
  is_member : member h (s.handles phase) ≡ true
  is_member = ap (member h) listed ∙ member_middle h done (k ∷ rest)

  -- From the watcher that stops itself on, in a loop `u` with the watchers of `s`.
  second_part :
      (u : Loop)
      → WellFormed u
      → SameWatchers s u
      → AllCalm p rest
      → (t : Loop) × (run_watchers p phase (suc (more rest 2)) (length done) u ≡ some t)
        × (t.calls ≡ u.calls ++ (cb, h) ∷ watcher_calls s.memory rest)
        × (t.handles phase ≡ done ++ k ∷ rest)
  second_part u wu same calm =
      let at : u.handles phase ≡ done ++ h ∷ k ∷ rest = ap (λ f. f phase) same.lists ∙ listed in
      let cu : (u.memory h).cb ≡ some cb = same.callbacks phase h is_member ∙ c in
      let (on, type) = wu.listed phase h (ap (member h) at ∙ member_middle h done (k ∷ rest)) in
      let v = visit p h u in
      let (step, left) =
        self_stop_step p phase h cb u wu cu (o u type) done rest k (more rest 2) at in
      let left' : v.handles phase ≡ (done ++ k ∷ []) ++ (rest ++ []) =
        left
        ∙ (ap (λ l. done ++ k ∷ l) (sym (append-nil rest))
            ∙ sym (append_assoc done (k ∷ []) (rest ++ []))) in
      let (t, r, calls, kept, _) =
        pass p obeys phase v (done ++ k ∷ []) rest [] 2 v (visit-WellFormed p obeys h u wu)
          (SameWatchers-refl v) left' calm in
      let ends = ap (λ f. f phase) kept.lists ∙ left in
      let whole : (done ++ k ∷ []) ++ rest ≡ done ++ k ∷ rest = append_assoc done (k ∷ []) rest in
      let others : watcher_calls v.memory rest ≡ watcher_calls s.memory rest =
        watcher_calls_same v.memory s.memory rest (λ g m.
          other_callbacks p phase h cb u wu cu (o u type) on g (
            after_other h g done (k ∷ rest) (subst NoRepeat at (wu.once phase)) (ground (arith, m)))
          ∙ same.callbacks phase g (ap (member g) listed ∙ member_later g done rest m)) in
      (
        t,
        step
            ∙ (ap (λ i. run_watchers p phase (more rest 2) i v) (sym (length-append done (k ∷ [])))
                ∙ (r
                    ∙ end_of_list p obeys phase ((done ++ k ∷ []) ++ rest) 1 t (ends ∙ sym whole))),
        calls
            ∙ (ap₂ ◌++◌ (visit-calls p obeys h u wu on ∙ ap (λ x. u.calls ++ call_of x h) cu) others
                ∙ append_assoc u.calls ((cb, h) ∷ []) (watcher_calls s.memory rest)),
        ends,
      )
    where
      member_later :
          (g : ℕ) (xs ys : List ℕ) → member g ys ≡ true → member g (xs ++ h ∷ k ∷ ys) ≡ true
      member_later g [] ys m = ground (arith, m)
      member_later g (x ∷ xs) ys m = ground (arith, member_later g xs ys m)

  -- In a well-formed loop, with callbacks that initialise no active handle and give each
  -- function a handle initialised for it, take a watcher whose callback, while it is a watcher
  -- of the phase, does nothing but stop it, and which is followed on the list of its phase by
  -- another; and let the callbacks of the watchers before it, and of those after that other one,
  -- initialise, start and stop no watcher and close no handle. Then a pass of run_idle,
  -- run_prepare or run_check ends, calls those before it, then it, then those after the other
  -- one, each that has a callback and in the order of the list, and calls nothing else: the
  -- other one, which stays on the list, is not called.
  pub self_stop_skips_next :
      AllCalm p done
      → AllCalm p rest
      → (t : Loop) × (run_watchers p phase (suc (length (s.handles phase))) 0 s ≡ some t)
        × (t.calls
            ≡ s.calls ++ (watcher_calls s.memory done ++ (cb, h) ∷ watcher_calls s.memory rest))
        × (t.handles phase ≡ done ++ k ∷ rest)
  self_stop_skips_next before after =
      let (u, r1, c1, same, wu) =
        pass p obeys phase s [] done (h ∷ k ∷ rest) (suc (more rest 2)) s w (SameWatchers-refl s)
          listed before in
      let (t, r2, c2, left) = second_part u wu same after in
      let n : suc (length (s.handles phase)) ≡ more done (suc (more rest 2)) = omega (
        arith,
        ap length listed,
        length-append done (h ∷ k ∷ rest),
        more_lem done (suc (more rest 2)),
        more_lem rest 2,
      ) in
      (
        t,
        ap (λ f. run_watchers p phase f 0 s) n ∙ (r1 ∙ r2),
        c2
            ∙ (ap (λ l. l ++ (cb, h) ∷ watcher_calls s.memory rest) c1
                ∙ append_assoc s.calls (watcher_calls s.memory done)
                    ((cb, h) ∷ watcher_calls s.memory rest)),
        left,
      )
