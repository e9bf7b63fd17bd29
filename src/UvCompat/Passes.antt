-- ===== src/UvCompat/Passes.antt =====
-- A pass over the watchers of a phase whose callbacks leave the watchers alone.
use mathlib.Core.List.{append-nil, append_assoc}
use deno_core.Common.{
  ℕ, suc, ◌+◌, ◌≡◌, refl, sym, ap, ◌∙◌, Bool, true, false, List, [], ◌∷◌, ◌++◌, Option, none, some,
  get_elem?, arith, subst, member, length, length-append, if_true,
}
use deno_core.UvCompat.{Phase, Handle, Loop}
use deno_core.UvCompat.Handles.{
  stop_timer, uv_timer_init, uv_timer_start, uv_timer_stop, uv_timer_again, uv_timer_set_repeat,
  uv_ref, uv_unref,
}
use deno_core.UvCompat.Phases.{
  Action, timer_init, timer_start, timer_stop, timer_again, timer_set_repeat, watcher_init,
  watcher_start, watcher_stop, close_handle, ref_handle, unref_handle, advance, perform,
  perform_all, Program, log, call, call_some, visit, run_watchers,
}
use deno_core.UvCompat.WellFormed.{WellFormed}
use deno_core.UvCompat.Calls.{IsSafe, AllSafe, Obeys, perform-WellFormed, free-WellFormed}
use deno_core.UvCompat.Due.{call_of}
use deno_core.UvCompat.Alive.{call_some-calls}
use deno_core.UvCompat.Rounds.{visit-WellFormed}

-- The calls that have nothing to do with watchers.
abbrev pub leaves_watchers : Action → Bool
leaves_watchers (watcher_init p h) = false
leaves_watchers (watcher_start p h cb) = false
leaves_watchers (watcher_stop p h) = false
leaves_watchers (close_handle h cb) = false
leaves_watchers a = true

abbrev pub AllLeave : List Action → Type 0
AllLeave [] = Unit
AllLeave (a ∷ as') = (leaves_watchers a ≡ true) × AllLeave as'

-- The lists are the same, and the watchers on them have their callbacks.
pub record SameWatchers (s t : Loop) : Type 0 where
  pub lists : t.handles ≡ s.handles
  pub callbacks :
      (p : Phase) (g : ℕ) → member g (s.handles p) ≡ true → (t.memory g).cb ≡ (s.memory g).cb

pub SameWatchers-refl : (s : Loop) → SameWatchers s s
SameWatchers-refl s = record { lists = refl; callbacks = λ p g m. refl }

SameWatchers-trans : (s t u : Loop) → SameWatchers s t → SameWatchers t u → SameWatchers s u
SameWatchers-trans s t u a b = record {
  lists = b.lists ∙ a.lists;
  callbacks = λ p g m. b.callbacks p g (ap (λ f. member g (f p)) a.lists ∙ m) ∙ a.callbacks p g m;
}

perform-SameWatchers :
    (a : Action) (s : Loop)
    → WellFormed s
    → IsSafe a s
    → leaves_watchers a ≡ true
    → SameWatchers s (perform a s)
unfolding perform uv_timer_init uv_timer_start uv_timer_stop uv_timer_again uv_timer_set_repeat
    stop_timer uv_ref uv_unref
perform-SameWatchers (timer_init h) s w ok l = record {
  lists = refl;
  callbacks = λ p g m. ground (arith, w.listed p g m, ok);
}
perform-SameWatchers (timer_start h cb t r) s w ok l = record {
  lists = ground arith;
  callbacks = λ p g m. ground (arith, w.listed p g m, ok);
}
perform-SameWatchers (timer_stop h) s w ok l = record {
  lists = ground arith;
  callbacks = λ p g m. ground arith;
}
perform-SameWatchers (timer_again h) s w ok l = record {
  lists = ground arith;
  callbacks = λ p g m. ground arith;
}
perform-SameWatchers (timer_set_repeat h r) s w ok l = record {
  lists = refl;
  callbacks = λ p g m. ground arith;
}
perform-SameWatchers (watcher_init p h) s w ok l = absurd (ground (arith, l))
perform-SameWatchers (watcher_start p h cb) s w ok l = absurd (ground (arith, l))
perform-SameWatchers (watcher_stop p h) s w ok l = absurd (ground (arith, l))
perform-SameWatchers (close_handle h cb) s w ok l = absurd (ground (arith, l))
perform-SameWatchers (ref_handle h) s w ok l = record {
  lists = refl;
  callbacks = λ p g m. ground arith;
}
perform-SameWatchers (unref_handle h) s w ok l = record {
  lists = refl;
  callbacks = λ p g m. ground arith;
}
perform-SameWatchers (advance n) s w ok l = record { lists = refl; callbacks = λ p g m. refl }

perform_all-SameWatchers :
    (as' : List Action) (s : Loop)
    → WellFormed s
    → AllSafe as' s
    → AllLeave as'
    → SameWatchers s (perform_all as' s)
unfolding perform_all
perform_all-SameWatchers [] s w ok l = SameWatchers-refl s
perform_all-SameWatchers (a ∷ as') s w ok l =
    SameWatchers-trans s (perform a s) (perform_all as' (perform a s))
      (perform-SameWatchers a s w ok.0 l.0)
      (perform_all-SameWatchers as' (perform a s) (perform-WellFormed a s w ok.0) ok.1 l.1)

pub at_end : (xs ys : List ℕ) → get_elem? (xs ++ ys) (length xs) ≡ get_elem? ys 0
at_end [] ys = refl
at_end (x ∷ xs) ys = at_end xs ys

pub member_middle : (h : ℕ) (xs ys : List ℕ) → member h (xs ++ h ∷ ys) ≡ true
member_middle h [] ys = ground arith
member_middle h (x ∷ xs) ys = ground (arith, member_middle h xs ys)

-- Fuel for a list of watchers, and more.
abbrev pub more : List ℕ → ℕ → ℕ
more [] fuel = fuel
more (h ∷ hs) fuel = suc (more hs fuel)

pub more_lem : (hs : List ℕ) (fuel : ℕ) → more hs fuel ≡ length hs + fuel
more_lem [] fuel = omega arith
more_lem (h ∷ hs) fuel = omega (arith, more_lem hs fuel)

-- The calls of a list of watchers.
abbrev pub watcher_calls : (ℕ → Handle) → List ℕ → List (ℕ × ℕ)
watcher_calls m [] = []
watcher_calls m (h ∷ hs) = call_of (m h).cb h ++ watcher_calls m hs

module _ (p : Program) where
  -- The callbacks of a watcher, and of a list of watchers, leave the watchers alone.
  abbrev pub IsCalm : ℕ → Type 0
  IsCalm h = (cb : ℕ) (s : Loop) → AllLeave (p cb h s)

  abbrev pub AllCalm : List ℕ → Type 0
  AllCalm [] = Unit
  AllCalm (h ∷ hs) = IsCalm h × AllCalm hs

  all_calm : ((cb h : ℕ) (s : Loop) → AllLeave (p cb h s)) → (hs : List ℕ) → AllCalm hs
  all_calm leaves [] = tt
  all_calm leaves (h ∷ hs) = (λ cb s. leaves cb h s, all_calm leaves hs)

module _ (p : Program) (obeys : Obeys p) where
  call_some-SameWatchers :
      (cb : Option ℕ) (h : ℕ) (s : Loop)
      → WellFormed s
      → IsCalm p h
      → SameWatchers s (call_some p cb h s)
  unfolding call_some call
  call_some-SameWatchers none h s w calm = SameWatchers-refl s
  call_some-SameWatchers (some cb) h s w calm =
      let r =
        perform_all-SameWatchers (p cb h s) (log cb h s)
          (free-WellFormed s s.closing_handles s.now_ms (s.calls ++ (cb, h) ∷ []) w)
          (obeys cb h s w) (calm cb s) in
      record { lists = r.lists; callbacks = r.callbacks }

  -- A listed watcher is active, so it is called.
  pub visit-calls :
      (h : ℕ) (s : Loop)
      → WellFormed s
      → (s.memory h).active ≡ true
      → (visit p h s).calls ≡ s.calls ++ call_of (s.memory h).cb h
  unfolding visit
  visit-calls h s w on =
      ap (λ (t : Loop). t.calls) (if_true (call_some p (s.memory h).cb h s) s on)
      ∙ call_some-calls p obeys (s.memory h).cb h s w

  visit-SameWatchers :
      (h : ℕ) (s : Loop)
      → WellFormed s
      → (s.memory h).active ≡ true
      → IsCalm p h
      → SameWatchers s (visit p h s)
  unfolding visit
  visit-SameWatchers h s w on calm =
      subst (SameWatchers s) (sym (if_true (call_some p (s.memory h).cb h s) s on))
        (call_some-SameWatchers (s.memory h).cb h s w calm)

  module _ (phase : Phase) where
    pub end_of_list :
        (l : List ℕ) (fuel : ℕ) (s : Loop)
        → s.handles phase ≡ l
        → run_watchers p phase (suc fuel) (length l) s ≡ some s
    unfolding run_watchers
    end_of_list l fuel s e =
        let q : get_elem? (s.handles phase) (length l) ≡ none =
          ap (λ hs. get_elem? hs (length l)) e
          ∙ (ap (λ hs. get_elem? hs (length l)) (sym (append-nil l)) ∙ at_end l []) in
        ground (arith, q)

    -- The part `xs` of the list, after `done`, in a loop with the watchers of `s0`.
    pub pass :
        (s0 : Loop) (done xs rest : List ℕ) (fuel : ℕ) (s : Loop)
        → WellFormed s
        → SameWatchers s0 s
        → s0.handles phase ≡ done ++ (xs ++ rest)
        → AllCalm p xs
        → (t : Loop) × (run_watchers p phase (more xs fuel) (length done) s
            ≡ run_watchers p phase fuel (length (done ++ xs)) t)
          × (t.calls ≡ s.calls ++ watcher_calls s0.memory xs)
          × SameWatchers s0 t
          × WellFormed t
    unfolding run_watchers
    pass s0 done [] rest fuel s w k e calm = (
      s,
      ap (λ l. run_watchers p phase fuel (length l) s) (sym (append-nil done)),
      sym (append-nil s.calls),
      k,
      w,
    )
    pass s0 done (h ∷ xs) rest fuel s w k e calm =
        let q : get_elem? (s.handles phase) (length done) ≡ some h =
          ap (λ f. get_elem? (f phase) (length done)) k.lists
          ∙ (ap (λ l. get_elem? l (length done)) e ∙ at_end done (h ∷ (xs ++ rest))) in
        let m0 : member h (s0.handles phase) ≡ true =
          ap (member h) e ∙ member_middle h done (xs ++ rest) in
        let on = (w.listed phase h (ap (λ f. member h (f phase)) k.lists ∙ m0)).0 in
        let (t, r, c, same, wt) =
          pass s0 (done ++ h ∷ []) xs rest fuel (visit p h s) (visit-WellFormed p obeys h s w)
            (SameWatchers-trans s0 s (visit p h s) k (visit-SameWatchers h s w on calm.0))
            (e ∙ sym (append_assoc done (h ∷ []) (xs ++ rest))) calm.1 in
        let n : length (done ++ h ∷ []) ≡ length done + 1 = length-append done (h ∷ []) in
        let at = ap (λ l. run_watchers p phase fuel (length l) t) (append_assoc done (h ∷ []) xs) in
        (
          t,
          ground (arith, q, ap (λ i. run_watchers p phase (more xs fuel) i (visit p h s)) n, r, at),
          c
              ∙ (ap (λ z. z ++ watcher_calls s0.memory xs)
                    (visit-calls h s w on
                      ∙ ap (λ x. s.calls ++ call_of x h) (k.callbacks phase h m0))
                  ∙ append_assoc s.calls (call_of (s0.memory h).cb h) (watcher_calls s0.memory xs)),
          same,
          wt,
        )

  -- In a well-formed loop, with callbacks that initialise no active handle and give each
  -- function a handle initialised for it, and which initialise, start and stop no watcher and
  -- close no handle, a pass of run_idle, run_prepare or run_check over the watchers of its phase
  -- ends, calls the callback of each watcher on its list that has one, in the order of the list,
  -- calls nothing else, and leaves the lists of watchers as they were.
  pub watchers_called :
      ((cb h : ℕ) (s : Loop) → AllLeave (p cb h s))
      → (phase : Phase) (s : Loop) → WellFormed s
      → (t : Loop) × (run_watchers p phase (suc (length (s.handles phase))) 0 s ≡ some t)
        × (t.calls ≡ s.calls ++ watcher_calls s.memory (s.handles phase))
        × (t.handles ≡ s.handles)
  watchers_called leaves phase s w =
      let l = s.handles phase in
      let (t, r, c, same, _) =
        pass phase s [] l [] 1 s w (SameWatchers-refl s) (sym (append-nil l))
          (all_calm p leaves l) in
      (
        t,
        ap (λ n. run_watchers p phase n 0 s) {y = more l 1} (omega (arith, more_lem l 1))
            ∙ (r ∙ end_of_list phase l 0 t (ap (λ f. f phase) same.lists)),
        c,
        same.lists,
      )
