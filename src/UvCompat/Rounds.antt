-- ===== src/UvCompat/Rounds.antt =====
-- The phases of the loop keep it well formed whatever the callbacks do, and the loop over the
-- watchers of a phase ends.
use deno_core.Common.{
  if-elim, ℕ, zero, suc, ◌+◌, ◌≡◌, inl, inr, List, [], ◌∷◌, Option, some, get_elem?, arith, subst,
  Option-cases,
}
use deno_core.UvCompat.{Phase, Loop}
use deno_core.UvCompat.Phases.{Program, call_some, visit, run_watchers, close_all, run_close}
use deno_core.UvCompat.WellFormed.{WellFormed}
use deno_core.UvCompat.Calls.{Obeys, call_some-WellFormed, free-WellFormed}

module _ (p : Program) (obeys : Obeys p) where
  pub visit-WellFormed : (h : ℕ) (s : Loop) → WellFormed s → WellFormed (visit p h s)
  unfolding visit
  visit-WellFormed h s w =
      if-elim WellFormed (s.memory h).active (call_some p (s.memory h).cb h s) s
        (λ q. call_some-WellFormed p obeys (s.memory h).cb h s w) (λ q. w)

  pub run_watchers-WellFormed :
      (phase : Phase) (fuel i : ℕ) (s t : Loop)
      → WellFormed s
      → run_watchers p phase fuel i s ≡ some t
      → WellFormed t
  unfolding run_watchers
  run_watchers-WellFormed phase zero i s t w e = absurd (ground (arith, e))
  run_watchers-WellFormed phase (suc fuel) i s t w e =
      elim (Option-cases (get_elem? (s.handles phase) i)) [
        | inl q ↦ subst WellFormed (ground (arith, q, e)) w
        | inr (h, q) ↦
            run_watchers-WellFormed phase fuel (i + 1) (visit p h s) t (visit-WellFormed h s w)
              (ground (arith, q, e))
      ]

  close_all-WellFormed :
      (hs : List (ℕ × Option ℕ)) (s : Loop) → WellFormed s → WellFormed (close_all p hs s)
  unfolding close_all
  close_all-WellFormed [] s w = w
  close_all-WellFormed ((h, cb) ∷ hs) s w =
      close_all-WellFormed hs (call_some p cb h s) (call_some-WellFormed p obeys cb h s w)

  pub run_close-WellFormed : (s : Loop) → WellFormed s → WellFormed (run_close p s)
  unfolding run_close
  run_close-WellFormed s w =
      close_all-WellFormed s.closing_handles (record s { closing_handles = [] })
        (free-WellFormed s [] s.now_ms s.calls w)
