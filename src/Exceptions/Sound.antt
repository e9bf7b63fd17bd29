-- ===== src/Exceptions/Sound.antt =====
-- The states in which every notice of a handled rejection follows one of the rejection, and the
-- events of V8.
use deno_core.Common.{
  ℕ, ◌≤◌, ◌≡◌, ◌⊎◌, inl, inr, true, List, [], ◌∷◌, ◌++◌, Option, none, some, ◌==◌, if◌then◌else◌,
  length, Each, Each-bind, if-elim, arith,
}
use deno_core.Exceptions.{
  Rejection, Notice, handled, rejected, ExceptionState, PromiseRejectEvent, reject_with_no_handler,
  handler_added_after_reject, reject_after_resolved, resolve_after_resolved, retain_others,
  push_handled, handler_added, track_promise_rejection, track_all,
}

abbrev pub Waits : ℕ → List Rejection → Type 0
Waits p [] = ⊥
Waits p (r ∷ rs) = (r.promise ≡ p) ⊎ Waits p rs

-- JavaScript was told that `p` was rejected.
abbrev pub Reported : ℕ → List Notice → Type 0
Reported p [] = ⊥
Reported p (handled q r ∷ ns) = Reported p ns
Reported p (rejected rs ∷ ns) = Waits p rs ⊎ Reported p ns

-- Every notice of a handled rejection comes after one of the rejection.
abbrev pub Ordered : List Notice → Type 0
Ordered [] = Unit
Ordered (handled p r ∷ ns) = Reported p ns × Ordered ns
Ordered (rejected rs ∷ ns) = Ordered ns

abbrev pub AllReported : List (ℕ × ℕ) → List Notice → Type 0
AllReported [] ns = Unit
AllReported ((p, r) ∷ hs) ns = Reported p ns × AllReported hs ns

pub record IsSound (s : ExceptionState) : Type 0 where
  pub ordered : Ordered s.notices
  pub reported : AllReported s.pending_handled_promise_rejections s.notices

-- V8 says that a handler was added only for a promise whose rejection it told of before.
abbrev pub IsGenuine : ℕ × PromiseRejectEvent → ExceptionState → Type 0
IsGenuine (p, handler_added_after_reject r) s =
    Waits p s.pending_promise_rejections ⊎ Reported p s.notices
IsGenuine (p, e) s = Unit

retain_all : (p : ℕ) (rs : List Rejection) → length (retain_others p rs) ≤ length rs
retain_all p [] = omega arith
retain_all p (r ∷ rs) = ground (arith, retain_all p rs)

-- A list from which nothing was dropped has no rejection of the promise.
kept_none :
    (p : ℕ) (rs : List Rejection)
    → (length (retain_others p rs) == length rs) ≡ true
    → Waits p rs
    → ⊥
kept_none p [] e w = w
kept_none p (r ∷ rs) e (inl q) = ground (arith, e, q, retain_all p rs)
kept_none p (r ∷ rs) e (inr w) = kept_none p rs (ground (arith, e, retain_all p rs)) w

AllReported-push :
    (p r : ℕ) (hs : List (ℕ × ℕ)) (ns : List Notice)
    → AllReported hs ns
    → Reported p ns
    → AllReported (hs ++ (p, r) ∷ []) ns
AllReported-push p r [] ns a b = (b, tt)
AllReported-push p r (h ∷ hs) ns a b = (a.0, AllReported-push p r hs ns a.1 b)

pub AllReported-tell_rejected :
    (rs : List Rejection) (hs : List (ℕ × ℕ)) (ns : List Notice)
    → AllReported hs ns
    → AllReported hs (rejected rs ∷ ns)
AllReported-tell_rejected rs [] ns a = tt
AllReported-tell_rejected rs (h ∷ hs) ns a = (inr a.0, AllReported-tell_rejected rs hs ns a.1)

pub AllReported-tell_handled :
    (p r : ℕ) (hs : List (ℕ × ℕ)) (ns : List Notice)
    → AllReported hs ns
    → AllReported hs (handled p r ∷ ns)
AllReported-tell_handled p r [] ns a = tt
AllReported-tell_handled p r (h ∷ hs) ns a = (a.0, AllReported-tell_handled p r hs ns a.1)

abbrev pub Kept : Option ExceptionState → Type 0
Kept = Each IsSound

push-Kept :
    (p r : ℕ) (s : ExceptionState) → IsSound s → Reported p s.notices → Kept (push_handled p r s)
push-Kept p r s i g =
    if-elim Kept s.borrowed none
      (some (record s {
        pending_handled_promise_rejections = s.pending_handled_promise_rejections ++ (p, r) ∷ [];
      }))
      (λ q. tt)
      (λ q. record {
        ordered = i.ordered;
        reported = AllReported-push p r s.pending_handled_promise_rejections s.notices i.reported g;
      })

same_lists :
    (s : ExceptionState) (rs : List Rejection)
    → IsSound s
    → IsSound (record s { pending_promise_rejections = rs })
same_lists s rs i = record { ordered = i.ordered; reported = i.reported }

Reported-before :
    (p : ℕ) (rs : List Rejection) (ns : List Notice)
    → (length (retain_others p rs) == length rs) ≡ true
    → Waits p rs ⊎ Reported p ns
    → Reported p ns
Reported-before p rs ns e (inl w) = absurd (kept_none p rs e w)
Reported-before p rs ns e (inr r) = r

added-Kept :
    (p r : ℕ) (s : ExceptionState)
    → IsSound s
    → Waits p s.pending_promise_rejections ⊎ Reported p s.notices
    → Kept (handler_added p r s)
unfolding handler_added
added-Kept p r s i g =
    let rs = s.pending_promise_rejections in
    let s1 = record s { pending_promise_rejections = retain_others p rs } in
    let i1 = same_lists s (retain_others p rs) i in
    if-elim Kept (length (retain_others p rs) == length rs)
      (if s.has_handled_promise_rejection_cb then push_handled p r s1 else some s1) (some s1)
      (λ q.
        if-elim Kept s.has_handled_promise_rejection_cb (push_handled p r s1) (some s1)
          (λ c. push-Kept p r s1 i1 (Reported-before p rs s.notices q g)) (λ c. i1))
      (λ q. i1)

pub track-Kept :
    (p : ℕ) (ev : PromiseRejectEvent) (s : ExceptionState)
    → IsSound s
    → IsGenuine (p, ev) s
    → Kept (track_promise_rejection p ev s)
unfolding track_promise_rejection
track-Kept p (reject_with_no_handler x y) s i g = record {
  ordered = i.ordered;
  reported = i.reported;
}
track-Kept p (handler_added_after_reject r) s i g = added-Kept p r s i g
track-Kept p reject_after_resolved s i g = i
track-Kept p resolve_after_resolved s i g = i

-- Events that are genuine when they come.
abbrev pub AllGenuine : List (ℕ × PromiseRejectEvent) → ExceptionState → Type 0
AllGenuine [] s = Unit
AllGenuine ((p, ev) ∷ es) s =
    IsGenuine (p, ev) s × Each (AllGenuine es) (track_promise_rejection p ev s)

pub both :
    (P Q : ExceptionState → Type 0) (o : Option ExceptionState)
    → Each P o
    → Each Q o
    → Each (λ s. P s × Q s) o
both P Q none p q = tt
both P Q (some s) p q = (p, q)

pub track_all-Kept :
    (es : List (ℕ × PromiseRejectEvent)) (s : ExceptionState)
    → IsSound s
    → AllGenuine es s
    → Kept (track_all es s)
unfolding track_all
track_all-Kept [] s i g = i
track_all-Kept ((p, ev) ∷ es) s i g =
    let m = track_promise_rejection p ev s in
    Each-bind (λ t. IsSound t × AllGenuine es t) IsSound m (track_all es)
      (both IsSound (AllGenuine es) m (track-Kept p ev s i g.0) g.1)
      (λ t h. track_all-Kept es t h.0 h.1)
