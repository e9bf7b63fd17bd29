-- ===== src/Exceptions/Notices.antt =====
-- JavaScript is told that a rejection was handled only after it was told of the rejection.
use deno_core.Common.{
  false, true, ℕ, ◌≡◌, refl, Bool, List, [], ◌∷◌, Option, none, some, ◌>>=◌, Each, Each-some,
  Each-bind, if-elim, subst,
}
use deno_core.Exceptions.{
  Rejection, handled, rejected, ExceptionState, PromiseRejectEvent, track_promise_rejection,
  track_all, Script, tell, call_handled, hold, release, deliver_handled, deliver_rejected,
  dispatch_rejections,
}
use deno_core.Exceptions.Sound.{
  Reported, Ordered, AllReported, IsSound, IsGenuine, AllGenuine, AllReported-tell_rejected,
  AllReported-tell_handled, Kept, track-Kept, both, track_all-Kept,
}
use deno_core.Exceptions.Held.{Held, call-Held}

-- What JavaScript causes in a call is genuine, if the callback is set.
abbrev pub CallGenuine : Bool → List (ℕ × PromiseRejectEvent) → ExceptionState → Type 0
CallGenuine true es s = AllGenuine es s
CallGenuine false es s = Unit

-- What JavaScript causes is genuine in the states of the dispatch in which it does so.
abbrev pub GenuineHandled : Script → List (ℕ × ℕ) → ExceptionState → Type 0
GenuineHandled js [] s = Unit
GenuineHandled js ((p, r) ∷ rest) s =
    CallGenuine s.has_handled_promise_rejection_cb (js.on_handled p r)
      (tell (handled p r) (hold rest s))
    × Each (λ t. GenuineHandled js rest (release t)) (call_handled js p r (hold rest s))

abbrev pub GenuineRejected : Script → List Rejection → ExceptionState → Type 0
GenuineRejected js [] s = Unit
GenuineRejected js (r ∷ rs) s =
    AllGenuine (js.on_rejected (r ∷ rs))
      (tell (rejected (r ∷ rs)) (record s { pending_promise_rejections = [] }))

abbrev pub GenuineDispatch : Script → ExceptionState → Type 0
GenuineDispatch js s =
    GenuineHandled js s.pending_handled_promise_rejections s
    × Each (λ t. GenuineRejected js t.pending_promise_rejections t)
        (deliver_handled js s.pending_handled_promise_rejections s)

module _ (js : Script) where
  call-Kept :
      (p r : ℕ) (s : ExceptionState)
      → IsSound s
      → Reported p s.notices
      → CallGenuine s.has_handled_promise_rejection_cb (js.on_handled p r) (tell (handled p r) s)
      → Kept (call_handled js p r s)
  unfolding call_handled
  call-Kept p r s i g c =
      let told : IsSound (tell (handled p r) s) = record {
        ordered = (g, i.ordered);
        reported =
            AllReported-tell_handled p r s.pending_handled_promise_rejections s.notices i.reported;
      } in
      if-elim Kept s.has_handled_promise_rejection_cb
        (track_all (js.on_handled p r) (tell (handled p r) s)) (some s)
        (λ q.
          track_all-Kept (js.on_handled p r) (tell (handled p r) s) told
            (subst (λ b. CallGenuine b (js.on_handled p r) (tell (handled p r) s)) q c))
        (λ q. i)

  hold-IsSound :
      (p r : ℕ) (rest : List (ℕ × ℕ)) (s : ExceptionState)
      → IsSound s
      → s.pending_handled_promise_rejections ≡ (p, r) ∷ rest
      → IsSound (hold rest s) × Reported p s.notices
  hold-IsSound p r rest s i e =
      let a = subst (λ hs. AllReported hs s.notices) e i.reported in
      (record { ordered = i.ordered; reported = a.1 }, a.0)

  deliver-Kept :
      (hs : List (ℕ × ℕ)) (s : ExceptionState)
      → IsSound s
      → s.pending_handled_promise_rejections ≡ hs
      → GenuineHandled js hs s
      → Kept (deliver_handled js hs s)
  unfolding deliver_handled
  deliver-Kept [] s i e c = i
  deliver-Kept ((p, r) ∷ rest) s i e c =
      let (held, g) = hold-IsSound p r rest s i e in
      let m = call_handled js p r (hold rest s) in
      let next = λ (t : ExceptionState). GenuineHandled js rest (release t) in
      Each-bind (λ t. IsSound t × (Held rest t × next t)) IsSound m
        (λ t. deliver_handled js rest (release t))
        (both IsSound (λ t. Held rest t × next t) m (call-Kept p r (hold rest s) held g c.0)
          (both (Held rest) next m (call-Held rest js p r (hold rest s) (refl, refl)) c.1))
        (λ t h.
          deliver-Kept rest (release t) (record { ordered = h.0.ordered; reported = h.0.reported })
            h.1.0.1 h.1.1)

  abbrev KeptResult : Option (ExceptionState × Bool) → Type 0
  KeptResult = Each (λ x. IsSound x.0)

  rejected-Kept :
      (rs : List Rejection) (s : ExceptionState)
      → IsSound s
      → GenuineRejected js rs s
      → KeptResult (deliver_rejected js rs s)
  unfolding deliver_rejected
  rejected-Kept [] s i c = i
  rejected-Kept (r ∷ rs) s i c =
      let told = tell (rejected (r ∷ rs)) (record s { pending_promise_rejections = [] }) in
      let sound : IsSound told = record {
        ordered = i.ordered;
        reported =
            AllReported-tell_rejected (r ∷ rs) s.pending_handled_promise_rejections s.notices
              i.reported;
      } in
      if-elim KeptResult s.has_handle_rejections_cb
        (track_all (js.on_rejected (r ∷ rs)) told >>= λ t. some (t, js.throws (r ∷ rs))) none
        (λ q.
          Each-bind IsSound (λ x. IsSound x.0) (track_all (js.on_rejected (r ∷ rs)) told)
            (λ t. some (t, js.throws (r ∷ rs)))
            (track_all-Kept (js.on_rejected (r ∷ rs)) told sound c) (λ t j. j))
        (λ q. tt)

  dispatch-Kept :
      (s : ExceptionState)
      → IsSound s
      → GenuineDispatch js s
      → KeptResult (dispatch_rejections js s)
  unfolding dispatch_rejections
  dispatch-Kept s i c =
      let next = λ (t : ExceptionState). GenuineRejected js t.pending_promise_rejections t in
      Each-bind (λ t. IsSound t × next t) (λ x. IsSound x.0)
        (deliver_handled js s.pending_handled_promise_rejections s)
        (λ t. deliver_rejected js t.pending_promise_rejections t)
        (both IsSound next (deliver_handled js s.pending_handled_promise_rejections s)
          (deliver-Kept s.pending_handled_promise_rejections s i refl c.0) c.1)
        (λ t j. rejected-Kept t.pending_promise_rejections t j.0 j.1)

-- What V8 and the event loop do to the state.
pub data Action : Type 0 where
  track : ℕ → PromiseRejectEvent → Action
  dispatch : Script → Action

unfoldable pub act : Action → ExceptionState → Option ExceptionState
act (track p ev) s = track_promise_rejection p ev s
act (dispatch js) s = dispatch_rejections js s >>= λ r. some r.0

unfoldable pub run : List Action → ExceptionState → Option ExceptionState
run [] s = some s
run (a ∷ as') s = act a s >>= run as'

abbrev pub Legal : Action → ExceptionState → Type 0
Legal (track p ev) s = IsGenuine (p, ev) s
Legal (dispatch js) s = GenuineDispatch js s

abbrev pub AllLegal : List Action → ExceptionState → Type 0
AllLegal [] s = Unit
AllLegal (a ∷ as') s = Legal a s × Each (AllLegal as') (act a s)

act-Kept : (a : Action) (s : ExceptionState) → IsSound s → Legal a s → Kept (act a s)
unfolding act
act-Kept (track p ev) s i g = track-Kept p ev s i g
act-Kept (dispatch js) s i g =
    Each-bind (λ x. IsSound x.0) IsSound (dispatch_rejections js s) (λ r. some r.0)
      (dispatch-Kept js s i g) (λ r j. j)

run-Kept : (as' : List Action) (s : ExceptionState) → IsSound s → AllLegal as' s → Kept (run as' s)
unfolding run
run-Kept [] s i g = i
run-Kept (a ∷ as') s i g =
    let m = act a s in
    Each-bind (λ t. IsSound t × AllLegal as' t) IsSound m (run as')
      (both IsSound (AllLegal as') m (act-Kept a s i g.0) g.1) (λ t h. run-Kept as' t h.0 h.1)

-- After any sequence of events of V8 and dispatches that returns, from a state in which it
-- holds, JavaScript was told that a rejection was handled only after it was told of the
-- rejection, and so it will be of those that are queued; provided V8 reports an added handler
-- only for a promise whose rejection is pending or was delivered when it does so, also where
-- JavaScript adds it while it is told of rejections.
pub handled_after_rejected :
    (as' : List Action) (s t : ExceptionState)
    → IsSound s
    → AllLegal as' s
    → run as' s ≡ some t
    → Ordered t.notices × AllReported t.pending_handled_promise_rejections t.notices
handled_after_rejected as' s t i g e =
    let j = Each-some IsSound (run as' s) t (run-Kept as' s i g) e in (j.ordered, j.reported)
