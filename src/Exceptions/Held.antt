-- ===== src/Exceptions/Held.antt =====
-- What JavaScript causes while a queue of rejections is delivered.
use deno_core.Common.{
  ℕ, ◌≡◌, sym, true, List, [], ◌∷◌, none, some, ◌==◌, if◌then◌else◌, length, Each, Each-bind,
  if-elim, if_true, subst,
}
use deno_core.Exceptions.{
  handled, ExceptionState, PromiseRejectEvent, reject_with_no_handler, handler_added_after_reject,
  reject_after_resolved, resolve_after_resolved, retain_others, push_handled, handler_added,
  track_promise_rejection, track_all, Script, tell, call_handled,
}

-- While the list of handled rejections is borrowed, it stays as it is.
abbrev pub Held : List (ℕ × ℕ) → ExceptionState → Type 0
Held hs s = (s.borrowed ≡ true) × (s.pending_handled_promise_rejections ≡ hs)

module _ (hs : List (ℕ × ℕ)) where
  added-Held : (p r : ℕ) (s : ExceptionState) → Held hs s → Each (Held hs) (handler_added p r s)
  unfolding handler_added
  added-Held p r s h =
      let rs = s.pending_promise_rejections in
      let s1 = record s { pending_promise_rejections = retain_others p rs } in
      if-elim (Each (Held hs)) (length (retain_others p rs) == length rs)
        (if s.has_handled_promise_rejection_cb then push_handled p r s1 else some s1) (some s1)
        (λ q.
          if-elim (Each (Held hs)) s.has_handled_promise_rejection_cb (push_handled p r s1)
            (some s1) (λ c. subst (Each (Held hs)) (sym (if_true none _ h.0)) tt) (λ c. h))
        (λ q. h)

  track-Held :
      (p : ℕ) (ev : PromiseRejectEvent) (s : ExceptionState)
      → Held hs s
      → Each (Held hs) (track_promise_rejection p ev s)
  unfolding track_promise_rejection
  track-Held p (reject_with_no_handler x y) s h = h
  track-Held p (handler_added_after_reject r) s h = added-Held p r s h
  track-Held p reject_after_resolved s h = h
  track-Held p resolve_after_resolved s h = h

  pub track_all-Held :
      (es : List (ℕ × PromiseRejectEvent)) (s : ExceptionState)
      → Held hs s
      → Each (Held hs) (track_all es s)
  unfolding track_all
  track_all-Held [] s h = h
  track_all-Held ((p, ev) ∷ es) s h =
      Each-bind (Held hs) (Held hs) (track_promise_rejection p ev s) (track_all es)
        (track-Held p ev s h) (λ t g. track_all-Held es t g)

  pub call-Held :
      (js : Script) (p r : ℕ) (s : ExceptionState)
      → Held hs s
      → Each (Held hs) (call_handled js p r s)
  unfolding call_handled
  call-Held js p r s h =
      if-elim (Each (Held hs)) s.has_handled_promise_rejection_cb
        (track_all (js.on_handled p r) (tell (handled p r) s)) (some s)
        (λ q. track_all-Held (js.on_handled p r) (tell (handled p r) s) h) (λ q. h)
