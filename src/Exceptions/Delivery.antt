-- ===== src/Exceptions/Delivery.antt =====
-- What a dispatch hands over, and how a handler of a handled rejection can bring it down.
use mathlib.Core.List.{append-nil, append_assoc}
use deno_core.Common.{
  ℕ, ◌≡◌, refl, sym, ap, ◌∙◌, Bool, true, false, List, [], ◌∷◌, ◌++◌, none, some, ◌==◌, length,
  ◌>>=◌, arith, if_true,
}
use deno_core.Exceptions.{
  Rejection, Notice, handled, rejected, ExceptionState, PromiseRejectEvent, reject_with_no_handler,
  handler_added_after_reject, reject_after_resolved, resolve_after_resolved, retain_others,
  handler_added, track_promise_rejection, track_all, Script, tell, call_handled, hold, release,
  deliver_handled, deliver_rejected, dispatch_rejections,
}

-- No rejection of the promise is pending.
abbrev pub NotPending : ℕ → List Rejection → Type 0
NotPending p [] = Unit
NotPending p (r ∷ rs) = ((r.promise == p) ≡ false) × NotPending p rs

retain_others-NotPending : (p : ℕ) (rs : List Rejection) → NotPending p rs → retain_others p rs ≡ rs
retain_others-NotPending p [] n = refl
retain_others-NotPending p (r ∷ rs) n = ground (arith, n.0, retain_others-NotPending p rs n.1)

same_length :
    (p : ℕ) (rs : List Rejection)
    → NotPending p rs
    → (length (retain_others p rs) == length rs) ≡ true
same_length p rs n = ground (arith, ap length (retain_others-NotPending p rs n))

added_panics :
    (q v : ℕ) (s : ExceptionState)
    → s.has_handled_promise_rejection_cb ≡ true
    → s.borrowed ≡ true
    → NotPending q s.pending_promise_rejections
    → handler_added q v s ≡ none
unfolding handler_added
added_panics q v s c b n = ground (arith, same_length q s.pending_promise_rejections n, c, b)

-- If the first thing that JavaScript does, when it is told of the first handled rejection, is to
-- add a handler to a promise whose rejection is not pending, the dispatch panics.
pub nested_handler_panics :
    (js : Script) (s : ExceptionState) (p r q v : ℕ) (rest : List (ℕ × ℕ))
    (more : List (ℕ × PromiseRejectEvent))
    → s.pending_handled_promise_rejections ≡ (p, r) ∷ rest
    → s.has_handled_promise_rejection_cb ≡ true
    → js.on_handled p r ≡ (q, handler_added_after_reject v) ∷ more
    → NotPending q s.pending_promise_rejections
    → dispatch_rejections js s ≡ none
unfolding dispatch_rejections deliver_handled call_handled track_all track_promise_rejection
nested_handler_panics js s p r q v rest more e c h n =
    let told = tell (handled p r) (hold rest s) in
    let next = λ (t : ExceptionState). deliver_handled js rest (release t) in
    let last = λ (t : ExceptionState). deliver_rejected js t.pending_promise_rejections t in
    let panics : call_handled js p r (hold rest s) ≡ none =
      if_true (track_all (js.on_handled p r) told) (some (hold rest s)) c
      ∙ (ap (λ es. track_all es told) h
          ∙ ap (λ m. m >>= track_all more) (added_panics q v told c refl n)) in
    ap (λ hs. deliver_handled js hs s >>= last) e ∙ ap (λ m. (m >>= next) >>= last) panics

-- JavaScript that adds no handlers while it is told of handled rejections.
abbrev pub IsCalm : List (ℕ × PromiseRejectEvent) → Type 0
IsCalm [] = Unit
IsCalm ((p, handler_added_after_reject r) ∷ es) = ⊥
IsCalm ((p, e) ∷ es) = IsCalm es

-- The rejections that events report.
abbrev pub rejections_of : List (ℕ × PromiseRejectEvent) → List Rejection
rejections_of [] = []
rejections_of ((p, reject_with_no_handler x y) ∷ es) =
    (record { promise = p; error = x; async_context = y }) ∷ rejections_of es
rejections_of ((p, e) ∷ es) = rejections_of es

abbrev pub add_rejections : List Rejection → ExceptionState → ExceptionState
add_rejections rs s = record s { pending_promise_rejections = s.pending_promise_rejections ++ rs }

add_none : (s : ExceptionState) → s ≡ add_rejections [] s
add_none s =
    ap (λ rs. record s { pending_promise_rejections = rs })
      (sym (append-nil s.pending_promise_rejections))

add_more :
    (rs ts : List Rejection) (s : ExceptionState)
    → add_rejections ts (add_rejections rs s) ≡ add_rejections (rs ++ ts) s
add_more rs ts s =
    ap (λ l. record s { pending_promise_rejections = l })
      (append_assoc s.pending_promise_rejections rs ts)

calm_events :
    (es : List (ℕ × PromiseRejectEvent)) (s : ExceptionState)
    → IsCalm es
    → track_all es s ≡ some (add_rejections (rejections_of es) s)
unfolding track_all track_promise_rejection
calm_events [] s c = ap (λ t. some t) (add_none s)
calm_events ((p, reject_with_no_handler x y) ∷ es) s c =
    let r : Rejection = record { promise = p; error = x; async_context = y } in
    calm_events es (add_rejections (r ∷ []) s) c
    ∙ ap (λ t. some t) (add_more (r ∷ []) (rejections_of es) s)
calm_events ((p, handler_added_after_reject r) ∷ es) s c = absurd c
calm_events ((p, reject_after_resolved) ∷ es) s c = calm_events es s c
calm_events ((p, resolve_after_resolved) ∷ es) s c = calm_events es s c

-- The notices of handled rejections, and the rejections that JavaScript causes while it is told.
abbrev pub tell_handled : List (ℕ × ℕ) → List Notice → List Notice
tell_handled [] ns = ns
tell_handled ((p, r) ∷ hs) ns = tell_handled hs (handled p r ∷ ns)

module _ (js : Script) where
  abbrev pub new_rejections : List (ℕ × ℕ) → List Rejection
  new_rejections [] = []
  new_rejections ((p, r) ∷ hs) = rejections_of (js.on_handled p r) ++ new_rejections hs

  abbrev pub tell_rejected : List Rejection → List Notice → List Notice
  tell_rejected [] ns = ns
  tell_rejected (r ∷ rs) ns = rejected (r ∷ rs) ∷ ns

  abbrev pub late_rejections : List Rejection → List Rejection
  late_rejections [] = []
  late_rejections (r ∷ rs) = rejections_of (js.on_rejected (r ∷ rs))

  module _ (calm : (p r : ℕ) → IsCalm (js.on_handled p r)) where
    abbrev delivered : List (ℕ × ℕ) → ExceptionState → ExceptionState
    delivered hs s = record s {
      pending_handled_promise_rejections = [];
      borrowed = false;
      pending_promise_rejections = s.pending_promise_rejections ++ new_rejections hs;
      notices = tell_handled hs s.notices;
    }

    calm_call :
        (p r : ℕ) (s : ExceptionState)
        → s.has_handled_promise_rejection_cb ≡ true
        → call_handled js p r s
          ≡ some (add_rejections (rejections_of (js.on_handled p r)) (tell (handled p r) s))
    unfolding call_handled
    calm_call p r s c =
        if_true (track_all (js.on_handled p r) (tell (handled p r) s)) (some s) c
        ∙ calm_events (js.on_handled p r) (tell (handled p r) s) (calm p r)

    calm_delivery :
        (hs : List (ℕ × ℕ)) (s : ExceptionState)
        → s.has_handled_promise_rejection_cb ≡ true
        → s.borrowed ≡ false
        → s.pending_handled_promise_rejections ≡ hs
        → deliver_handled js hs s ≡ some (delivered hs s)
    unfolding deliver_handled
    calm_delivery [] s c b e =
        ap (λ t. some t) (ground (arith, b, e, append-nil s.pending_promise_rejections))
    calm_delivery ((p, r) ∷ rest) s c b e =
        let t =
          add_rejections (rejections_of (js.on_handled p r)) (tell (handled p r) (hold rest s)) in
        ap (λ m. m >>= λ u. deliver_handled js rest (release u)) (calm_call p r (hold rest s) c)
        ∙ (calm_delivery rest (release t) c refl refl
            ∙ ap
                (λ l.
                  some (record (delivered ((p, r) ∷ rest) s) { pending_promise_rejections = l }))
                (append_assoc s.pending_promise_rejections (rejections_of (js.on_handled p r))
                  (new_rejections rest)))

    calm_rejected :
        (rs : List Rejection) (s : ExceptionState)
        → ((l : List Rejection) → IsCalm (js.on_rejected l))
        → s.has_handle_rejections_cb ≡ true
        → s.pending_promise_rejections ≡ rs
        → (threw : Bool) × (deliver_rejected js rs s
            ≡ some (
              record s {
                pending_promise_rejections = late_rejections rs;
                notices = tell_rejected rs s.notices;
              },
              threw,
            ))
    unfolding deliver_rejected
    calm_rejected [] s k d e =
        (false, ap (λ l. some (record s { pending_promise_rejections = l }, false)) e)
    calm_rejected (r ∷ rs) s k d e = (
      js.throws (r ∷ rs),
      if_true _ none d
          ∙ ap (λ m. m >>= λ t. some (t, js.throws (r ∷ rs)))
              (calm_events (js.on_rejected (r ∷ rs))
                (tell (rejected (r ∷ rs)) (record s { pending_promise_rejections = [] }))
                (k (r ∷ rs))),
    )

    -- If JavaScript adds no handlers while it is told, the callbacks for handled and for
    -- unhandled rejections are set and the list of handled ones is not borrowed, a dispatch
    -- returns: it tells of all handled rejections in order, then in one call of all pending
    -- rejections and those that came meanwhile, if there are any, and leaves no others than
    -- those that the last call caused.
    pub dispatch_delivers :
        (s : ExceptionState)
        → ((l : List Rejection) → IsCalm (js.on_rejected l))
        → s.has_handled_promise_rejection_cb ≡ true
        → s.has_handle_rejections_cb ≡ true
        → s.borrowed ≡ false
        → (threw : Bool) × (dispatch_rejections js s
            ≡ some (
              record s {
                pending_handled_promise_rejections = [];
                borrowed = false;
                pending_promise_rejections = late_rejections (
                    s.pending_promise_rejections
                    ++ new_rejections s.pending_handled_promise_rejections);
                notices =
                    tell_rejected
                      (s.pending_promise_rejections
                        ++ new_rejections s.pending_handled_promise_rejections)
                      (tell_handled s.pending_handled_promise_rejections s.notices);
              },
              threw,
            ))
    unfolding dispatch_rejections
    dispatch_delivers s k c d b =
        let hs = s.pending_handled_promise_rejections in
        let t = delivered hs s in
        let r = calm_rejected t.pending_promise_rejections t k d refl in
        (
          r.0,
          ap (λ m. m >>= λ t. deliver_rejected js t.pending_promise_rejections t)
                (calm_delivery hs s c b refl)
              ∙ r.1,
        )
