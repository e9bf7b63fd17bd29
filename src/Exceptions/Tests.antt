-- ===== src/Exceptions/Tests.antt =====
-- Promise rejections by example, and the theorems at concrete states.
use deno_core.Common.{ℕ, ◌≡◌, refl, inl, inr, Bool, true, false, List, [], ◌∷◌, none, some}
use deno_core.Exceptions.{
  Rejection, PromiseRejectEvent, handled, rejected, ExceptionState, reject_with_no_handler,
  handler_added_after_reject, handler_added, track_promise_rejection, track_all, Script,
  call_handled, deliver_handled, deliver_rejected, dispatch_rejections,
}
use deno_core.Exceptions.Sound.{IsSound, Ordered, AllReported}
use deno_core.Exceptions.Notices.{
  Action, track, dispatch, act, run, AllLegal, handled_after_rejected,
}
use deno_core.Exceptions.Delivery.{
  nested_handler_panics, new_rejections, tell_rejected, late_rejections, tell_handled,
  dispatch_delivers,
}

abbrev start : ExceptionState
start = record {
  dispatched_exception = none;
  dispatched_exception_is_promise = false;
  pending_promise_rejections = [];
  pending_handled_promise_rejections = [];
  has_build_custom_error_cb = false;
  has_handled_promise_rejection_cb = true;
  has_format_exception_cb = false;
  has_handle_rejections_cb = true;
  borrowed = false;
  notices = [];
}

start-IsSound : IsSound start
start-IsSound = record { ordered = tt; reported = tt }

abbrev silent : Script
silent = record { on_handled = λ p r. []; on_rejected = λ rs. []; throws = λ rs. false }

-- JavaScript that adds a handler to the first promise of whose rejection it is told.
abbrev add_handler : List Rejection → List (ℕ × PromiseRejectEvent)
add_handler [] = []
add_handler (r ∷ rs) = (r.promise, handler_added_after_reject r.error) ∷ []

abbrev late : Script
late = record silent { on_rejected = add_handler }

-- Two promises are rejected; one gets its handler at once, the other while JavaScript is told.
abbrev late_handler : List Action
late_handler =
    track 1 (reject_with_no_handler 10 0)
    ∷ track 2 (reject_with_no_handler 20 0)
    ∷ track 2 (handler_added_after_reject 20)
    ∷ dispatch late
    ∷ dispatch late
    ∷ []

abbrev first : Rejection
first = record { promise = 1; error = 10; async_context = 0 }

abbrev told : ExceptionState
told = record start { notices = handled 1 10 ∷ rejected (first ∷ []) ∷ [] }

run-late_handler : run late_handler start ≡ some told
unfolding run act track_promise_rejection handler_added dispatch_rejections deliver_handled
    deliver_rejected call_handled track_all
run-late_handler = refl

late_handler-legal : AllLegal late_handler start
unfolding act track_promise_rejection handler_added dispatch_rejections deliver_handled
    deliver_rejected call_handled track_all
late_handler-legal =
    (tt, (tt, (inl (inr (inl refl)), ((tt, (inr (inl (inl refl)), tt)), (((tt, tt), tt), tt)))))

handled_after_rejected_example :
    Ordered told.notices × AllReported told.pending_handled_promise_rejections told.notices
handled_after_rejected_example =
    handled_after_rejected late_handler start told start-IsSound late_handler-legal run-late_handler

-- The handler of 1 adds a handler to 2, which was delivered too.
abbrev meddling : Script
meddling = record silent { on_handled = λ p r. (2, handler_added_after_reject 20) ∷ [] }

abbrev both_delivered : ExceptionState
both_delivered = record start { pending_handled_promise_rejections = (1, 10) ∷ [] }

nested_handler_panics_example : dispatch_rejections meddling both_delivered ≡ none
nested_handler_panics_example =
    nested_handler_panics meddling both_delivered 1 10 2 20 [] [] refl refl refl tt

abbrev one_of_each : ExceptionState
one_of_each = record both_delivered { pending_promise_rejections = first ∷ [] }

dispatch_delivers_example :
    (threw : Bool) × (dispatch_rejections silent one_of_each
      ≡ some (
        record one_of_each {
          pending_handled_promise_rejections = [];
          borrowed = false;
          pending_promise_rejections =
              late_rejections silent (first ∷ new_rejections silent ((1, 10) ∷ []));
          notices =
              tell_rejected silent
                (first ∷ new_rejections silent ((1, 10) ∷ []))
                (tell_handled ((1, 10) ∷ []) []);
        },
        threw,
      ))
dispatch_delivers_example =
    dispatch_delivers silent (λ p r. tt) one_of_each (λ l. tt) refl refl refl
