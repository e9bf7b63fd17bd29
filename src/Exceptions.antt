-- ===== src/Exceptions.antt =====
-- core/runtime/exception_state.rs: ExceptionState, and dispatch_rejections of
-- core/runtime/jsruntime.rs, which hands its promise rejections to JavaScript. Promises and values
-- are numbers, the identities of their handles.
pub mod Sound
pub mod Held
pub mod Notices
pub mod Delivery
mod Tests
use deno_core.Common.{
  ℕ, zero, suc, ◌+◌, ◌≡◌, Bool, true, false, List, [], ◌∷◌, ◌++◌, Option, none, some, ◌==◌,
  if◌then◌else◌, length, ◌>>=◌,
}

pub record Rejection : Type 0 where
  pub promise : ℕ
  pub error : ℕ
  pub async_context : ℕ

-- What JavaScript has been told, the newest first.
pub data Notice : Type 0 where
  handled : ℕ → ℕ → Notice
  rejected : List Rejection → Notice

-- `has_*` says that the callback of that name is set; `js_handle_rejections_cb` is in ContextState. `borrowed` says that the list of handled
-- rejections is borrowed, and `notices` what has been handed over.
pub record ExceptionState : Type 0 where
  pub dispatched_exception : Option ℕ
  pub dispatched_exception_is_promise : Bool
  pub pending_promise_rejections : List Rejection
  pub pending_handled_promise_rejections : List (ℕ × ℕ)
  pub has_build_custom_error_cb : Bool
  pub has_handled_promise_rejection_cb : Bool
  pub has_format_exception_cb : Bool
  pub has_handle_rejections_cb : Bool
  pub borrowed : Bool
  pub notices : List Notice

unfoldable pub prepare_to_destroy : ExceptionState → ExceptionState
prepare_to_destroy s = record s {
  has_build_custom_error_cb = false;
  has_handled_promise_rejection_cb = false;
  has_format_exception_cb = false;
  pending_promise_rejections = [];
  dispatched_exception = none;
}

unfoldable pub clear_error : ExceptionState → ExceptionState
clear_error s = record s { dispatched_exception_is_promise = false; dispatched_exception = none }

abbrev pub is_some : Option ℕ → Bool
is_some none = false
is_some (some e) = true

unfoldable pub has_dispatched_exception : ExceptionState → Bool
has_dispatched_exception s = is_some s.dispatched_exception

unfoldable pub set_dispatched_exception : ℕ → Bool → ExceptionState → ExceptionState
set_dispatched_exception e promise s = record s {
  dispatched_exception = some e;
  dispatched_exception_is_promise = promise;
}

-- PromiseRejectEvent, with the error and the async context of a rejection, or with the result of the
-- promise that was rejected before.
pub data PromiseRejectEvent : Type 0 where
  reject_with_no_handler : ℕ → ℕ → PromiseRejectEvent
  handler_added_after_reject : ℕ → PromiseRejectEvent
  reject_after_resolved resolve_after_resolved : PromiseRejectEvent

-- `retain` of the rejections of other promises.
abbrev pub retain_others : ℕ → List Rejection → List Rejection
retain_others p [] = []
retain_others p (r ∷ rs) =
    let rest = retain_others p rs in if r.promise == p then rest else r ∷ rest

-- The list of handled rejections is taken with `borrow_mut`, which panics where it is borrowed.
abbrev pub push_handled : ℕ → ℕ → ExceptionState → Option ExceptionState
push_handled p result s =
    if s.borrowed
    then none
    else some (record s {
      pending_handled_promise_rejections = s.pending_handled_promise_rejections ++ (p, result) ∷ [];
    })

-- A handler was added. If the rejection was not delivered yet it is dropped.
unfoldable pub handler_added : ℕ → ℕ → ExceptionState → Option ExceptionState
handler_added p result s =
    let rest = retain_others p s.pending_promise_rejections in
    let s1 = record s { pending_promise_rejections = rest } in
    if length rest == length s.pending_promise_rejections
    then (if s.has_handled_promise_rejection_cb then push_handled p result s1 else some s1)
    else some s1

unfoldable pub track_promise_rejection :
    ℕ → PromiseRejectEvent → ExceptionState → Option ExceptionState
track_promise_rejection p (reject_with_no_handler error context) s = some (record s {
  pending_promise_rejections =
      s.pending_promise_rejections
      ++ (record { promise = p; error = error; async_context = context }) ∷ [];
})
track_promise_rejection p (handler_added_after_reject result) s = handler_added p result s
track_promise_rejection p reject_after_resolved s = some s
track_promise_rejection p resolve_after_resolved s = some s

unfoldable pub track_all : List (ℕ × PromiseRejectEvent) → ExceptionState → Option ExceptionState
track_all [] s = some s
track_all ((p, e) ∷ es) s = track_promise_rejection p e s >>= track_all es

-- The events that JavaScript causes while it is told of a handled rejection, and of a list of
-- rejections, which may also throw.
pub record Script : Type 0 where
  pub on_handled : ℕ → ℕ → List (ℕ × PromiseRejectEvent)
  pub on_rejected : List Rejection → List (ℕ × PromiseRejectEvent)
  pub throws : List Rejection → Bool

abbrev pub tell : Notice → ExceptionState → ExceptionState
tell n s = record s { notices = n ∷ s.notices }

unfoldable pub call_handled : Script → ℕ → ℕ → ExceptionState → Option ExceptionState
call_handled js p result s =
    if s.has_handled_promise_rejection_cb
    then track_all (js.on_handled p result) (tell (handled p result) s)
    else some s

abbrev pub hold : List (ℕ × ℕ) → ExceptionState → ExceptionState
hold rest s = record s { pending_handled_promise_rejections = rest; borrowed = true }

abbrev pub release : ExceptionState → ExceptionState
release s = record s { borrowed = false }

-- The `while let` over the handled rejections: what `borrow_mut` returns lives until the end of the
-- body, so the list is borrowed during the call, and nothing is added to it.
unfoldable pub deliver_handled : Script → List (ℕ × ℕ) → ExceptionState → Option ExceptionState
deliver_handled js [] s = some s
deliver_handled js ((p, result) ∷ rest) s =
    call_handled js p result (hold rest s) >>= λ t. deliver_handled js rest (release t)

-- The rejections that are left, and whether the call threw. The callback is unwrapped.
unfoldable pub deliver_rejected :
    Script → List Rejection → ExceptionState → Option (ExceptionState × Bool)
deliver_rejected js [] s = some (s, false)
deliver_rejected js (r ∷ rs) s =
    let told = tell (rejected (r ∷ rs)) (record s { pending_promise_rejections = [] }) in
    if s.has_handle_rejections_cb
    then (track_all (js.on_rejected (r ∷ rs)) told >>= λ t. some (t, js.throws (r ∷ rs)))
    else none

unfoldable pub dispatch_rejections : Script → ExceptionState → Option (ExceptionState × Bool)
dispatch_rejections js s = deliver_handled js s.pending_handled_promise_rejections s >>= λ t.
    deliver_rejected js t.pending_promise_rejections t
