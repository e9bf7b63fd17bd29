-- ===== src/UvCompat/Closing.antt =====
-- The handles that wait for their close callback.
use mathlib.Core.List.{append-nil, append_assoc}
use deno_core.Common.{ℕ, ◌≡◌, refl, sym, ap, ◌∙◌, List, [], ◌∷◌, ◌++◌, Option, arith, if-elim}
use deno_core.UvCompat.{HandleType, unknown, timer, tcp, watcher, Loop}
use deno_core.UvCompat.Handles.{
  stop_timer, stop_watcher, uv_timer_init, uv_timer_start, uv_timer_stop, uv_timer_again,
  uv_timer_set_repeat, uv_watcher_init, uv_watcher_start, uv_watcher_stop, stop_handle,
  mark_closing, uv_close, uv_ref, uv_unref,
}
use deno_core.UvCompat.Phases.{
  Action, timer_init, timer_start, timer_stop, timer_again, timer_set_repeat, watcher_init,
  watcher_start, watcher_stop, close_handle, ref_handle, unref_handle, advance, perform,
  perform_all,
}

-- What a list of calls of C code closes, in that order.
abbrev pub closed_by : List Action → List (ℕ × Option ℕ)
closed_by [] = []
closed_by (close_handle h cb ∷ as') = (h, cb) ∷ closed_by as'
closed_by (a ∷ as') = closed_by as'

abbrev pub closed_by_one : Action → List (ℕ × Option ℕ)
closed_by_one a = closed_by (a ∷ [])

abbrev SameClosing : Loop → Loop → Type 0
SameClosing t s = t.closing_handles ≡ s.closing_handles

stop_timer-closing : (h : ℕ) (s : Loop) → SameClosing (stop_timer h s) s
unfolding stop_timer
stop_timer-closing h s = ground arith

stop_handle-closing : (t : HandleType) (h : ℕ) (s : Loop) → SameClosing (stop_handle t h s) s
unfolding stop_handle stop_watcher
stop_handle-closing unknown h s = refl
stop_handle-closing timer h s = stop_timer-closing h s
stop_handle-closing tcp h s = refl
stop_handle-closing (watcher p) h s = refl

-- The other calls.
perform-closing :
    (a : Action) (s : Loop) → (perform a s).closing_handles ≡ s.closing_handles ++ closed_by_one a
unfolding perform uv_timer_init uv_timer_start uv_timer_stop uv_timer_again uv_timer_set_repeat
    uv_watcher_init uv_watcher_start uv_watcher_stop stop_watcher uv_close uv_ref uv_unref
perform-closing (timer_init h) s = sym (append-nil s.closing_handles)
perform-closing (timer_start h cb t r) s =
    if-elim (λ x. x.closing_handles ≡ s.closing_handles) (s.memory h).active (stop_timer h s) s
      (λ q. stop_timer-closing h s) (λ q. refl)
    ∙ sym (append-nil s.closing_handles)
perform-closing (timer_stop h) s = stop_timer-closing h s ∙ sym (append-nil s.closing_handles)
perform-closing (timer_again h) s =
    ground (arith, stop_timer-closing h s, append-nil s.closing_handles)
perform-closing (timer_set_repeat h r) s = sym (append-nil s.closing_handles)
perform-closing (watcher_init p h) s = sym (append-nil s.closing_handles)
perform-closing (watcher_start p h cb) s = ground (arith, append-nil s.closing_handles)
perform-closing (watcher_stop p h) s = ground (arith, append-nil s.closing_handles)
perform-closing (close_handle h cb) s =
    ap (λ hs. hs ++ (h, cb) ∷ []) (stop_handle-closing (s.memory h).type h (mark_closing h s))
perform-closing (ref_handle h) s = sym (append-nil s.closing_handles)
perform-closing (unref_handle h) s = sym (append-nil s.closing_handles)
perform-closing (advance n) s = sym (append-nil s.closing_handles)

closed_by_cons :
    (a : Action) (as' : List Action) → closed_by_one a ++ closed_by as' ≡ closed_by (a ∷ as')
closed_by_cons (timer_init h) as' = refl
closed_by_cons (timer_start h cb t r) as' = refl
closed_by_cons (timer_stop h) as' = refl
closed_by_cons (timer_again h) as' = refl
closed_by_cons (timer_set_repeat h r) as' = refl
closed_by_cons (watcher_init p h) as' = refl
closed_by_cons (watcher_start p h cb) as' = refl
closed_by_cons (watcher_stop p h) as' = refl
closed_by_cons (close_handle h cb) as' = refl
closed_by_cons (ref_handle h) as' = refl
closed_by_cons (unref_handle h) as' = refl
closed_by_cons (advance n) as' = refl

pub perform_all-closing :
    (as' : List Action) (s : Loop)
    → (perform_all as' s).closing_handles ≡ s.closing_handles ++ closed_by as'
unfolding perform_all
perform_all-closing [] s = sym (append-nil s.closing_handles)
perform_all-closing (a ∷ as') s =
    perform_all-closing as' (perform a s)
    ∙ (ap (λ hs. hs ++ closed_by as') (perform-closing a s)
        ∙ (append_assoc s.closing_handles (closed_by_one a) (closed_by as')
            ∙ ap (λ hs. s.closing_handles ++ hs) (closed_by_cons a as')))
