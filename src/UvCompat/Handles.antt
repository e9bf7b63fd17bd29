-- ===== src/UvCompat/Handles.antt =====
-- core/uv_compat.rs: the functions by which C code starts, stops and closes handles. All but
-- uv_timer_again return 0. Deadlines wrap as u64 does in a release build.
use native.Mathlib.Decide.{ℕ_discrete}
use deno_core.Common.{
  ℕ, ◌+◌, ◌%◌, ◌^◌, Bool, true, false, not, ◌&&◌, ◌||◌, List, [], ◌∷◌, ◌++◌, Option, none, some,
  ◌==◌, if◌then◌else◌, insert, remove,
}
use deno_core.UvCompat.{
  Phase, HandleType, unknown, timer, tcp, watcher, Handle, Loop, insert_key, remove_key, write,
  put_handles,
}

abbrev pub u64_add : ℕ → ℕ → ℕ
u64_add a b = (a + b) % 2 ^ 64

-- `retain` of every other address.
abbrev pub drop_handle : ℕ → List ℕ → List ℕ
drop_handle h [] = []
drop_handle h (j ∷ js) = let rest = drop_handle h js in if h == j then rest else j ∷ rest

abbrev pub deactivate : ℕ → Loop → Loop
deactivate h s = write h (record (s.memory h) { active = false }) s

-- The entries of a timer that has been started once.
abbrev pub forget_timer : ℕ → ℕ → Loop → Loop
forget_timer id deadline s = if id == 0 then s else record s {
  timers = remove_key (deadline, id) s.timers;
  timer_handles = remove ℕ_discrete id s.timer_handles;
}

unfoldable pub stop_timer : ℕ → Loop → Loop
stop_timer h s =
    deactivate h (forget_timer (s.memory h).internal_id (s.memory h).internal_deadline s)

-- stop_idle, stop_prepare and stop_check.
unfoldable pub stop_watcher : Phase → ℕ → Loop → Loop
stop_watcher p h s =
    deactivate h (record s { handles = put_handles p (drop_handle h (s.handles p)) s.handles })

unfoldable pub uv_timer_init : ℕ → Loop → Loop
uv_timer_init h s =
    write h
      (record {
        type = timer;
        active = false;
        referenced = true;
        closing = false;
        cb = none;
        internal_id = 0;
        internal_deadline = 0;
        timeout = 0;
        repeat = 0;
      })
      s

-- The end of uv_timer_start and uv_timer_again: a new id, and an entry due after `wait`.
abbrev pub schedule : ℕ → ℕ → Loop → Loop
schedule h wait s =
    let id = s.next_timer_id in
    let deadline = u64_add s.now_ms wait in
    write h (record (s.memory h) { internal_id = id; internal_deadline = deadline; active = true })
      (record s {
        next_timer_id = id + 1;
        timers = insert_key (deadline, id) s.timers;
        timer_handles = insert ℕ_discrete id h s.timer_handles;
      })

unfoldable pub uv_timer_start : ℕ → ℕ → ℕ → ℕ → Loop → Loop
uv_timer_start h cb timeout repeat s =
    let s1 = if (s.memory h).active then stop_timer h s else s in
    schedule h timeout
      (write h (record (s1.memory h) { cb = some cb; timeout = timeout; repeat = repeat }) s1)

-- The loop of a timer outlives it here, so the test for a null loop is not taken.
unfoldable pub uv_timer_stop : ℕ → Loop → Loop
uv_timer_stop h s = stop_timer h s

pub data Status : Type 0 where
  done einval : Status

unfoldable pub uv_timer_again : ℕ → Loop → Loop × Status
uv_timer_again h s =
    let repeat = (s.memory h).repeat in
    if repeat == 0 then (s, einval) else (schedule h repeat (stop_timer h s), done)

unfoldable pub uv_timer_get_repeat : ℕ → Loop → ℕ
uv_timer_get_repeat h s = (s.memory h).repeat

unfoldable pub uv_timer_set_repeat : ℕ → ℕ → Loop → Loop
uv_timer_set_repeat h repeat s = write h (record (s.memory h) { repeat = repeat }) s

-- uv_idle_init, uv_prepare_init and uv_check_init write the fields that their structures have.
unfoldable pub uv_watcher_init : Phase → ℕ → Loop → Loop
uv_watcher_init p h s =
    write h
      (record (s.memory h) {
        type = watcher p;
        active = false;
        referenced = true;
        closing = false;
        cb = none;
      })
      s

-- uv_idle_start, uv_prepare_start and uv_check_start.
unfoldable pub uv_watcher_start : Phase → ℕ → ℕ → Loop → Loop
uv_watcher_start p h cb s =
    if (s.memory h).active
    then write h (record (s.memory h) { cb = some cb }) s
    else write h (record (s.memory h) { cb = some cb; active = true })
        (record s { handles = put_handles p (s.handles p ++ h ∷ []) s.handles })

abbrev pub clear_cb : ℕ → Loop → Loop
clear_cb h s = write h (record (s.memory h) { cb = none }) s

-- uv_idle_stop, uv_prepare_stop and uv_check_stop.
unfoldable pub uv_watcher_stop : Phase → ℕ → Loop → Loop
uv_watcher_stop p h s = if (s.memory h).active then clear_cb h (stop_watcher p h s) else s

-- The match of uv_close. What stop_tcp clears of a socket is left out.
unfoldable pub stop_handle : HandleType → ℕ → Loop → Loop
stop_handle unknown h s = s
stop_handle timer h s = stop_timer h s
stop_handle tcp h s = deactivate h s
stop_handle (watcher p) h s = stop_watcher p h s

abbrev pub mark_closing : ℕ → Loop → Loop
mark_closing h s = write h (record (s.memory h) { closing = true; active = false }) s

abbrev pub queue_close : ℕ → Option ℕ → Loop → Loop
queue_close h close_cb s = record s { closing_handles = s.closing_handles ++ (h, close_cb) ∷ [] }

unfoldable pub uv_close : ℕ → Option ℕ → Loop → Loop
uv_close h close_cb s = queue_close h close_cb (stop_handle (s.memory h).type h (mark_closing h s))

unfoldable pub uv_ref : ℕ → Loop → Loop
uv_ref h s = write h (record (s.memory h) { referenced = true }) s

unfoldable pub uv_unref : ℕ → Loop → Loop
uv_unref h s = write h (record (s.memory h) { referenced = false }) s

unfoldable pub uv_is_active : ℕ → Loop → ℕ
uv_is_active h s = if (s.memory h).active then 1 else 0

unfoldable pub uv_is_closing : ℕ → Loop → ℕ
uv_is_closing h s = if (s.memory h).closing then 1 else 0

abbrev pub alive : Handle → Bool
alive v = v.active && v.referenced

abbrev pub any_alive : (ℕ → Handle) → List ℕ → Bool
any_alive m [] = false
any_alive m (h ∷ hs) = alive (m h) || any_alive m hs

-- A socket has the same flags; the loop's own ones are given by their structures.
abbrev pub any_socket_alive : List Handle → Bool
any_socket_alive [] = false
any_socket_alive (v ∷ vs) = alive v || any_socket_alive vs

abbrev pub any_timer_alive : (ℕ → Handle) → List (ℕ × ℕ) → Bool
any_timer_alive m [] = false
any_timer_alive m ((i, h) ∷ hs) = alive (m h) || any_timer_alive m hs

abbrev pub is_empty {ℓ} : {A : Type ℓ} → List A → Bool
is_empty [] = true
is_empty (x ∷ xs) = false

-- `tcp_handles` has the structures of the loop's sockets, which are not in its memory here.
unfoldable pub has_alive_handles : List Handle → Loop → Bool
has_alive_handles tcp_handles s =
    any_timer_alive s.memory s.timer_handles
    || (any_alive s.memory (s.handles Phase.idle)
        || (any_alive s.memory (s.handles Phase.prepare)
            || (any_alive s.memory (s.handles Phase.check)
                || (any_socket_alive tcp_handles || not (is_empty s.closing_handles)))))

module _ (h : ℕ) where
  abbrev pub uv_idle_init : Loop → Loop
  uv_idle_init s = uv_watcher_init Phase.idle h s

  abbrev pub uv_idle_start : ℕ → Loop → Loop
  uv_idle_start cb s = uv_watcher_start Phase.idle h cb s

  abbrev pub uv_idle_stop : Loop → Loop
  uv_idle_stop s = uv_watcher_stop Phase.idle h s

  abbrev pub uv_prepare_init : Loop → Loop
  uv_prepare_init s = uv_watcher_init Phase.prepare h s

  abbrev pub uv_prepare_start : ℕ → Loop → Loop
  uv_prepare_start cb s = uv_watcher_start Phase.prepare h cb s

  abbrev pub uv_prepare_stop : Loop → Loop
  uv_prepare_stop s = uv_watcher_stop Phase.prepare h s

  abbrev pub uv_check_init : Loop → Loop
  uv_check_init s = uv_watcher_init Phase.check h s

  abbrev pub uv_check_start : ℕ → Loop → Loop
  uv_check_start cb s = uv_watcher_start Phase.check h cb s

  abbrev pub uv_check_stop : Loop → Loop
  uv_check_stop s = uv_watcher_stop Phase.check h s

  abbrev pub stop_idle : Loop → Loop
  stop_idle s = stop_watcher Phase.idle h s

  abbrev pub stop_prepare : Loop → Loop
  stop_prepare s = stop_watcher Phase.prepare h s

  abbrev pub stop_check : Loop → Loop
  stop_check s = stop_watcher Phase.check h s
