-- ===== src/Timers.antt =====
-- core/web_timeout.rs: the timers of the runtime. The tree of keys is a sorted list, the map of
-- data an association list; the reactor's clock is the argument `now` and its timer the deadline
-- that the sleep is set to. High resolution is counted, as on windows and in tests. `none` is a
-- panic: a count below zero or a debug assertion that fails.
pub mod Poll
pub mod Counts
pub mod Removal
pub mod Queueing
pub mod Runs
mod Tests
use native.Mathlib.Decide.{ℕ_discrete}
use deno_core.Common.{
  decrement, ℕ, zero, suc, ◌+◌, ◌-◌, ◌<◌, ◌≡◌, Bool, true, false, not, ◌&&◌, ◌||◌, List, [], ◌∷◌,
  ◌++◌, Option, none, some, max, leb, ltb, ◌==◌, if◌then◌else◌, length, lookup, insert, remove,
  ◌>>=◌, ◌>>◌, assert,
}

pub data TimerType : Type 0 where
  repeat : ℕ → TimerType
  once : TimerType

pub record TimerKey : Type 0 where
  pub deadline : ℕ
  pub id : ℕ
  pub timer_type : TimerType
  pub is_system_timer : Bool

pub record TimerData (T : Type 0) : Type 0 where
  pub value : T
  pub unrefd : Bool
  pub high_res : Bool

pub record WebTimers (T : Type 0) : Type 0 where
  pub next_id : ℕ
  pub timers : List TimerKey
  pub data_map : List (ℕ × TimerData T)
  pub unrefd_count : ℕ
  pub sleep : Option ℕ
  pub lock_count : ℕ

abbrev pub low_res_timer_resolution : ℕ
low_res_timer_resolution = 100

-- The derived orders: by deadline, id, type and flag in turn.
abbrev pub type_ltb : TimerType → TimerType → Bool
type_ltb (repeat n) (repeat m) = ltb n m
type_ltb (repeat n) once = true
type_ltb once t = false

abbrev pub type_eqb : TimerType → TimerType → Bool
type_eqb (repeat n) (repeat m) = n == m
type_eqb (repeat n) once = false
type_eqb once (repeat n) = false
type_eqb once once = true

abbrev pub flag_ltb : Bool → Bool → Bool
flag_ltb a b = not a && b

unfoldable pub key_ltb : TimerKey → TimerKey → Bool
key_ltb j k =
    ltb j.deadline k.deadline
    || (j.deadline == k.deadline
        && (ltb j.id k.id
            || (j.id == k.id
                && (type_ltb j.timer_type k.timer_type
                    || (type_eqb j.timer_type k.timer_type
                        && flag_ltb j.is_system_timer k.is_system_timer)))))

-- `BTreeSet::insert`: a key that is there already stays.
unfoldable pub insert_key : TimerKey → List TimerKey → List TimerKey
insert_key k [] = k ∷ []
insert_key k (j ∷ ks) =
    let rest = insert_key k ks in
    if key_ltb k j then k ∷ j ∷ ks else if key_ltb j k then j ∷ rest else j ∷ ks

-- The sleep is set to a deadline that comes before the first timer.
abbrev pub sleep_until : ℕ → List TimerKey → Option ℕ → Option ℕ
sleep_until deadline [] sleep = some deadline
sleep_until deadline (k ∷ ks) sleep = if ltb deadline k.deadline then some deadline else sleep

abbrev pub type_of : Bool → ℕ → TimerType
type_of repeats timeout_ms = if repeats then repeat (max timeout_ms 1) else once

abbrev pub one_if : Bool → ℕ
one_if b = if b then 1 else 0

module _ {T : Type 0} where
  abbrev pub find : ℕ → WebTimers T → Option (TimerData T)
  find id w = lookup ℕ_discrete id w.data_map

  abbrev pub is_some : Option (TimerData T) → Bool
  is_some none = false
  is_some (some _) = true

  abbrev pub is_empty : List (ℕ × TimerData T) → Bool
  is_empty [] = true
  is_empty (_ ∷ _) = false

  unfoldable pub new_timers : WebTimers T
  new_timers = record {
    next_id = 0;
    timers = [];
    data_map = [];
    unrefd_count = 0;
    sleep = none;
    lock_count = 0;
  }

  -- `HighResTimerLock::maybe_lock`
  unfoldable pub maybe_lock : WebTimers T → ℕ → WebTimers T × Bool
  maybe_lock w timeout_ms =
      if leb timeout_ms low_res_timer_resolution
      then (record w { lock_count = w.lock_count + 1 }, true)
      else (w, false)

  -- `HighResTimerLock::maybe_unlock`
  unfoldable pub maybe_unlock : WebTimers T → Bool → Option (WebTimers T)
  maybe_unlock w false = some w
  maybe_unlock w true = do n ← decrement w.lock_count; some (record w { lock_count = n })

  -- One unreferenced timer less.
  unfoldable pub forget_unrefd : WebTimers T → Bool → Option (WebTimers T)
  forget_unrefd w false = some w
  forget_unrefd w true = do n ← decrement w.unrefd_count; some (record w { unrefd_count = n })

  unfoldable pub ref_found : WebTimers T → ℕ → Option (TimerData T) → Option (WebTimers T)
  ref_found w id none = some w
  ref_found w id (some td) =
      forget_unrefd
        (record w { data_map = insert ℕ_discrete id (record td { unrefd = false }) w.data_map })
        td.unrefd

  unfoldable pub ref_timer : WebTimers T → ℕ → Option (WebTimers T)
  ref_timer w id = ref_found w id (find id w)

  unfoldable pub unref_found : WebTimers T → ℕ → Option (TimerData T) → WebTimers T
  unref_found w id none = w
  unref_found w id (some td) = record w {
    data_map = insert ℕ_discrete id (record td { unrefd = true }) w.data_map;
    unrefd_count = if td.unrefd then w.unrefd_count else w.unrefd_count + 1;
  }

  unfoldable pub unref_timer : WebTimers T → ℕ → WebTimers T
  unref_timer w id = unref_found w id (find id w)

  unfoldable pub queue_timer_internal : WebTimers T → ℕ → Bool → ℕ → T → Bool → WebTimers T × ℕ
  unfolding maybe_lock insert_key
  queue_timer_internal w now repeats timeout_ms value is_system_timer =
      let (locked, high_res) = maybe_lock w timeout_ms in
      let id = w.next_id + 1 in
      let deadline = now + timeout_ms in
      (
        record locked {
          next_id = id;
          sleep = sleep_until deadline w.timers w.sleep;
          timers =
              insert_key
                (record {
                  deadline = deadline;
                  id = id;
                  timer_type = type_of repeats timeout_ms;
                  is_system_timer = is_system_timer;
                })
                w.timers;
          data_map =
              insert ℕ_discrete id (record { value = value; unrefd = false; high_res = high_res })
                w.data_map;
        },
        id,
      )

  -- What is left when no timer has data any more.
  unfoldable pub clear_all : WebTimers T → WebTimers T
  clear_all w = record w { lock_count = 0; unrefd_count = 0; timers = []; sleep = none }

  -- The counts give up a timer whose data was removed.
  unfoldable pub release : WebTimers T → TimerData T → Option (WebTimers T)
  release w td =
      if is_empty w.data_map
      then some (clear_all w)
      else (maybe_unlock w td.high_res >>= λ unlocked. forget_unrefd unlocked td.unrefd)

  -- The debug assertions of `cancel_timer`, made where no data is left.
  unfoldable pub last_is_consistent : WebTimers T → TimerData T → Bool
  last_is_consistent w td =
      if is_empty w.data_map
      then w.unrefd_count == one_if td.unrefd && (one_if (ltb 0 w.lock_count) == one_if td.high_res)
      else true

  unfoldable pub cancel_found :
      WebTimers T → ℕ → Option (TimerData T) → Option (WebTimers T × Option T)
  cancel_found w id none = some (w, none)
  cancel_found w id (some td) =
      let removed = record w { data_map = remove ℕ_discrete id w.data_map } in
      assert (last_is_consistent removed td)
      >> (release removed td >>= λ left. some (left, some td.value))

  unfoldable pub cancel_timer : WebTimers T → ℕ → Option (WebTimers T × Option T)
  cancel_timer w id = cancel_found w id (find id w)

  unfoldable pub take_found :
      WebTimers T → ℕ → TimerType → Option (TimerData T) → Option (WebTimers T × Option T)
  take_found w id (repeat n) none = some (w, none)
  take_found w id (repeat n) (some td) = some (w, some td.value)
  take_found w id once none = some (w, none)
  take_found w id once (some td) =
      release (record w { data_map = remove ℕ_discrete id w.data_map }) td >>= λ left.
      some (left, some td.value)

  unfoldable pub take_fired_timer : WebTimers T → ℕ → TimerType → Option (WebTimers T × Option T)
  take_fired_timer w id ty = take_found w id ty (find id w)

  unfoldable pub timers_len : WebTimers T → ℕ
  timers_len w = length w.data_map

  unfoldable pub unref_len : WebTimers T → ℕ
  unref_len w = w.unrefd_count

  unfoldable pub has_pending_timers : WebTimers T → Bool
  has_pending_timers w = ltb (unref_len w) (timers_len w)
