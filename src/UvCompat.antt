-- ===== src/UvCompat.antt =====
-- core/uv_compat.rs: the handles of the event loop that stand in for libuv's. The C structures live
-- in memory at addresses; the loop keeps the addresses of those that it has to call. Handles of
-- sockets are left out, apart from what closing and counting them does to the loop.
pub mod Handles
pub mod Phases
pub mod Keys
pub mod WellFormed
pub mod Timers
pub mod Watchers
pub mod Calls
pub mod Later
pub mod Due
pub mod Expiry
pub mod Untouched
pub mod Rounds
pub mod Closing
pub mod Alive
pub mod Ends
pub mod Passes
pub mod Stops
pub mod Skips
mod Tests
use deno_core.Common.{
  ℕ, suc, ◌+◌, ◌<◌, ◌≡◌, Bool, true, false, ◌&&◌, List, [], ◌∷◌, Option, none, some, ltb, ◌==◌,
  if◌then◌else◌,
}

-- UV_IDLE, UV_PREPARE and UV_CHECK are the watchers of the phase of that name.
pub data Phase : Type 0 where
  idle prepare check : Phase

pub data HandleType : Type 0 where
  unknown timer tcp : HandleType
  watcher : Phase → HandleType

-- The fields of uv_timer_t, of which the other structures have the first ones. The bits of `flags`
-- are `active`, `referenced` and `closing`; a callback is a number, the address of its code.
pub record Handle : Type 0 where
  pub type : HandleType
  pub active : Bool
  pub referenced : Bool
  pub closing : Bool
  pub cb : Option ℕ
  pub internal_id : ℕ
  pub internal_deadline : ℕ
  pub timeout : ℕ
  pub repeat : ℕ

-- `deadline_ms` and `id`.
abbrev pub TimerKey : Type 0
TimerKey = ℕ × ℕ

-- The order that the code derives: by deadline, then by id.
abbrev pub key_lt : TimerKey → TimerKey → Bool
key_lt (d, i) (e, j) = if d == e then ltb i j else ltb d e

-- `BTreeSet`: the keys in their order, each once.
abbrev pub insert_key : TimerKey → List TimerKey → List TimerKey
insert_key k [] = k ∷ []
insert_key k (j ∷ js) =
    if k.0 == j.0 && k.1 == j.1
    then j ∷ js
    else if key_lt k j
    then k ∷ (j ∷ js)
    else j ∷ insert_key k js

abbrev pub remove_key : TimerKey → List TimerKey → List TimerKey
remove_key k [] = []
remove_key k (j ∷ js) =
    let rest = remove_key k js in if k.0 == j.0 && k.1 == j.1 then rest else j ∷ rest

-- UvLoopInner, with the memory of the handles, the time that now_ms reads, and the calls made so far
-- as pairs of a callback and the address it is called with.
pub record Loop : Type 0 where
  pub timers : List TimerKey
  pub next_timer_id : ℕ
  pub timer_handles : List (ℕ × ℕ)
  pub handles : Phase → List ℕ
  pub closing_handles : List (ℕ × Option ℕ)
  pub memory : ℕ → Handle
  pub now_ms : ℕ
  pub calls : List (ℕ × ℕ)

abbrev pub put : ℕ → Handle → (ℕ → Handle) → ℕ → Handle
put h v m a = if a == h then v else m a

abbrev pub write : ℕ → Handle → Loop → Loop
write h v s = record s { memory = put h v s.memory }

abbrev pub same : Phase → Phase → Bool
same idle idle = true
same prepare prepare = true
same check check = true
same p q = false

-- `idle_handles`, `prepare_handles` and `check_handles`, one of them replaced.
abbrev pub put_handles : Phase → List ℕ → (Phase → List ℕ) → Phase → List ℕ
put_handles p hs f q = if same p q then hs else f q

-- UvLoopInner::new, over a memory of handles.
abbrev pub new_loop : (ℕ → Handle) → Loop
new_loop m = record {
  timers = [];
  next_timer_id = 1;
  timer_handles = [];
  handles = λ p. [];
  closing_handles = [];
  memory = m;
  now_ms = 0;
  calls = [];
}
