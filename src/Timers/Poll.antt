-- ===== src/Timers/Poll.antt =====
-- core/web_timeout.rs: `poll_timers`. Whether the sleep is ready is an argument, since the timers
-- of the reactor decide it.
use deno_core.Common.{
  ℕ, zero, suc, ◌+◌, ◌-◌, ◌≡◌, refl, Bool, true, false, not, List, [], ◌∷◌, Option, none, some, ltb,
  leb, if◌then◌else◌, length, ◌>>=◌, ◌>>◌, assert, arith,
}
use deno_core.Timers.{
  TimerType, repeat, once, TimerKey, WebTimers, find, is_some, is_empty, key_ltb, insert_key,
}

abbrev pub compaction_minimum : ℕ
compaction_minimum = 16

-- `BTreeSet::split_off`: the keys below the bound, and the others.
unfoldable pub split_keys : TimerKey → List TimerKey → List TimerKey × List TimerKey
split_keys bound [] = ([], [])
split_keys bound (k ∷ ks) =
    let rest = split_keys bound ks in if key_ltb k bound then (k ∷ rest.0, rest.1) else ([], k ∷ ks)

abbrev pub requeue : ℕ → TimerKey → TimerType → List TimerKey → List TimerKey
requeue now k (repeat interval) ks = insert_key (record k { deadline = now + interval }) ks
requeue now k once ks = ks

abbrev pub is_once : TimerType → Bool
is_once (repeat interval) = false
is_once once = true

abbrev pub set_sleep : List TimerKey → Option ℕ → Option ℕ
set_sleep [] sleep = sleep
set_sleep (k ∷ ks) sleep = some k.deadline

abbrev pub checked_sub : ℕ → ℕ → Option ℕ
checked_sub n m = assert (leb m n) >> some (n - m)

-- What the loop does, for the keys whose timers have data.
abbrev pub entry : TimerKey → ℕ × TimerType
entry k = (k.id, k.timer_type)

abbrev pub entries : List TimerKey → List (ℕ × TimerType)
entries [] = []
entries (k ∷ ks) = entry k ∷ entries ks

abbrev pub once_in : List TimerKey → ℕ
once_in [] = 0
once_in (k ∷ ks) = if is_once k.timer_type then once_in ks + 1 else once_in ks

abbrev pub requeued : ℕ → List TimerKey → List TimerKey → List TimerKey
requeued now [] timers = timers
requeued now (k ∷ ks) timers = requeued now ks (requeue now k k.timer_type timers)

module _ {T : Type 0} where
  abbrev pub is_live : WebTimers T → TimerKey → Bool
  is_live w k = is_some (find k.id w)

  -- The loop over the expired keys: the keys that stay queued, the output and the number of
  -- timers that fired once.
  unfoldable pub fire_keys :
      WebTimers T → ℕ → List TimerKey → List TimerKey → List TimerKey × List (ℕ × TimerType) × ℕ
  fire_keys w now [] timers = (timers, [], 0)
  fire_keys w now (k ∷ ks) timers =
      let skipped = fire_keys w now ks timers in
      let fired = fire_keys w now ks (requeue now k k.timer_type timers) in
      if is_live w k
      then (
        fired.0,
        (k.id, k.timer_type) ∷ fired.1,
        (if is_once k.timer_type then fired.2 + 1 else fired.2),
      )
      else skipped

  unfoldable pub compact_front : WebTimers T → List TimerKey → List TimerKey
  compact_front w [] = []
  compact_front w (k ∷ ks) = let rest = compact_front w ks in if is_live w k then k ∷ ks else rest

  unfoldable pub retain_live : WebTimers T → List TimerKey → List TimerKey
  retain_live w [] = []
  retain_live w (k ∷ ks) = let rest = retain_live w ks in if is_live w k then k ∷ rest else rest

  -- What is left to do where no timer fired, and where some did.
  unfoldable pub after_none :
      WebTimers T → List TimerKey → Option (WebTimers T × Option (List (ℕ × TimerType)))
  after_none w timers =
      assert (not (is_empty w.data_map))
      >> let left = compact_front w timers in
        some (record w { timers = left; sleep = set_sleep left w.sleep }, none)

  unfoldable pub compacted : WebTimers T → List TimerKey → ℕ → List TimerKey
  compacted w timers tombstone_count =
      if ltb compaction_minimum tombstone_count then retain_live w timers else timers

  unfoldable pub after_some :
      WebTimers T
      → List TimerKey
      → List (ℕ × TimerType)
      → ℕ
      → Option (WebTimers T × Option (List (ℕ × TimerType)))
  after_some w timers output fired_once_count = do
    pending ← checked_sub (length w.data_map) fired_once_count
    after_counts pending
    where
      after_counts : ℕ → Option (WebTimers T × Option (List (ℕ × TimerType)))
      after_counts zero = some (record w { timers = []; sleep = none }, some output)
      after_counts (suc n) = do
        tombstones ← checked_sub (length timers) (suc n)
        let left = compacted w timers tombstones
        some (record w { timers = left; sleep = set_sleep left w.sleep }, some output)

  -- The inner `none` is `Poll::Pending`.
  unfoldable pub poll_timers :
      WebTimers T → ℕ → Bool → Option (WebTimers T × Option (List (ℕ × TimerType)))
  poll_timers w now false = some (w, none)
  poll_timers w now true =
      let (split, timers) =
        split_keys (record { deadline = now; id = 0; timer_type = once; is_system_timer = false })
          w.timers in
      let (timers', output, fired_once_count) = fire_keys w now split timers in
      finish timers' output fired_once_count
    where
      finish :
          List TimerKey
          → List (ℕ × TimerType)
          → ℕ
          → Option (WebTimers T × Option (List (ℕ × TimerType)))
      finish timers [] count = after_none w timers
      finish timers (o ∷ output) count = after_some w timers (o ∷ output) count

  -- The loop of poll_timers over the expired keys skips those whose timers have no data; its
  -- output is the ids and types of the others, in order; it counts those that fire once, and
  -- queues each that repeats again, an interval from now.
  pub fire_keys_lem :
      (w : WebTimers T) (now : ℕ) (ks timers : List TimerKey)
      → fire_keys w now ks timers ≡ (
        requeued now (retain_live w ks) timers,
        entries (retain_live w ks),
        once_in (retain_live w ks),
      )
  unfolding fire_keys retain_live
  fire_keys_lem w now [] timers = refl
  fire_keys_lem w now (k ∷ ks) timers = ground (
    arith,
    fire_keys_lem w now ks timers,
    fire_keys_lem w now ks (requeue now k k.timer_type timers),
  )
