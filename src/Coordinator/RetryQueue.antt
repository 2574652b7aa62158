-- ===== src/Coordinator/RetryQueue.antt =====
-- `_schedule_event_retry` and `_defer_behind_pending_measurement` of
-- src/kegpulse/application/coordinator.py.
use keg_pulse.Base.{
  ℕ, ◌+◌, Bool, true, false, ◌&&◌, ◌||◌, Option, none, some, [], ◌∷◌, ◌++◌, ltb, leb, ◌==◌, not,
  max, length, if◌then◌else◌, ℤ,
}
use keg_pulse.Coordinator.Events.{
  ManagerEvent, Retry, Queue, is_result, is_counters, is_measurement, same_identity, same_stream,
  counter_value, retry_delay, leb_ℤ, with_head, drop_replaceable,
}
use keg_pulse.Coordinator.Counters.{Diagnostic, Scheduled, schedule_counter_retry}

-- The queued entry with a new attempt: a result keeps its event and its deadline.
unfoldable pub coalesced : ℕ → ManagerEvent → ℕ → Retry → Retry
coalesced now event attempt r = record {
  deadline = if is_result event then r.deadline else now + retry_delay attempt;
  attempt = max attempt r.attempt;
  event = if is_result event then r.event else event;
}

-- The first entry of the same identity takes the attempt; None if there is none.
unfoldable pub coalesce : ℕ → ManagerEvent → ℕ → Queue → Option Queue
unfolding coalesced same_identity
coalesce now event attempt [] = none
coalesce now event attempt (r ∷ q) =
    let rest = coalesce now event attempt q in
    if same_identity r.event event
    then some (coalesced now event attempt r ∷ q)
    else with_head r rest

-- A new entry, if there is room or an entry can be dropped
unfoldable pub append_retry : Retry → Queue → Scheduled
append_retry r q =
    if leb 128 (length q)
    then elim (drop_replaceable q) [
      | none ↦ (some Diagnostic.queue_full, q)
      | some kept ↦ (none, kept ++ (r ∷ []))
    ]
    else (none, q ++ (r ∷ []))

-- `_schedule_event_retry`; `now` is the loop's time.
unfoldable pub schedule_event_retry : ℕ → ManagerEvent → ℕ → Queue → Scheduled
schedule_event_retry now event attempt q =
    if ltb 12 attempt && not (is_measurement event)
    then (some Diagnostic.abandoned, q)
    else if is_counters event
    then schedule_counter_retry now event attempt q
    else elim (coalesce now event attempt q) [
      | some q' ↦ (none, q')
      | none ↦
          append_retry
            (record { deadline = now + retry_delay attempt; attempt = attempt; event = event }) q
    ]

-- A queued result of the same identity
unfoldable pub has_pending_result : ManagerEvent → Queue → Bool
has_pending_result event [] = false
has_pending_result event (r ∷ q) =
    is_result r.event && same_identity r.event event || has_pending_result event q

-- A reading waits behind this queued one: either value is unknown, the queued one is lower, or it is
-- equal and the reading is fresh.
unfoldable pub waits_behind : Option ℤ → ℕ → Option ℤ → Bool
unfolding leb_ℤ
waits_behind none attempt queued = true
waits_behind (some value) attempt none = true
waits_behind (some value) attempt (some queued) =
    not (leb_ℤ value queued) || leb_ℤ queued value && leb_ℤ value queued && attempt == 0

unfoldable pub has_earlier_reading : ManagerEvent → ℕ → Queue → Bool
unfolding waits_behind
has_earlier_reading event attempt [] = false
has_earlier_reading event attempt (r ∷ q) =
    same_stream r.event event && waits_behind (counter_value event) attempt (counter_value r.event)
    || has_earlier_reading event attempt q

-- `_defer_behind_pending_measurement`: whether the event is deferred, and the queue
unfoldable pub defer_behind_pending_measurement : ℕ → ManagerEvent → ℕ → Queue → Bool × Scheduled
unfolding has_pending_result has_earlier_reading
defer_behind_pending_measurement now event attempt q =
    let deferred =
      if is_result event
      then attempt == 0 && has_pending_result event q
      else is_counters event && has_earlier_reading event attempt q in
    (deferred, if deferred then schedule_event_retry now event attempt q else (none, q))
