-- ===== src/Coordinator/Counters.antt =====
-- `_schedule_counter_retry` of src/kegpulse/application/coordinator.py: cumulative counter readings
-- of one boot wait in the order of their values.
use keg_pulse.Base.{
  ℕ, ◌+◌, Bool, true, false, ◌&&◌, Option, none, some, [], ◌∷◌, ◌++◌, ltb, max, length,
  if◌then◌else◌, ℤ,
}
use keg_pulse.Coordinator.Events.{
  ManagerEvent, Retry, Queue, same_stream, counter_value, same_context, retry_delay, leb_ℤ,
  drop_replaceable,
}

-- A diagnostic of the queue, and the queue after the call
pub data Diagnostic : Type 0 where
  abandoned queue_full : Diagnostic

abbrev pub Scheduled : Type 0
Scheduled = Option Diagnostic × Queue

-- The entries of the event's stream, and the others, in their order
unfoldable pub split_stream : ManagerEvent → Queue → Queue × Queue
unfolding same_stream
split_stream event [] = ([], [])
split_stream event (r ∷ q) =
    let (boundaries, unrelated) = split_stream event q in
    if same_stream r.event event then (r ∷ boundaries, unrelated) else (boundaries, r ∷ unrelated)

-- The sort key's order: by value, those without one last
unfoldable pub value_le : Option ℤ → Option ℤ → Bool
unfolding leb_ℤ
value_le (some m) (some n) = leb_ℤ m n
value_le (some m) none = true
value_le none (some n) = false
value_le none none = true

-- `boundaries.sort(…)`, a stable sort
unfoldable pub place : Retry → Queue → Queue
unfolding value_le
place r [] = r ∷ []
place r (s ∷ q) =
    if value_le (counter_value r.event) (counter_value s.event) then r ∷ s ∷ q else s ∷ place r q

unfoldable pub sort : Queue → Queue
unfolding place
sort [] = []
sort (r ∷ q) = place r (sort q)

-- Two entries as one: an equal value keeps the earlier event, and a higher value in the same context
-- subsumes the lower one.
unfoldable pub merged : Retry → Retry → Option Retry
unfolding leb_ℤ
merged prior next = elim (counter_value next.event) [
  | none ↦ none
  | some value ↦ elim (counter_value prior.event) [
    | none ↦ none
    | some prior_value ↦
        if leb_ℤ value prior_value && leb_ℤ prior_value value
        then some (record prior { attempt = max prior.attempt next.attempt })
        else if same_context next.event prior.event
        then some (record {
          deadline = prior.deadline;
          attempt = max prior.attempt next.attempt;
          event = next.event;
        })
        else none
  ]
]

-- The loop that builds `normalized`; `prior` is its last entry so far.
unfoldable pub normalize_from : Retry → Queue → Queue
unfolding merged
normalize_from prior [] = prior ∷ []
normalize_from prior (next ∷ q) = elim (merged prior next) [
  | some both ↦ normalize_from both q
  | none ↦ prior ∷ normalize_from (record next { deadline = max next.deadline prior.deadline }) q
]

unfoldable pub normalize : Queue → Queue
unfolding normalize_from
normalize [] = []
normalize (r ∷ q) = normalize_from r q

-- `_schedule_counter_retry`; `now` is the loop's time.
unfoldable pub schedule_counter_retry : ℕ → ManagerEvent → ℕ → Queue → Scheduled
schedule_counter_retry now event attempt q =
    let candidate : Retry = record {
      deadline = now + retry_delay attempt;
      attempt = attempt;
      event = event;
    } in
    let (boundaries, unrelated) = split_stream event q in
    let normalized = normalize (sort (boundaries ++ (candidate ∷ []))) in
    if ltb 128 (length (unrelated ++ normalized))
    then elim (drop_replaceable unrelated) [
      | none ↦ (some Diagnostic.queue_full, q)
      | some kept ↦ (none, kept ++ normalized)
    ]
    else (none, unrelated ++ normalized)
