-- ===== src/Coordinator/Bounded.antt =====
-- The retry queue of the coordinator never holds more than 128 entries.
use keg_pulse.Base.{
  ℕ, suc, ◌+◌, ◌≤◌, ◌≡◌, refl, inl, inr, some, [], ◌∷◌, ◌++◌, arith, ltb, leb, max, length,
  length-append, Bool-cases, Option-cases,
}
use keg_pulse.Coordinator.Events.{ManagerEvent, Retry, Queue, drop_replaceable, retry_delay}
use keg_pulse.Coordinator.Counters.{
  split_stream, place, sort, merged, normalize_from, normalize, schedule_counter_retry,
}
use keg_pulse.Coordinator.RetryQueue.{coalesce, append_retry, schedule_event_retry}

drop_replaceable-length :
    (q kept : Queue) → drop_replaceable q ≡ some kept → suc (length kept) ≡ length q
unfolding drop_replaceable
drop_replaceable-length [] kept e = absurd (ground arith)
drop_replaceable-length (r ∷ q) kept e = elim (Option-cases (drop_replaceable q)) [
  | inl n ↦ ground arith
  | inr (rest, s) ↦ let ih = drop_replaceable-length q rest s in ground arith
]

split_stream-length :
    (event : ManagerEvent) (q : Queue)
    → length (split_stream event q).0 + length (split_stream event q).1 ≡ length q
unfolding split_stream
split_stream-length event [] = refl
split_stream-length event (r ∷ q) = let ih = split_stream-length event q in ground arith

place-length : (r : Retry) (q : Queue) → length (place r q) ≡ suc (length q)
unfolding place
place-length r [] = refl
place-length r (s ∷ q) = let ih = place-length r q in ground arith

sort-length : (q : Queue) → length (sort q) ≡ length q
unfolding sort
sort-length [] = refl
sort-length (r ∷ q) = let step = place-length r (sort q) in let ih = sort-length q in ground arith

normalize_from-length :
    (prior : Retry) (q : Queue) → length (normalize_from prior q) ≤ suc (length q)
unfolding normalize_from
normalize_from-length prior [] = ground arith
normalize_from-length prior (next ∷ q) = elim (Option-cases (merged prior next)) [
  | inl n ↦
      let later : Retry = record next { deadline = max next.deadline prior.deadline } in
      let ih = normalize_from-length later q in ground arith
  | inr (both, s) ↦ let ih = normalize_from-length both q in ground arith
]

normalize-length : (q : Queue) → length (normalize q) ≤ length q
unfolding normalize
normalize-length [] = ground arith
normalize-length (r ∷ q) = normalize_from-length r q

coalesce-length :
    (now : ℕ) (event : ManagerEvent) (attempt : ℕ) (q q' : Queue)
    → coalesce now event attempt q ≡ some q'
    → length q' ≡ length q
unfolding coalesce
coalesce-length now event attempt [] q' e = absurd (ground arith)
coalesce-length now event attempt (r ∷ q) q' e =
    elim (Option-cases (coalesce now event attempt q)) [
      | inl n ↦ ground arith
      | inr (rest, s) ↦ let ih = coalesce-length now event attempt q rest s in ground arith
    ]

schedule_counter_retry-bounded :
    (now : ℕ) (event : ManagerEvent) (attempt : ℕ) (q : Queue)
    → length q ≤ 128
    → length (schedule_counter_retry now event attempt q).1 ≤ 128
unfolding schedule_counter_retry
schedule_counter_retry-bounded now event attempt q h =
    let candidate : Retry = record {
      deadline = now + retry_delay attempt;
      attempt = attempt;
      event = event;
    } in
    let boundaries = (split_stream event q).0 in
    let unrelated = (split_stream event q).1 in
    let queued = boundaries ++ (candidate ∷ []) in
    let normalized = normalize (sort queued) in
    let parts = split_stream-length event q in
    let one = length-append boundaries (candidate ∷ []) in
    let sorted = sort-length queued in
    let fewer = normalize-length (sort queued) in
    elim (Bool-cases (ltb 128 (length (unrelated ++ normalized)))) [
      | inr e ↦ ground arith
      | inl e ↦ elim (Option-cases (drop_replaceable unrelated)) [
        | inl n ↦ ground arith
        | inr (kept, s) ↦
            let dropped = drop_replaceable-length unrelated kept s in
            let both = length-append kept normalized in
            let bound : length (kept ++ normalized) ≤ 128 = ground arith in ground arith
      ]
    ]

append_retry-bounded : (r : Retry) (q : Queue) → length q ≤ 128 → length (append_retry r q).1 ≤ 128
unfolding append_retry
append_retry-bounded r q h = elim (Bool-cases (leb 128 (length q))) [
  | inr e ↦ let more = length-append q (r ∷ []) in ground arith
  | inl e ↦ elim (Option-cases (drop_replaceable q)) [
    | inl n ↦ ground arith
    | inr (kept, s) ↦
        let dropped = drop_replaceable-length q kept s in
        let more = length-append kept (r ∷ []) in ground arith
  ]
]

-- Whatever event is scheduled for a retry, a queue of at most 128 entries stays one.
pub schedule_event_retry-bounded :
    (now : ℕ) (event : ManagerEvent) (attempt : ℕ) (q : Queue)
    → length q ≤ 128
    → length (schedule_event_retry now event attempt q).1 ≤ 128
unfolding schedule_event_retry
schedule_event_retry-bounded now event attempt q h =
    let counted = schedule_counter_retry-bounded now event attempt q h in
    let new : Retry = record {
      deadline = now + retry_delay attempt;
      attempt = attempt;
      event = event;
    } in
    let appended = append_retry-bounded new q h in
    elim (Option-cases (coalesce now event attempt q)) [
      | inl n ↦ ground arith
      | inr (q', s) ↦ let same = coalesce-length now event attempt q q' s in ground arith
    ]
