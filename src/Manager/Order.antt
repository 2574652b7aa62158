-- ===== src/Manager/Order.antt =====
-- The event queue of src/kegpulse/serialio/manager.py as its users see it: what `_queue_event` takes
-- comes out of `drain_events` in the same order.
use mathlib.Core.List.{append_assoc, append-nil}
use keg_pulse.Base.{
  ℕ, zero, suc, ◌+◌, ◌==◌, ◌||◌, ltb, ◌≤◌, ◌<◌, ◌≡◌, ◌⊎◌, refl, sym, ◌∙◌, ap, length-append, true,
  false, List, [], ◌∷◌, ◌++◌, arith, min, length, inl, inr, Bool-cases,
}
use keg_pulse.Coordinator.Events.{ManagerEvent}
use keg_pulse.Manager.{DeviceManager, queue_event, drain_events, take_events}

-- A use of the queue
pub data Use : Type 0 where
  queues : ManagerEvent → Use
  drains : ℕ → Use

-- What came of a series of uses: the events that were taken, those that were turned away, those that
-- were delivered, and the manager.
pub record Served : Type 0 where
  pub taken : List ManagerEvent
  pub refused : List ManagerEvent
  pub delivered : List ManagerEvent
  pub manager : DeviceManager

-- A first step, before what the later uses came to
abbrev before : Served → Served → Served
before first later = record {
  taken = first.taken ++ later.taken;
  refused = first.refused ++ later.refused;
  delivered = first.delivered ++ later.delivered;
  manager = later.manager;
}

unfoldable pub use_once : Use → DeviceManager → Served
use_once (Use.queues event) m =
    let (queued, m') = queue_event event m in
    elim queued [
      | true ↦ record { taken = event ∷ []; refused = []; delivered = []; manager = m' }
      | false ↦ record { taken = []; refused = event ∷ []; delivered = []; manager = m' }
    ]
use_once (Use.drains maximum) m =
    let (output, m') = drain_events maximum m in
    record { taken = []; refused = []; delivered = output; manager = m' }

unfoldable pub use_all : List Use → DeviceManager → Served
use_all [] m = record { taken = []; refused = []; delivered = []; manager = m }
use_all (u ∷ us) m = let first = use_once u m in before first (use_all us first.manager)

take_events-joined :
    (n : ℕ) (events : List ManagerEvent)
    → (take_events n events).0 ++ (take_events n events).1 ≡ events
unfolding take_events
take_events-joined zero events = refl
take_events-joined (suc n) [] = refl
take_events-joined (suc n) (e ∷ es) = ap (λ rest. e ∷ rest) (take_events-joined n es)

-- Nothing was refused, or the queue is bounded and the events that waited and were taken reach its
-- capacity.
abbrev pub RefusedWhenFull : DeviceManager → Served → Type 0
RefusedWhenFull m s =
    (s.refused ≡ [])
    ⊎ ((0 < m.event_capacity) × (m.event_capacity ≤ length m.events + length s.taken))

use_once-event_capacity :
    (u : Use) (m : DeviceManager) → (use_once u m).manager.event_capacity ≡ m.event_capacity
unfolding use_once queue_event drain_events
use_once-event_capacity (Use.queues event) m =
    elim (Bool-cases (m.event_capacity == 0 || ltb (length m.events) m.event_capacity)) [
      | inl e ↦ ground arith
      | inr e ↦ ground arith
    ]
use_once-event_capacity (Use.drains maximum) m = refl

use_once-RefusedWhenFull : (u : Use) (m : DeviceManager) → RefusedWhenFull m (use_once u m)
unfolding use_once queue_event drain_events
use_once-RefusedWhenFull (Use.queues event) m =
    elim (Bool-cases (m.event_capacity == 0 || ltb (length m.events) m.event_capacity)) [
      | inl e ↦ inl (ground arith)
      | inr e ↦ inr (ground arith, ground arith)
    ]
use_once-RefusedWhenFull (Use.drains maximum) m = inl refl

-- Events are neither lost nor repeated nor reordered.
abbrev InOrder : DeviceManager → Served → Type 0
InOrder m s =
    (m.events ++ s.taken ≡ s.delivered ++ s.manager.events)
    × (s.manager.overflow_count ≡ m.overflow_count + length s.refused)

use_once-InOrder : (u : Use) (m : DeviceManager) → InOrder m (use_once u m)
unfolding use_once queue_event drain_events
use_once-InOrder (Use.queues event) m =
    elim (Bool-cases (m.event_capacity == 0 || ltb (length m.events) m.event_capacity)) [
      | inl e ↦ ground arith
      | inr e ↦ ground (arith, append-nil m.events)
    ]
use_once-InOrder (Use.drains maximum) m =
    let joined = take_events-joined (min maximum 1000) m.events in
    (rw (append-nil m.events) (sym joined), ground arith)

-- No more can wait after a use than waited before or came with it.
waiting_lem :
    (u : Use) (m : DeviceManager)
    → length (use_once u m).manager.events ≤ length m.events + length (use_once u m).taken
waiting_lem u m =
    let first = use_once u m in
    let both = ap length (use_once-InOrder u m).0 in
    let left = length-append m.events first.taken in
    let right = length-append first.delivered first.manager.events in
    omega (arith, both, left, right)

-- Over any series of uses of the queue, the events that waited at first and then those that were
-- taken are, in this order, those that were delivered and then those that still wait; the overflow
-- count has grown by one for each event that was refused; and none was refused unless the queue is
-- bounded and the events that waited at first and those that were taken reach its capacity.
pub use_all-InOrder :
    (us : List Use) (m : DeviceManager)
    → (m.events ++ (use_all us m).taken ≡ (use_all us m).delivered ++ (use_all us m).manager.events)
      × ((use_all us m).manager.overflow_count ≡ m.overflow_count + length (use_all us m).refused)
      × (((use_all us m).refused ≡ [])
          ⊎ ((0 < m.event_capacity)
              × (m.event_capacity ≤ length m.events + length (use_all us m).taken)))
unfolding use_all
use_all-InOrder [] m = (append-nil m.events, ground arith, inl refl)
use_all-InOrder (u ∷ us) m =
    let first = use_once u m in
    let later = use_all us first.manager in
    let (waits, counts) = use_once-InOrder u m in
    let (waits', counts', full') = use_all-InOrder us first.manager in
    let taken = length-append first.taken later.taken in
    (
      sym (append_assoc m.events first.taken later.taken)
          ∙ ap (λ x. x ++ later.taken) waits
          ∙ append_assoc first.delivered first.manager.events later.taken
          ∙ ap (λ x. first.delivered ++ x) waits'
          ∙ sym (append_assoc first.delivered later.delivered later.manager.events),
      omega (arith, counts, counts', length-append first.refused later.refused),
      elim (use_once-RefusedWhenFull u m) [
        | inr (bounded, full) ↦ inr (bounded, omega (arith, taken, full))
        | inl none_refused ↦ elim full' [
          | inl none_later ↦ inl (rw (none_refused, none_later) refl)
          | inr (bounded, full) ↦
              let same = use_once-event_capacity u m in
              let wait = waiting_lem u m in
              inr (omega (arith, same, bounded), omega (arith, same, full, taken, wait))
        ]
      ],
    )
