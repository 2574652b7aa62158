-- ===== src/Device/Invariant.antt =====
-- The well-formedness invariant of the device session machine, kept by `tick`.
use keg_pulse.Base.{
  ℕ, suc, ◌+◌, ◌≤◌, ◌<◌, ◌≡◌, refl, ◌⊎◌, inl, inr, Option, none, some, arith, length, max, true,
  Option-cases,
}
use keg_pulse.Models.{DeviceState, is_terminal}
use keg_pulse.Device.Defs.{
  ActiveDeviceEvent, DeviceSessionMachine, Settings, insert, uint32_max, uint64_max,
  max_result_pulses, no_fault,
}
use keg_pulse.Base.Text.{Text}
use keg_pulse.Device.Tick.{
  finalize, result_of, tick_at, tick_armed, begin_settling, complete_settled,
}
use keg_pulse.Device.Store.{
  InOrder, pulses_of, InOrder-weaken, insert-InOrder, length-insert, pulses_of-insert,
}

-- What the state of an event in progress says of its fields.
abbrev pub Phase : Settings → ActiveDeviceEvent → Type 0
Phase s a =
    ((a.state ≡ DeviceState.armed)
      × (a.pulses ≡ 0)
      × (a.settle_deadline_ms ≡ none)
      × ((d : ℕ) × (a.arm_deadline_ms ≡ some d)))
    ⊎ ((a.state ≡ DeviceState.pouring)
        × (0 < a.pulses)
        × (a.settle_deadline_ms ≡ none)
        × ((l : ℕ) × (a.last_pulse_ms ≡ some l)))
    ⊎ ((a.state ≡ DeviceState.settling)
        × (0 < a.pulses)
        × ((l : ℕ) × (a.last_pulse_ms ≡ some l)
            × (a.settle_deadline_ms ≡ some (l + s.flow_gap_ms + s.settling_ms))))

-- What lets an event in progress be finalized: its number is new to the result store, which has
-- room for it, and its pulses are counted in the lifetime.
abbrev pub Finishable : ActiveDeviceEvent → DeviceSessionMachine → Type 0
Finishable a m =
    InOrder 1 a.event_seq m.results
    × (a.event_seq < m.next_event_seq)
    × (length m.results < m.settings.result_capacity)
    × (a.pulses ≤ max_result_pulses)
    × (pulses_of m.results + a.pulses + m.recovery_pulses ≤ m.lifetime_pulses)

abbrev pub Resting : DeviceSessionMachine → Type 0
Resting m =
    ((m.state ≡ DeviceState.idle) ⊎ (is_terminal m.state ≡ true))
    × InOrder 1 m.next_event_seq m.results
    × (length m.results ≤ m.settings.result_capacity)
    × (pulses_of m.results + m.recovery_pulses ≤ m.lifetime_pulses)

abbrev pub Holds : Option ActiveDeviceEvent → DeviceSessionMachine → Type 0
Holds none m = Resting m
Holds (some a) m = (m.state ≡ a.state) × Phase m.settings a × Finishable a m

-- The counters have not left their widths.
abbrev pub InRange : DeviceSessionMachine → Type 0
InRange m = (m.next_event_seq ≤ suc uint32_max) × (m.lifetime_pulses ≤ uint64_max)

abbrev pub IsWellFormed : DeviceSessionMachine → Type 0
IsWellFormed m = Holds m.active m × InRange m

pub finalize-Resting :
    (status : DeviceState) (ended : ℕ) (fault : Text) (a : ActiveDeviceEvent)
    (m : DeviceSessionMachine)
    → m.active ≡ some a
    → is_terminal status ≡ true
    → Finishable a m
    → Resting (finalize status ended fault m).1
unfolding finalize
finalize-Resting status ended fault a m e t f =
    let r = result_of a status ended fault m in
    let placed : InOrder 1 (suc a.event_seq) (insert a.event_seq r m.results) =
      insert-InOrder 1 a.event_seq r m.results f.0 refl f.3 in
    ground (
      arith,
      InOrder-weaken 1 (suc a.event_seq) m.next_event_seq (insert a.event_seq r m.results) f.1
          placed,
      length-insert 1 a.event_seq r m.results f.0,
      pulses_of-insert 1 a.event_seq r m.results f.0,
    )

tick_armed-IsWellFormed :
    (a : ActiveDeviceEvent) (now : ℕ) (m : DeviceSessionMachine)
    → m.active ≡ some a
    → IsWellFormed m
    → IsWellFormed (tick_armed a now m).1
unfolding tick_armed
tick_armed-IsWellFormed a now m e w = elim (Option-cases a.arm_deadline_ms) [
  | inl n ↦ rw (n, tick_armed) w
  | inr (d, q) ↦ ground (arith, finalize-Resting DeviceState.timed_out d no_fault a m e refl)
]

pub begin_settling-IsWellFormed :
    (a : ActiveDeviceEvent) (now : ℕ) (m : DeviceSessionMachine)
    → m.active ≡ some a
    → IsWellFormed m
    → IsWellFormed (begin_settling a now m)
unfolding begin_settling
begin_settling-IsWellFormed a now m e w = ground arith

complete_settled-IsWellFormed :
    (now : ℕ) (m : DeviceSessionMachine) → IsWellFormed m → IsWellFormed (complete_settled now m).1
unfolding complete_settled
complete_settled-IsWellFormed now m w = elim (Option-cases m.active) [
  | inl n ↦ ground arith
  | inr (a, e) ↦ elim (Option-cases a.settle_deadline_ms) [
    | inl n ↦ ground arith
    | inr (d, q) ↦ ground (arith, finalize-Resting DeviceState.complete d no_fault a m e refl)
  ]
]

-- Advancing time keeps the machine well formed.
pub tick_at-IsWellFormed :
    (now : ℕ) (m : DeviceSessionMachine) → IsWellFormed m → IsWellFormed (tick_at now m).1
unfolding tick_at
tick_at-IsWellFormed now m w =
    let seen = record m { last_now_ms = max m.last_now_ms now } in
    elim (Option-cases m.active) [
      | inl n ↦ ground arith
      | inr (a, e) ↦ ground (
        arith,
        tick_armed-IsWellFormed a now seen e,
        begin_settling-IsWellFormed a now seen e,
        complete_settled-IsWellFormed now (begin_settling a now seen),
      )
    ]
