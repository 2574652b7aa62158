-- ===== src/Device/Accounting.antt =====
-- Where counted pulses are: every pulse that the device session machine has counted is in a
-- retained result, in the event in progress or in the recovery counter.
use keg_pulse.Base.{ℕ, ◌+◌, ◌≡◌, inl, inr, Option, none, some, arith, max, pos, Option-cases}
use keg_pulse.Base.Text.{Text}
use keg_pulse.Models.{DeviceState}
use keg_pulse.Device.Defs.{ActiveDeviceEvent, DeviceSessionMachine, no_fault, ok}
use keg_pulse.Device.Tick.{
  finalize, result_of, tick_at, tick_armed, begin_settling, complete_settled,
}
use keg_pulse.Device.Methods.{rest}
use keg_pulse.Device.Pulse.{advance_to, count_pulses, pulse_at, pulse}
use keg_pulse.Device.Store.{pulses_of, pulses_of-insert}
use keg_pulse.Device.Invariant.{IsWellFormed, Finishable, begin_settling-IsWellFormed}

abbrev pub event_pulses : Option ActiveDeviceEvent → ℕ
event_pulses none = 0
event_pulses (some a) = a.pulses

-- The pulses that the machine can still report.
abbrev pub accounted : DeviceSessionMachine → ℕ
accounted m = pulses_of m.results + event_pulses m.active + m.recovery_pulses

-- The counters of two states agree.
abbrev pub SameCounts : DeviceSessionMachine → DeviceSessionMachine → Type 0
SameCounts m m' = (accounted m' ≡ accounted m) × (m'.lifetime_pulses ≡ m.lifetime_pulses)

pub finalize-SameCounts :
    (status : DeviceState) (ended : ℕ) (fault : Text) (a : ActiveDeviceEvent)
    (m : DeviceSessionMachine)
    → m.active ≡ some a
    → Finishable a m
    → SameCounts m (finalize status ended fault m).1
unfolding finalize
finalize-SameCounts status ended fault a m e f =
    ground (arith, pulses_of-insert 1 a.event_seq (result_of a status ended fault m) m.results f.0)

tick_armed-SameCounts :
    (a : ActiveDeviceEvent) (now : ℕ) (m : DeviceSessionMachine)
    → m.active ≡ some a
    → IsWellFormed m
    → SameCounts m (tick_armed a now m).1
unfolding tick_armed
tick_armed-SameCounts a now m e w = elim (Option-cases a.arm_deadline_ms) [
  | inl n ↦ ground arith
  | inr (d, q) ↦ ground (arith, finalize-SameCounts DeviceState.timed_out d no_fault a m e)
]

complete_settled-SameCounts :
    (now : ℕ) (m : DeviceSessionMachine) → IsWellFormed m → SameCounts m (complete_settled now m).1
unfolding complete_settled
complete_settled-SameCounts now m w = elim (Option-cases m.active) [
  | inl n ↦ ground arith
  | inr (a, e) ↦ elim (Option-cases a.settle_deadline_ms) [
    | inl n ↦ ground arith
    | inr (d, q) ↦ ground (arith, finalize-SameCounts DeviceState.complete d no_fault a m e)
  ]
]

begin_settling-SameCounts :
    (a : ActiveDeviceEvent) (now : ℕ) (m : DeviceSessionMachine)
    → m.active ≡ some a
    → SameCounts m (begin_settling a now m)
unfolding begin_settling
begin_settling-SameCounts a now m e = ground arith

-- Advancing time moves no pulse.
pub tick_at-SameCounts :
    (now : ℕ) (m : DeviceSessionMachine) → IsWellFormed m → SameCounts m (tick_at now m).1
unfolding tick_at
tick_at-SameCounts now m w =
    let seen = record m { last_now_ms = max m.last_now_ms now } in
    elim (Option-cases m.active) [
      | inl n ↦ ground arith
      | inr (a, e) ↦ ground (
        arith,
        tick_armed-SameCounts a now seen e,
        begin_settling-SameCounts a now seen e,
        begin_settling-IsWellFormed a now seen e,
        complete_settled-SameCounts now (begin_settling a now seen),
      )
    ]

pub advance_to-SameCounts :
    (now : ℕ) (m : DeviceSessionMachine) → IsWellFormed m → SameCounts m (advance_to now m)
unfolding advance_to
advance_to-SameCounts now m w = ground (arith, tick_at-SameCounts now m w)

pub rest-SameCounts : (m : DeviceSessionMachine) → SameCounts m (rest m)
unfolding rest
rest-SameCounts m = ground arith

-- Counted pulses go to one place.
count_pulses-accounted :
    (count now : ℕ) (m : DeviceSessionMachine)
    → (count_pulses count now m).0 ≡ ok tt
    → (accounted (count_pulses count now m).1 ≡ accounted m + count)
      × ((count_pulses count now m).1.lifetime_pulses ≡ m.lifetime_pulses + count)
unfolding count_pulses
count_pulses-accounted count now m h = ground arith

-- A pulse call that returns adds its whole count to the lifetime counter and to what the machine
-- can report, on every branch: to a new event, to the event in progress or to recovery.
pub pulse-accounted :
    (count now : ℕ) (m : DeviceSessionMachine)
    → IsWellFormed m
    → (pulse (pos count) (pos now) m).0 ≡ ok tt
    → (accounted (pulse (pos count) (pos now) m).1 ≡ accounted m + count)
      × ((pulse (pos count) (pos now) m).1.lifetime_pulses ≡ m.lifetime_pulses + count)
unfolding pulse pulse_at
pulse-accounted count now m w h = ground (
  arith,
  advance_to-SameCounts now m w,
  rest-SameCounts (advance_to now m),
  count_pulses-accounted count now (rest (advance_to now m)),
)
