-- ===== src/Device/Preserve.antt =====
-- Every method of the device session machine keeps it well formed, whether it returns or raises.
use keg_pulse.Base.{
  ℕ, ◌+◌, ◌≤◌, ◌<◌, ◌≡◌, refl, ◌⊎◌, inl, inr, Option, none, some, arith, length, max, ℤ, pos,
  negsuc, true, is_number, Option-cases,
}
use keg_pulse.Base.Text.{Text}
use keg_pulse.Models.{DeviceState}
use keg_pulse.Device.Defs.{
  ActiveDeviceEvent, DeviceSessionMachine, uint64_max, max_result_pulses, no_fault,
  session_saturated_fault, lifetime_saturated_fault, erase_at,
}
use keg_pulse.Device.Tick.{tick_at, tick}
use keg_pulse.Device.Methods.{
  arm_new, arm_checked, arm, cancel_active, cancel_checked, cancel, rest, acknowledge, reset,
  arm_ttl,
}
use keg_pulse.Device.Pulse.{
  saturate_lifetime, advance_to, begin_event, extend_event, count_pulses, pulse_at, pulse,
  tick_past,
}
use keg_pulse.Device.Store.{
  pulses_of, InOrder-weaken, erase_at-InOrder, length-erase_at, pulses_of-erase_at,
}
use keg_pulse.Device.Invariant.{
  IsWellFormed, Finishable, Resting, InRange, finalize-Resting, tick_at-IsWellFormed,
}

-- A count that one result can hold; counts that are not positive are refused.
abbrev pub IsStorable : ℤ → Type 0
IsStorable (pos n) = n ≤ max_result_pulses
IsStorable (negsuc n) = Unit

tick_past-IsWellFormed :
    (o : Option ℕ) (now : ℕ) (m : DeviceSessionMachine)
    → IsWellFormed m
    → IsWellFormed (tick_past o now m)
unfolding tick_past
tick_past-IsWellFormed none now m w = w
tick_past-IsWellFormed (some d) now m w = ground (arith, tick_at-IsWellFormed now m w)

pub advance_to-IsWellFormed :
    (now : ℕ) (m : DeviceSessionMachine) → IsWellFormed m → IsWellFormed (advance_to now m)
unfolding advance_to
advance_to-IsWellFormed now m w = elim (Option-cases m.active) [
  | inl n ↦ ground arith
  | inr (a, e) ↦ ground (
    arith,
    tick_past-IsWellFormed a.arm_deadline_ms now m w,
    tick_past-IsWellFormed a.settle_deadline_ms now m w,
  )
]

pub rest-IsWellFormed : (m : DeviceSessionMachine) → IsWellFormed m → IsWellFormed (rest m)
unfolding rest
rest-IsWellFormed m w = ground arith

-- With no event in progress the rested machine is idle.
begin_event-IsWellFormed :
    (count now : ℕ) (m : DeviceSessionMachine)
    → m.active ≡ none
    → 0 < count
    → count ≤ max_result_pulses
    → Resting m
    → pulses_of m.results + m.recovery_pulses + count ≤ m.lifetime_pulses
    → InRange m
    → IsWellFormed (begin_event count now m).1
unfolding begin_event
begin_event-IsWellFormed count now m e p b h s r = ground arith

extend_event-IsWellFormed :
    (a : ActiveDeviceEvent) (count now : ℕ) (m : DeviceSessionMachine)
    → m.active ≡ some a
    → 0 < count
    → Finishable a m
    → pulses_of m.results + a.pulses + m.recovery_pulses + count ≤ m.lifetime_pulses
    → InRange m
    → IsWellFormed (extend_event a count now m).1
unfolding extend_event
extend_event-IsWellFormed a count now m e p f s r =
    let full = record a { pulses = max_result_pulses } in
    ground (
      arith,
      finalize-Resting DeviceState.interrupted now session_saturated_fault full
          (record m { active = some full; fault = session_saturated_fault }) refl refl,
    )

count_pulses-IsWellFormed :
    (count now : ℕ) (m : DeviceSessionMachine)
    → 0 < count
    → count ≤ max_result_pulses
    → m.lifetime_pulses + count ≤ uint64_max
    → IsWellFormed m
    → IsWellFormed (count_pulses count now m).1
unfolding count_pulses
count_pulses-IsWellFormed count now m p b s w =
    let counted = record m {
      lifetime_pulses = m.lifetime_pulses + count;
      last_now_ms = max m.last_now_ms now;
    } in
    elim (Option-cases m.active) [
      | inl n ↦ ground (arith, begin_event-IsWellFormed count now counted n p b)
      | inr (a, e) ↦ ground (arith, extend_event-IsWellFormed a count now counted e p)
    ]

saturate_lifetime-IsWellFormed :
    (now : ℕ) (m : DeviceSessionMachine) → IsWellFormed m → IsWellFormed (saturate_lifetime now m)
unfolding saturate_lifetime
saturate_lifetime-IsWellFormed now m w =
    let s = record m { lifetime_pulses = uint64_max; fault = lifetime_saturated_fault } in
    elim (Option-cases m.active) [
      | inl n ↦ ground arith
      | inr (a, e) ↦
          ground (
            arith,
            finalize-Resting DeviceState.interrupted now lifetime_saturated_fault a s e refl,
          )
    ]

-- Advancing time to a pulse counts none.
pub tick_at-lifetime :
    (now : ℕ) (m : DeviceSessionMachine) → (tick_at now m).1.lifetime_pulses ≡ m.lifetime_pulses
unfolding tick_at
tick_at-lifetime now m = ground arith

advance_to-lifetime :
    (now : ℕ) (m : DeviceSessionMachine) → (advance_to now m).lifetime_pulses ≡ m.lifetime_pulses
unfolding advance_to
advance_to-lifetime now m = ground (arith, tick_at-lifetime now m)

rest-lifetime : (m : DeviceSessionMachine) → (rest m).lifetime_pulses ≡ m.lifetime_pulses
unfolding rest
rest-lifetime m = ground arith

pulse_at-IsWellFormed :
    (count now : ℕ) (m : DeviceSessionMachine)
    → 0 < count
    → count ≤ max_result_pulses
    → IsWellFormed m
    → IsWellFormed (pulse_at count now m).1
unfolding pulse_at
pulse_at-IsWellFormed count now m p b w = ground (
  arith,
  saturate_lifetime-IsWellFormed now m w,
  advance_to-lifetime now m,
  rest-lifetime (advance_to now m),
  count_pulses-IsWellFormed count now (rest (advance_to now m)) p b,
  rest-IsWellFormed (advance_to now m) (advance_to-IsWellFormed now m w),
)

-- `pulse` keeps the machine well formed at every count that a result can hold.
pub pulse-IsWellFormed :
    (count : ℤ) (now : ℤ) (m : DeviceSessionMachine)
    → IsStorable count
    → IsWellFormed m
    → IsWellFormed (pulse count now m).1
unfolding pulse
pulse-IsWellFormed (pos n) (pos now) m b w = ground (arith, pulse_at-IsWellFormed n now m)
pulse-IsWellFormed (negsuc n) (pos now) m b w = w
pulse-IsWellFormed count (negsuc now) m b w = w

pub tick-IsWellFormed :
    (now : ℤ) (m : DeviceSessionMachine) → IsWellFormed m → IsWellFormed (tick now m).1
unfolding tick
tick-IsWellFormed (pos now) m w = tick_at-IsWellFormed now m w
tick-IsWellFormed (negsuc now) m w = w

arm_new-IsWellFormed :
    (sid : Text) (now ttl : ℕ) (m : DeviceSessionMachine)
    → m.active ≡ none
    → length m.results < m.settings.result_capacity
    → IsWellFormed m
    → IsWellFormed (arm_new sid now ttl m).1
unfolding arm_new
arm_new-IsWellFormed sid now ttl m e c w = ground arith

-- `arm` leaves the machine as the tick left it, or starts a new event with room for it.
pub arm_checked_cases :
    (sid : Text) (seq : ℤ) (now : ℕ) (ttl_ms : Option ℤ) (m : DeviceSessionMachine)
    → ((arm_checked sid seq now ttl_ms m).1 ≡ m)
      ⊎ ((ttl : ℕ) × (arm_checked sid seq now ttl_ms m ≡ arm_new sid now ttl m)
          × (m.active ≡ none)
          × (length m.results < m.settings.result_capacity)
          × (is_number m.next_event_seq seq ≡ true)
          × (arm_ttl ttl_ms m.settings.arm_timeout_ms ≡ some ttl))
unfolding arm_checked
arm_checked_cases sid seq now ttl_ms m =
    elim (Option-cases (arm_ttl ttl_ms m.settings.arm_timeout_ms)) [
      | inl n ↦ inl (ground arith)
      | inr (ttl, e) ↦ ground arith
    ]

arm_checked-IsWellFormed :
    (sid : Text) (seq : ℤ) (now : ℕ) (ttl_ms : Option ℤ) (m : DeviceSessionMachine)
    → IsWellFormed m
    → IsWellFormed (arm_checked sid seq now ttl_ms m).1
arm_checked-IsWellFormed sid seq now ttl_ms m w = elim (arm_checked_cases sid seq now ttl_ms m) [
  | inl e ↦ rw e w
  | inr (ttl, e, n, c, q, t) ↦ rw e (arm_new-IsWellFormed sid now ttl m n c w)
]

-- `arm` keeps the machine well formed, on every branch.
pub arm-IsWellFormed :
    (sid : Text) (seq now : ℤ) (ttl_ms : Option ℤ) (m : DeviceSessionMachine)
    → IsWellFormed m
    → IsWellFormed (arm sid seq now ttl_ms m).1
unfolding arm
arm-IsWellFormed sid seq (pos now) ttl_ms m w =
    arm_checked-IsWellFormed sid seq now ttl_ms (tick_at now m).1 (tick_at-IsWellFormed now m w)
arm-IsWellFormed sid seq (negsuc now) ttl_ms m w = w

cancel_active-IsWellFormed :
    (a : ActiveDeviceEvent) (now : ℕ) (m : DeviceSessionMachine)
    → m.active ≡ some a
    → IsWellFormed m
    → IsWellFormed (cancel_active a now m).1
unfolding cancel_active
cancel_active-IsWellFormed a now m e w = ground (
  arith,
  finalize-Resting DeviceState.interrupted now no_fault a m e refl,
  InOrder-weaken 1 a.event_seq m.next_event_seq m.results,
)

cancel_checked-IsWellFormed :
    (seq : ℤ) (sid : Text) (now : ℕ) (m : DeviceSessionMachine)
    → IsWellFormed m
    → IsWellFormed (cancel_checked seq sid now m).1
unfolding cancel_checked
cancel_checked-IsWellFormed seq sid now m w = elim (Option-cases m.active) [
  | inl n ↦ ground arith
  | inr (a, e) ↦ ground (arith, cancel_active-IsWellFormed a now m e w)
]

pub cancel-IsWellFormed :
    (seq : ℤ) (sid : Text) (now : ℤ) (m : DeviceSessionMachine)
    → IsWellFormed m
    → IsWellFormed (cancel seq sid now m).1
unfolding cancel
cancel-IsWellFormed seq sid (pos now) m w =
    cancel_checked-IsWellFormed seq sid now (tick_at now m).1 (tick_at-IsWellFormed now m w)
cancel-IsWellFormed seq sid (negsuc now) m w = w

pub acknowledge-IsWellFormed :
    (seq : ℤ) (m : DeviceSessionMachine) → IsWellFormed m → IsWellFormed (acknowledge seq m).1
unfolding acknowledge
acknowledge-IsWellFormed seq m w =
    let m' = record m { results = erase_at seq m.results } in
    elim (Option-cases m.active) [
      | inl n ↦ ground (
        arith,
        length-erase_at seq m.results,
        pulses_of-erase_at seq m.results,
        erase_at-InOrder 1 seq m.next_event_seq m.results,
      )
      | inr (a, e) ↦ ground (
        arith,
        length-erase_at seq m.results,
        pulses_of-erase_at seq m.results,
        erase_at-InOrder 1 seq a.event_seq m.results,
      )
    ]

pub reset-IsWellFormed :
    (boot_id : Text) (now : ℕ) (m : DeviceSessionMachine) → IsWellFormed (reset boot_id now m)
unfolding reset
reset-IsWellFormed boot_id now m = ground arith
