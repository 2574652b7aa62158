-- ===== src/Device/Pulse.antt =====
-- `pulse` of `DeviceSessionMachine` (src/kegpulse/domain/device_machine.py).
use keg_pulse.Base.{
  ℕ, ◌+◌, max, false, Option, none, some, ℤ, pos, negsuc, leb, ltb, ◌||◌, if◌then◌else◌, length,
}
use keg_pulse.Models.{DeviceState, is_armed, is_settling}
use keg_pulse.Device.Defs.{
  ActiveDeviceEvent, DeviceSessionMachine, Outcome, ok, err, DeviceError, uint64_max,
  max_result_pulses, lifetime_saturated_fault, result_store_full_fault, session_saturated_fault,
}
use keg_pulse.Device.Tick.{validate_now, tick_at, allocate_sequence, finalize}
use keg_pulse.Device.Methods.{rest}

-- The lifetime counter saturates: an event with pulses is interrupted, and the call raises.
unfoldable pub saturate_lifetime : ℕ → DeviceSessionMachine → DeviceSessionMachine
unfolding finalize
saturate_lifetime now m =
    let s = record m { lifetime_pulses = uint64_max; fault = lifetime_saturated_fault } in
    elim m.active [
      | none ↦ s
      | some a ↦
          if ltb 0 a.pulses
          then (finalize DeviceState.interrupted now lifetime_saturated_fault s).1
          else s
    ]

-- `if deadline is not None and now_ms > deadline: self.tick(now_ms)`
unfoldable pub tick_past : Option ℕ → ℕ → DeviceSessionMachine → DeviceSessionMachine
tick_past none now m = m
tick_past (some deadline) now m = if ltb deadline now then (tick_at now m).1 else m

-- A captured pulse at an exact deadline wins. A later pulse first advances time.
unfoldable pub advance_to : ℕ → DeviceSessionMachine → DeviceSessionMachine
unfolding tick_past
advance_to now m = elim m.active [
  | none ↦ m
  | some a ↦
      if is_armed a.state
      then tick_past a.arm_deadline_ms now m
      else if is_settling a.state
      then tick_past a.settle_deadline_ms now m
      else m
]

unfoldable pub unattributed_event : ℕ → ℕ → ℕ → ActiveDeviceEvent
unattributed_event seq count now = record {
  event_seq = seq;
  session_id = none;
  attributed = false;
  state = DeviceState.pouring;
  pulses = count;
  armed_ms = now;
  started_ms = some now;
  last_pulse_ms = some now;
  arm_deadline_ms = none;
  settle_deadline_ms = none;
}

-- Flow with no event in progress: a new unattributed event, or the recovery counter if the
-- result store is full.
unfoldable pub begin_event : ℕ → ℕ → DeviceSessionMachine → Outcome (Unit {0})
unfolding allocate_sequence unattributed_event
begin_event count now m =
    if leb m.settings.result_capacity (length m.results)
    then (
      ok tt,
      record m { recovery_pulses = m.recovery_pulses + count; fault = result_store_full_fault },
    )
    else let (r, m') = allocate_sequence m in
      elim r [
        | err e ↦ (err e, m')
        | ok seq ↦ (
          ok tt,
          record m' {
            active = some (unattributed_event seq count now);
            state = DeviceState.pouring;
          },
        )
      ]

-- The event in progress after `count` more pulses
unfoldable pub extended : ActiveDeviceEvent → ℕ → ℕ → ActiveDeviceEvent
extended a count now = record a {
  started_ms = if is_armed a.state then some now else a.started_ms;
  pulses = a.pulses + count;
  last_pulse_ms = some now;
  settle_deadline_ms = none;
  state = DeviceState.pouring;
}

-- The event's counter saturates: it is interrupted at the greatest storable count.
unfoldable pub saturate_session :
    ActiveDeviceEvent → ℕ → DeviceSessionMachine → DeviceSessionMachine
unfolding finalize
saturate_session a now m =
    let s = record m {
      active = some (record a { pulses = max_result_pulses });
      fault = session_saturated_fault;
    } in
    (finalize DeviceState.interrupted now session_saturated_fault s).1

-- Flow during an event
unfoldable pub extend_event : ActiveDeviceEvent → ℕ → ℕ → DeviceSessionMachine → Outcome (Unit {0})
unfolding extended saturate_session
extend_event a count now m =
    if ltb max_result_pulses a.pulses || ltb max_result_pulses (a.pulses + count)
    then (err DeviceError.session_saturated, saturate_session a now m)
    else (ok tt, record m { active = some (extended a count now); state = DeviceState.pouring })

-- The pulses enter the lifetime counter, and then an event or the recovery counter.
unfoldable pub count_pulses : ℕ → ℕ → DeviceSessionMachine → Outcome (Unit {0})
unfolding begin_event extend_event
count_pulses count now m =
    let counted = record m {
      lifetime_pulses = m.lifetime_pulses + count;
      last_now_ms = max m.last_now_ms now;
    } in
    elim m.active [
      | none ↦ begin_event count now counted
      | some a ↦ extend_event a count now counted
    ]

unfoldable pub pulse_at : ℕ → ℕ → DeviceSessionMachine → Outcome (Unit {0})
unfolding saturate_lifetime advance_to rest count_pulses
pulse_at count now m =
    if ltb uint64_max (m.lifetime_pulses + count)
    then (err DeviceError.lifetime_saturated, saturate_lifetime now m)
    else count_pulses count now (rest (advance_to now m))

unfoldable pub pulse : ℤ → ℤ → DeviceSessionMachine → Outcome (Unit {0})
unfolding validate_now
pulse count now_ms m = elim (validate_now now_ms) [
  | err e ↦ (err e, m)
  | ok now ↦ elim count [
    | pos n ↦ if leb n 0 then (err DeviceError.bad_count, m) else pulse_at n now m
    | negsuc n ↦ (err DeviceError.bad_count, m)
  ]
]
