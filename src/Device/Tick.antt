-- ===== src/Device/Tick.antt =====
-- `_finalize`, `tick` and `_allocate_sequence` of src/kegpulse/domain/device_machine.py.
use keg_pulse.Base.{ℕ, ◌+◌, max, Option, none, some, ℤ, pos, negsuc, leb, ltb, if◌then◌else◌}
use keg_pulse.Base.Text.{Text}
use keg_pulse.Models.{DeviceState, DeviceResult, is_armed, is_pouring, is_settling}
use keg_pulse.Device.Defs.{
  ActiveDeviceEvent, DeviceSessionMachine, Outcome, Result, ok, err, DeviceError, insert,
  uint32_max, no_fault, sequence_exhausted_fault,
}

-- `_validate_now`: a negative time is refused.
unfoldable pub validate_now : ℤ → Result ℕ
validate_now (pos now) = ok now
validate_now (negsuc _) = err DeviceError.bad_now

-- The value of an optional field, or another one
unfoldable pub or_else {ℓ} : {A : Type ℓ} → Option A → A → A
or_else none d = d
or_else (some a) d = a

unfoldable pub result_of :
    ActiveDeviceEvent → DeviceState → ℕ → Text → DeviceSessionMachine → DeviceResult
result_of a status ended_ms fault m = record {
  device_id = m.settings.device_id;
  boot_id = m.boot_id;
  event_seq = a.event_seq;
  session_id = a.session_id;
  attributed = a.attributed;
  status = status;
  raw_pulses = a.pulses;
  lifetime_pulses = m.lifetime_pulses;
  started_ms = or_else a.started_ms a.armed_ms;
  ended_ms = ended_ms;
  fault = fault;
}

unfoldable pub finalize : DeviceState → ℕ → Text → DeviceSessionMachine → Outcome DeviceResult
unfolding result_of or_else
finalize status ended_ms fault m = elim m.active [
  | none ↦ (err DeviceError.no_active, m)
  | some a ↦ (
    ok (result_of a status ended_ms fault m),
    record m {
      results = insert a.event_seq (result_of a status ended_ms fault m) m.results;
      active = none;
      state = status;
    },
  )
]

-- `_allocate_sequence`
unfoldable pub allocate_sequence : DeviceSessionMachine → Outcome ℕ
allocate_sequence m =
    if ltb uint32_max m.next_event_seq
    then (err DeviceError.sequence_exhausted, record m { fault = sequence_exhausted_fault })
    else (ok m.next_event_seq, record m { next_event_seq = m.next_event_seq + 1 })

-- The result of a finalizing branch of `tick`
unfoldable pub finished : Outcome DeviceResult → Outcome (Option DeviceResult)
finished (ok r, m) = (ok (some r), m)
finished (err e, m) = (err e, m)

-- The branch of `tick` for an armed event: it times out at its deadline.
unfoldable pub tick_armed :
    ActiveDeviceEvent → ℕ → DeviceSessionMachine → Outcome (Option DeviceResult)
unfolding finished finalize
tick_armed a now m = elim a.arm_deadline_ms [
  | none ↦ (ok none, m)
  | some deadline ↦
      if leb deadline now
      then finished (finalize DeviceState.timed_out deadline no_fault m)
      else (ok none, m)
]

-- A pour without pulses for the flow gap begins to settle.
unfoldable pub begin_settling : ActiveDeviceEvent → ℕ → DeviceSessionMachine → DeviceSessionMachine
begin_settling a now m = elim a.last_pulse_ms [
  | none ↦ m
  | some last ↦
      let gap_at = last + m.settings.flow_gap_ms in
      if is_pouring a.state
      then (if leb gap_at now
          then record m {
            active = some (record a {
              state = DeviceState.settling;
              settle_deadline_ms = some (gap_at + m.settings.settling_ms);
            });
            state = DeviceState.settling;
          }
          else m)
      else m
]

-- A settled pour is complete at its deadline.
unfoldable pub complete_settled : ℕ → DeviceSessionMachine → Outcome (Option DeviceResult)
unfolding finished finalize
complete_settled now m = elim m.active [
  | none ↦ (ok none, m)
  | some a ↦ elim a.settle_deadline_ms [
    | none ↦ (ok none, m)
    | some deadline ↦
        if is_settling a.state
        then (if leb deadline now
            then finished (finalize DeviceState.complete deadline no_fault m)
            else (ok none, m))
        else (ok none, m)
  ]
]

unfoldable pub tick_active :
    ActiveDeviceEvent → ℕ → DeviceSessionMachine → Outcome (Option DeviceResult)
unfolding tick_armed begin_settling complete_settled
tick_active a now m =
    if is_armed a.state then tick_armed a now m else complete_settled now (begin_settling a now m)

-- `tick`, at a time that `_validate_now` accepts
unfoldable pub tick_at : ℕ → DeviceSessionMachine → Outcome (Option DeviceResult)
unfolding tick_active
tick_at now m =
    let seen = record m { last_now_ms = max m.last_now_ms now } in
    elim m.active [ none ↦ (ok none, seen) | some a ↦ tick_active a now seen ]

unfoldable pub tick : ℤ → DeviceSessionMachine → Outcome (Option DeviceResult)
unfolding validate_now
tick now_ms m = elim (validate_now now_ms) [ ok now ↦ tick_at now m | err e ↦ (err e, m) ]
