-- ===== src/Device/Tests.antt =====
-- Runs of the device session machine on concrete inputs.
use keg_pulse.Base.{
  ◌+◌, ◌^◌, ◌<◌, ◌≡◌, ◌⊎◌, refl, true, none, some, List, [], ◌∷◌, pos, arith, is_none, inl,
}
use keg_pulse.Base.Text.{Text, codes}
use keg_pulse.Device.Defs.{
  DeviceSessionMachine, ActiveDeviceEvent, Settings, ok, err, no_fault, uint32_max, DeviceError,
  lookup, insert,
}
use keg_pulse.Device.Methods.{
  create, arm, arm_checked, is_bad_session, is_active_event, retained, arm_ttl, arm_new,
  armed_event, acknowledge,
}
use keg_pulse.Device.Tick.{tick, tick_at, validate_now, allocate_sequence}
use keg_pulse.Device.Pulse.{pulse, pulse_at, extended}
use keg_pulse.Models.{DeviceState, DeviceResult}
use keg_pulse.Device.Invariant.{IsWellFormed}
use keg_pulse.Device.Preserve.{pulse-IsWellFormed, tick-IsWellFormed}
use keg_pulse.Device.History.{Call, apply, run, create-run-IsWellFormed}
use keg_pulse.Device.Timing.{tick_at-tick_at, tick_at_completes}
use keg_pulse.Device.Delivery.{lookup-run, arm-arm, acknowledge-acknowledge}
use keg_pulse.Device.Accounting.{accounted, pulse-accounted}
use keg_pulse.Device.Balance.{run-balance, released_by}
use keg_pulse.Device.Deadline.{pulse_by_deadline, pulse_exhausted}

abbrev default_settings : Settings
default_settings = record {
  device_id = codes "4B454750554C5345";
  arm_timeout_ms = 15000;
  flow_gap_ms = 750;
  settling_ms = 1500;
  result_capacity = 4;
}

abbrev sid : Text
sid = codes "a"

abbrev fresh : DeviceSessionMachine
fresh = record {
  settings = default_settings;
  boot_id = codes "0000000000000001";
  state = DeviceState.idle;
  lifetime_pulses = 0;
  next_event_seq = 1;
  active = none;
  results = [];
  recovery_pulses = 0;
  fault = no_fault;
  last_now_ms = 0;
}

create_default : create default_settings (codes "0000000000000001") ≡ ok fresh
unfolding create
create_default = refl

-- Armed at 10, pulses at 100, quiet: complete at 100 + 750 + 1500.
pour : DeviceSessionMachine
unfolding arm pulse tick arm_checked is_bad_session is_active_event retained arm_ttl arm_new tick_at
    pulse_at lookup insert
pour =
    let armed = (arm sid (pos 1) (pos 10) none fresh).1 in
    let poured = (pulse (pos 25) (pos 100) armed).1 in (tick (pos 9000) poured).1

pour_ends :
    pour.results
    ≡ (
      1,
      record {
        device_id = codes "4B454750554C5345";
        boot_id = codes "0000000000000001";
        event_seq = 1;
        session_id = some sid;
        attributed = true;
        status = DeviceState.complete;
        raw_pulses = 25;
        lifetime_pulses = 25;
        started_ms = 100;
        ended_ms = 2350;
        fault = no_fault;
      },
    )
      ∷ []
unfolding pour
pour_ends = refl

-- Armed at 10 for the default time
abbrev arm_calls : List Call
arm_calls = Call.arms sid (pos 1) (pos 10) none ∷ []

armed : DeviceSessionMachine
unfolding run apply arm validate_now arm_checked is_bad_session is_active_event retained arm_ttl
    arm_new tick_at lookup allocate_sequence armed_event
armed = run arm_calls fresh

armed-IsWellFormed : IsWellFormed armed
unfolding armed
armed-IsWellFormed =
    create-run-IsWellFormed default_settings (codes "0000000000000001") arm_calls create_default
      (tt, tt)

-- The whole pour as calls
abbrev pour_calls : List Call
pour_calls =
    Call.arms sid (pos 1) (pos 10) none
    ∷ Call.pulses (pos 25) (pos 100)
    ∷ Call.ticks (pos 9000)
    ∷ []

create-run-IsWellFormed_example : IsWellFormed (run pour_calls fresh)
create-run-IsWellFormed_example =
    create-run-IsWellFormed default_settings (codes "0000000000000001") pour_calls create_default
      (tt, (ground arith, (tt, tt)))

tick_at-tick_at_example : (tick_at 20000 (tick_at 500 armed).1).1 ≡ (tick_at 20000 armed).1
tick_at-tick_at_example = tick_at-tick_at 500 20000 armed armed-IsWellFormed (omega arith)

arm-arm_example :
    arm sid (pos 1) (pos 20) none (arm sid (pos 1) (pos 10) none fresh).1
    ≡ (ok true, (tick_at 20 (arm sid (pos 1) (pos 10) none fresh).1).1)
arm-arm_example = arm-arm sid (pos 1) 10 20 none none fresh (unfold armed arm in refl)

acknowledge-acknowledge_example :
    let (already, m') = acknowledge (pos 1) armed in
    (lookup 1 m'.results ≡ none)
    × (already ≡ is_none (lookup 1 armed.results))
    × (acknowledge (pos 1) m' ≡ (true, m'))
acknowledge-acknowledge_example = acknowledge-acknowledge 1 armed armed-IsWellFormed

pulse-accounted_example :
    (accounted (pulse (pos 25) (pos 100) armed).1 ≡ accounted armed + 25)
    × ((pulse (pos 25) (pos 100) armed).1.lifetime_pulses ≡ armed.lifetime_pulses + 25)
pulse-accounted_example =
    pulse-accounted 25 100 armed armed-IsWellFormed (unfold armed pulse pulse_at in refl)

fresh-IsWellFormed : IsWellFormed fresh
unfolding run
fresh-IsWellFormed =
    create-run-IsWellFormed default_settings (codes "0000000000000001") [] create_default tt

run-balance_example :
    (run pour_calls fresh).lifetime_pulses + accounted fresh
    ≡ accounted (run pour_calls fresh) + fresh.lifetime_pulses + released_by pour_calls fresh
run-balance_example =
    run-balance pour_calls fresh fresh-IsWellFormed
      (tt, tt, (inl (unfold apply armed arm pulse pulse_at in refl), ground arith, (tt, tt, tt)))

-- The pulses have come, and the pour is over at 100 + 750 + 1500.
poured : DeviceSessionMachine
unfolding armed pulse pulse_at
poured = (pulse (pos 25) (pos 100) armed).1

poured-IsWellFormed : IsWellFormed poured
unfolding poured
poured-IsWellFormed = pulse-IsWellFormed (pos 25) (pos 100) armed (ground arith) armed-IsWellFormed

poured_event : ActiveDeviceEvent
unfolding armed_event extended
poured_event = extended (armed_event 1 sid 10 15000) 25 100

tick_at_completes_example :
    (r : DeviceResult) × ((tick_at 9000 poured).0 ≡ ok (some r))
    × (lookup 1 (tick_at 9000 poured).1.results ≡ some r)
    × ((tick_at 9000 poured).1.active ≡ none)
    × ((tick_at 9000 poured).1.state ≡ DeviceState.complete)
    × (r.status ≡ DeviceState.complete)
    × (r.event_seq ≡ 1)
    × (r.session_id ≡ some sid)
    × (r.attributed ≡ true)
    × (r.raw_pulses ≡ 25)
    × (r.started_ms ≡ 100)
    × (r.ended_ms ≡ 2350)
unfolding poured_event poured
tick_at_completes_example =
    tick_at_completes 9000 100 100 poured_event poured poured-IsWellFormed refl (omega arith) refl
      refl (omega arith)

pulse_by_deadline_example :
    (b : ActiveDeviceEvent) × ((pulse (pos 25) (pos 15010) armed).0 ≡ ok tt)
    × ((pulse (pos 25) (pos 15010) armed).1.active ≡ some b)
    × ((pulse (pos 25) (pos 15010) armed).1.state ≡ DeviceState.pouring)
    × ((pulse (pos 25) (pos 15010) armed).1.results ≡ armed.results)
    × (b.event_seq ≡ 1)
    × (b.session_id ≡ some sid)
    × (b.attributed ≡ true)
    × (b.state ≡ DeviceState.pouring)
    × (b.pulses ≡ 25)
    × (b.started_ms ≡ some 15010)
    × (b.last_pulse_ms ≡ some 15010)
    × (b.settle_deadline_ms ≡ none)
unfolding armed
pulse_by_deadline_example =
    pulse_by_deadline 25 15010 15010 (armed_event 1 sid 10 15000) armed armed-IsWellFormed refl refl
      refl (omega arith) (omega arith) (omega arith)

-- No sequence number is left.
abbrev exhausted : DeviceSessionMachine
exhausted = record fresh { next_event_seq = 2 ^ 32 }

exhausted-IsWellFormed : IsWellFormed exhausted
exhausted-IsWellFormed = ground arith

pulse_exhausted_example :
    ((pulse (pos 5) (pos 20) exhausted).1.lifetime_pulses ≡ exhausted.lifetime_pulses + 5)
    × ((((pulse (pos 5) (pos 20) exhausted).0 ≡ ok tt)
          × (accounted (pulse (pos 5) (pos 20) exhausted).1 ≡ accounted exhausted + 5))
        ⊎ (((pulse (pos 5) (pos 20) exhausted).0 ≡ err DeviceError.sequence_exhausted)
            × (uint32_max < exhausted.next_event_seq)
            × (accounted (pulse (pos 5) (pos 20) exhausted).1 ≡ accounted exhausted)))
pulse_exhausted_example =
    pulse_exhausted 5 20 exhausted exhausted-IsWellFormed (omega arith) (omega arith)

abbrev pour_result : DeviceResult
pour_result = record {
  device_id = codes "4B454750554C5345";
  boot_id = codes "0000000000000001";
  event_seq = 1;
  session_id = some sid;
  attributed = true;
  status = DeviceState.complete;
  raw_pulses = 25;
  lifetime_pulses = 25;
  started_ms = 100;
  ended_ms = 2350;
  fault = no_fault;
}

pour-IsWellFormed : IsWellFormed pour
unfolding pour poured
pour-IsWellFormed = tick-IsWellFormed (pos 9000) poured poured-IsWellFormed

-- Another session is armed and its event released.
abbrev later_calls : List Call
later_calls = Call.arms sid (pos 2) (pos 9100) none ∷ Call.acknowledges (pos 2) ∷ []

lookup-run_example : lookup 1 (run later_calls pour).results ≡ some pour_result
lookup-run_example =
    lookup-run 1 pour_result later_calls pour (tt, (tt, tt)) (tt, (λ e. ground arith, tt))
      pour-IsWellFormed (unfold pour in refl)
