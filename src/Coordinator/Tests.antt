-- ===== src/Coordinator/Tests.antt =====
-- The retry queue on a concrete event, and the handling of a result.
use keg_pulse.Base.{◌≤◌, ◌≡◌, ◌⊎◌, refl, true, false, none, some, List, [], ◌∷◌, arith, length, All}
use keg_pulse.Base.Text.{codes}
use keg_pulse.Base.Text.{◌=t◌}
use keg_pulse.Base.Try.{ok, err}
use keg_pulse.Protocol.Frames.{Fields}
use keg_pulse.Calibration.Whole.{whole}
use keg_pulse.Base.Text.{opt_is}
use keg_pulse.Base.Rows.{find, has_row}
use keg_pulse.Protocol.Bytes.{all, is_hex, is_digit, is_value_char}
use keg_pulse.Measurement.States.{parse_state}
use keg_pulse.Measurement.Numbers.{parse_int, digits_from, print_decimal, print_from}
use keg_pulse.Measurement.Integrity.{
  need, field, is_fault_token, elapsed_u32, ensure_plausible_pulse_count, pulse_limit_for_elapsed,
}
use keg_pulse.Measurement.DeviceResults.{
  device_result, result_texts, text_field, check_texts, or_fail, is_device_id, is_consistent,
  is_session_id, is_lower_hex, parse_numbers, check_numbers, lift,
}
use keg_pulse.Store.Results.{
  finalize_device_result, result_session, finalize_in, provisional_of, event_name, record_result,
  record_pour, new_pour, commit_pour, insert_pour, insert_result, charge_result, factor_of,
  volume_of, quality_of, pour_keg, pour_calibration,
}
use keg_pulse.Store.Tables.{Database, Transaction}
use keg_pulse.Coordinator.Quarantine.{Action, is_attached, send_ack}
use keg_pulse.Coordinator.Handling.{Handlers, process_result, acknowledge_result}
use keg_pulse.Coordinator.Durable.{IsDurable, WasQuarantined, process_result-IsDurable}
use keg_pulse.Coordinator.Events.{ManagerEvent, Queue}
use keg_pulse.Coordinator.RetryQueue.{schedule_event_retry}
use keg_pulse.Coordinator.Bounded.{schedule_event_retry-bounded}

abbrev connected : ManagerEvent
connected = record {
  kind = codes "connected";
  frame = none;
  detail = [];
  device_id = codes "4B454750554C5345";
  boot_id = codes "0000000000000001";
  uptime_ms = none;
  context_captured = false;
  keg_id = none;
  calibration_id = none;
}

abbrev waiting : Queue
waiting = record { deadline = 100; attempt = 1; event = connected } ∷ []

schedule_event_retry-bounded_example : length (schedule_event_retry 50 connected 2 waiting).1 ≤ 128
schedule_event_retry-bounded_example =
    schedule_event_retry-bounded 50 connected 2 waiting (ground arith)

abbrev fields : Fields
fields =
    (codes "dev", codes "4B454750554C5345")
    ∷ (codes "boot", codes "0000000000000001")
    ∷ (codes "seq", codes "7")
    ∷ (codes "sid", codes "none")
    ∷ (codes "attr", codes "0")
    ∷ (codes "st", codes "complete")
    ∷ (codes "pulses", codes "580")
    ∷ (codes "life", codes "580")
    ∷ (codes "start", codes "1000")
    ∷ (codes "end", codes "9000")
    ∷ (codes "fault", codes "none")
    ∷ []

-- The controller that sent the result is attached.
abbrev handlers : Handlers
handlers = record {
  decimals = whole;
  surroundings = record {
    dumps = λ fs uptime. [];
    dump_keys = λ fs. [];
    fingerprint = λ fs. codes "fp";
    new_id = codes "a1";
    now = codes "t1";
    identity =
        (codes "device", codes "4B454750554C5345") ∷ (codes "boot", codes "0000000000000001") ∷ [];
    answers = true;
  };
  canonical = some;
  uuid5 = λ t. t;
  started = λ n. codes "t0";
  pour_id = codes "p1";
  charge_id = codes "l1";
  result_text = λ e. codes "invalid";
  store_text = λ e. codes "rejected";
}

abbrev empty : Database
empty = record {
  participants = [];
  kegs = [];
  calibrations = [];
  samples = [];
  checks = [];
  sessions = [];
  pours = [];
  results = [];
  checkpoints = [];
  adjustments = [];
  audit = [];
  charges = [];
  ledger = [];
  anomalies = [];
  settings = [];
}

abbrev handled : Transaction (List Action)
handled = process_result handlers connected fields empty

abbrev actions : List Action
actions = elim handled [ ok (told, db) ↦ told | err e ↦ [] ]

abbrev after : Database
after = elim handled [ ok (told, db) ↦ db | err e ↦ empty ]

handled_ok : handled ≡ ok (actions, after)
unfolding process_result device_result result_texts text_field need field ◌=t◌ check_texts or_fail
    parse_state is_device_id all is_hex is_digit is_consistent is_session_id is_lower_hex
    is_fault_token is_value_char parse_numbers parse_int digits_from check_numbers lift elapsed_u32
    ensure_plausible_pulse_count pulse_limit_for_elapsed finalize_device_result result_session
    finalize_in provisional_of event_name print_decimal print_from find has_row record_result
    record_pour new_pour commit_pour insert_pour insert_result charge_result factor_of volume_of
    quality_of pour_keg pour_calibration acknowledge_result is_attached send_ack opt_is
handled_ok = refl

process_result-IsDurable_example :
    All (IsDurable after) actions ⊎ WasQuarantined handlers.surroundings empty after
process_result-IsDurable_example =
    process_result-IsDurable handlers connected fields actions empty after handled_ok
