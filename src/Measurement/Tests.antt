-- ===== src/Measurement/Tests.antt =====
-- Readings on concrete inputs.
use keg_pulse.Base.{
  ◌+◌, ◌*◌, ◌%◌, ◌^◌, ◌≤◌, ◌<◌, ◌≡◌, ◌↔◌, ◌⊎◌, refl, true, false, none, some, List, [], ◌∷◌, arith,
  pos,
}
use keg_pulse.Base.Text.{codes, ◌=t◌}
use keg_pulse.Base.Try.{ok}
use keg_pulse.Models.{DeviceState}
use keg_pulse.Protocol.Bytes.{all, is_digit, is_value_char}
use keg_pulse.Protocol.Frames.{Fields}
use keg_pulse.Measurement.Integrity.{
  CounterSnapshot, parse_counter_snapshot, parse_status_pulse_snapshot, need, unsigned,
  is_fault_token, ensure_plausible_pulse_count, elapsed_u32, pulse_burst_allowance,
  max_plausible_boot_pulses, uint32_max,
}
use keg_pulse.Measurement.Numbers.{decimal, decimal_from}
use keg_pulse.Measurement.Plausible.{
  IsCounter, elapsed_u32-add, parse_counter_snapshot-IsCounter, parse_status-bounds,
}
use keg_pulse.Measurement.Reconciliation.{
  Provisional, ReconciliationAction, reconcile_provisional, SameBoot, Knows, reconcile_decides,
}
use keg_pulse.Measurement.Counters.{
  Reading, boot_counter_delta, total_delta, last, total_delta-last,
}

elapsed_u32-add_example : elapsed_u32 (pos 4294967000) (pos ((4294967000 + 500) % 2 ^ 32)) ≡ ok 500
elapsed_u32-add_example = elapsed_u32-add 4294967000 500 (omega arith) (omega arith)

abbrev counters : Fields
counters =
    (codes "accepted", codes "120")
    ∷ (codes "rejected", codes "3")
    ∷ (codes "noise_gate_us", codes "0")
    ∷ (codes "recovery", codes "20")
    ∷ (codes "fault", codes "none")
    ∷ []

abbrev snapshot : CounterSnapshot
snapshot = record {
  accepted_pulses = 120;
  recovery_pulses = 20;
  rejected_edges = 3;
  noise_gate_us = 0;
  fault = codes "none";
}

parse_counter_snapshot-IsCounter_example : IsCounter 60000 snapshot
parse_counter_snapshot-IsCounter_example =
    parse_counter_snapshot-IsCounter counters 60000 snapshot (
      unfold parse_counter_snapshot need unsigned is_fault_token ensure_plausible_pulse_count all
        is_digit is_value_char decimal decimal_from ◌=t◌ in
      refl)

abbrev status : Fields
status =
    (codes "pulses", codes "20")
    ∷ (codes "lifetime", codes "120")
    ∷ (codes "uptime", codes "60000")
    ∷ []

parse_status-bounds_example :
    (20 ≤ 120)
    × (120 ≤ pulse_burst_allowance + 10 * 60000)
    × (120 ≤ max_plausible_boot_pulses)
    × (60000 ≤ uint32_max)
parse_status-bounds_example =
    parse_status-bounds status
      (record { session_pulses = 20; lifetime_pulses = 120; uptime_ms = 60000 })
      (unfold parse_status_pulse_snapshot need unsigned ensure_plausible_pulse_count all is_digit
          decimal decimal_from ◌=t◌ in
        refl)

-- The device has counted 30 pulses since, but no longer knows the session.
abbrev forgotten : Provisional
forgotten = record {
  host_session_id = codes "s";
  host_boot_id = some (codes "b");
  host_confirmed_lifetime = 100;
  device_connected = true;
  device_boot_id = some (codes "b");
  device_session_id = none;
  device_state = DeviceState.idle;
  device_lifetime = 130;
}

reconcile_decides_example :
    let d = reconcile_provisional forgotten in
    ((d.action ≡ ReconciliationAction.wait_for_device) ↔ (true ≡ false))
    × ((d.action ≡ ReconciliationAction.resume)
        ↔ ((true ≡ true) × SameBoot forgotten × Knows forgotten))
    × ((d.action ≡ ReconciliationAction.recover_unattributed)
        ↔ ((true ≡ true) × SameBoot forgotten × (¬ Knows forgotten) × (100 < 130)))
    × ((d.action ≡ ReconciliationAction.interrupt_uncertain)
        ↔ ((true ≡ true) × ((¬ SameBoot forgotten) ⊎ ((¬ Knows forgotten) × (130 ≤ 100)))))
    × (((d.action ≡ ReconciliationAction.recover_unattributed) × (d.recovered_pulses + 100 ≡ 130))
        ⊎ ((¬ d.action ≡ ReconciliationAction.recover_unattributed) × (d.recovered_pulses ≡ 0)))
reconcile_decides_example = reconcile_decides forgotten

abbrev later : List Reading
later = (codes "b", 120) ∷ (codes "b", 150) ∷ []

total_delta-last_example :
    (50 + 100 ≡ (last (codes "b", 100) later).1) × (codes "b" ≡ (last (codes "b", 100) later).0)
total_delta-last_example =
    total_delta-last 64 (codes "b", 100) later 50
      (unfold total_delta boot_counter_delta ◌=t◌ in refl)
