-- ===== src/Store/Tests.antt =====
-- The repository's methods on concrete tables, with whole numbers for decimals.
use keg_pulse.Base.{◌≡◌, refl, Bool, true, false, Option, none, some, [], ◌∷◌, pos, length}
use keg_pulse.Base.Int.{◌+ℤ◌, neg_ℤ}
use keg_pulse.Base.Text.{codes, ◌=t◌, opt_is, text_ltb}
use keg_pulse.Base.Rows.{find, has_row, update_where, select}
use keg_pulse.Base.Try.{Try, ok, err}
use keg_pulse.Models.{DeviceState, DeviceResult, CalibrationStatus}
use keg_pulse.Measurement.Numbers.{print_decimal, print_from}
use keg_pulse.Measurement.Integrity.{
  elapsed_u32, ensure_plausible_pulse_count, pulse_limit_for_elapsed,
}
use keg_pulse.Calibration.Whole.{whole}
use keg_pulse.Calibration.Units.{finite_decimal}
use keg_pulse.Calibration.Samples.{pulses_to_ml}
use keg_pulse.Store.Tables.{
  Database, Participant, Keg, Calibration, ProvisionalSession, PourEvent, Purpose, SessionStatus,
  open_keg, is_active_session, is_open_keg, Transaction,
}
use keg_pulse.Store.Participants.{has_length, book}
use keg_pulse.Store.Charges.{charge_pour, charge_amount, price, cents_of, setting}
use keg_pulse.Store.Sessions.{
  create_provisional, arming_session, insert_session, fits_purpose, admits_participant,
  admits_calibration, session_keg, session_calibration, is_seq, set_status,
}
use keg_pulse.Store.Kegs.{replace_open_keg, install, follows_keg}
use keg_pulse.Store.Results.{
  finalize_device_result, finalize_in, provisional_of, matches_binding, result_session,
  record_result, record_pour, new_pour, commit_pour, insert_pour, insert_result, charge_result,
  factor_of, volume_of, quality_of, pour_keg, pour_calibration,
}
use keg_pulse.Store.Recovery.{
  Recovery, checkpoint_recovery_pulses, accept_recovery, recovery_delta, elapsed_since, materialize,
  upsert, recovery_keg, recovery_calibration, counter_name,
}
use keg_pulse.Store.ExactlyOnce.{finalize_device_result-once}
use keg_pulse.Store.Refinement.{events_of, put_once, finalize_device_result-put_once}
use keg_pulse.Store.Ledger.{HasBalances, IsBalanced, total}
use keg_pulse.Store.Runs.{Step, Run, Run-HasBalances}
use keg_pulse.Store.Counted.{IsCounted, checkpointed, counted}
use keg_pulse.Store.Checkpoints.{checkpoint_recovery_pulses-IsCounted}
use keg_pulse.Store.OneActive.{
  create_provisional-one_active, create_provisional-idempotent, replace_open_keg-one_open,
}

abbrev empty : Database
empty = record {
  participants = [];
  kegs = [];
  calibrations = [];
  samples = [];
  checks = [];
  sessions = [];
  pours = [];
  results = [];
  checkpoints = [];
  adjustments = [];
  audit = [];
  charges = [];
  ledger = [];
  anomalies = [];
  settings = (codes "beer_price_cents_per_fl_oz", codes "50") ∷ [];
}

abbrev ann : Participant
ann = record {
  id = codes "ann";
  display_name = codes "Ann";
  active = true;
  created_at = codes "t0";
  updated_at = codes "t0";
  balance_cents = pos 0;
  avatar_updated_at = none;
}

abbrev keg : Keg
keg = record {
  id = codes "k1";
  label = codes "IPA";
  starting_volume_ml = codes "19000";
  opened_at = codes "t1";
  closed_at = none;
  notes = [];
}

abbrev calibration : Calibration
calibration = record {
  id = codes "c1";
  liquid = codes "water";
  default_density_g_per_ml = codes "1";
  pulses_per_ml = some (codes "2");
  status = CalibrationStatus.active;
  notes = [];
  created_at = codes "t0";
  activated_at = some (codes "t0");
}

-- Ann has armed a pour of the event 7.
abbrev session : ProvisionalSession
session = record {
  session_id = codes "s1";
  idempotency_key = codes "key";
  purpose = Purpose.pour;
  participant_id = some (codes "ann");
  keg_id = some (codes "k1");
  calibration_id = some (codes "c1");
  target_ordinal = none;
  device_id = some (codes "d");
  boot_id = some (codes "b");
  event_seq = some 7;
  confirmed_lifetime = 0;
  captured_raw_pulses = none;
  status = SessionStatus.armed;
  created_at = codes "t2";
  updated_at = codes "t2";
  consumed_entity_id = none;
}

abbrev armed : Database
armed = record empty {
  participants = ann ∷ [];
  kegs = keg ∷ [];
  calibrations = calibration ∷ [];
  sessions = session ∷ [];
}

abbrev result : DeviceResult
result = record {
  device_id = codes "d";
  boot_id = codes "b";
  event_seq = 7;
  session_id = some (codes "s1");
  attributed = true;
  status = DeviceState.complete;
  raw_pulses = 580;
  lifetime_pulses = 580;
  started_ms = 1000;
  ended_ms = 9000;
  fault = codes "none";
}

abbrev finalized : Transaction (Option PourEvent × Bool)
finalized =
    finalize_device_result whole some (λ t. t) (λ n. codes "t3") result none none false (codes "p1")
      (codes "l1") (codes "t4") armed

abbrev answer_of {ℓ κ} : {E : Type ℓ} {A : Type κ} → A → Try E (A × Database) → A
answer_of a (ok (b, db)) = b
answer_of a (err e) = a

abbrev after_of {ℓ κ} : {E : Type ℓ} {A : Type κ} → Try E (A × Database) → Database
after_of (ok (b, db)) = db
after_of (err e) = empty

abbrev pour_of : Option PourEvent
pour_of = (answer_of (none, false) finalized).0

-- 580 pulses at 2 per millilitre are 290 ml, 10 ounces of 29, for 500 cents.
finalized_ok : finalized ≡ ok ((pour_of, false), after_of finalized)
unfolding finalize_device_result elapsed_u32 ensure_plausible_pulse_count pulse_limit_for_elapsed
    result_session finalize_in provisional_of matches_binding opt_is ◌=t◌ find has_row is_seq
    record_result record_pour new_pour commit_pour insert_pour insert_result charge_result factor_of
    volume_of quality_of pour_keg pour_calibration pulses_to_ml finite_decimal charge_pour price
    setting cents_of charge_amount book update_where set_status neg_ℤ ◌+ℤ◌ print_decimal print_from
finalized_ok = refl

finalize_device_result-once_example :
    finalize_device_result whole some
      (λ t. t)
      (λ n. codes "t5")
      result
      (some (codes "k2"))
      none
      true
      (codes "p2")
      (codes "l2")
      (codes "t6")
      (after_of finalized)
    ≡ ok ((pour_of, true), after_of finalized)
finalize_device_result-once_example =
    finalize_device_result-once whole some (λ t. t) (λ n. codes "t3") (λ n. codes "t5") result none
      (some (codes "k2")) none none false true (codes "p1") (codes "p2") (codes "l1") (codes "l2")
      (codes "t4") (codes "t6") pour_of armed (after_of finalized) finalized_ok

finalize_device_result-put_once_example :
    events_of (after_of finalized) (codes "d") (codes "b") 7
    ≡ put_once (codes "d") (codes "b") 7 580 (events_of armed) (codes "d") (codes "b") 7
finalize_device_result-put_once_example =
    finalize_device_result-put_once whole some (λ t. t) (λ n. codes "t3") result none none false
      (codes "p1") (codes "l1") (codes "t4") pour_of false armed (after_of finalized) finalized_ok
      (codes "d") (codes "b") 7

armed-HasBalances : HasBalances armed
unfolding HasBalances IsBalanced total
armed-HasBalances = ((refl, tt), tt)

Run-HasBalances_example : HasBalances (after_of finalized)
Run-HasBalances_example =
    Run-HasBalances whole
      (Run.after
        (Step.finalized some (λ t. t) (λ n. codes "t3") result none none false (codes "p1")
          (codes "l1") (codes "t4") (pour_of, false) finalized_ok)
        Run.start)
      armed-HasBalances

abbrev reading : Recovery
reading = record {
  device_id = codes "d";
  boot_id = codes "b";
  recovery_pulses = 20;
  accepted_pulses = 600;
  device_uptime_ms = 60000;
}

abbrev checked : Transaction (Option PourEvent × Bool)
checked =
    checkpoint_recovery_pulses whole (λ t. t) reading none none false (codes "p3") (codes "t7")
      armed

checked_ok : checked ≡ ok (answer_of (none, false) checked, after_of checked)
unfolding checkpoint_recovery_pulses accept_recovery has_length recovery_delta elapsed_since
    ensure_plausible_pulse_count pulse_limit_for_elapsed materialize upsert recovery_keg
    recovery_calibration volume_of pulses_to_ml finite_decimal insert_pour find has_row
    print_decimal print_from counter_name ◌=t◌
checked_ok = refl

checkpoint_recovery_pulses-IsCounted_example : IsCounted (after_of checked)
unfolding IsCounted checkpointed counted find
checkpoint_recovery_pulses-IsCounted_example =
    checkpoint_recovery_pulses-IsCounted whole (λ t. t) reading none none false (codes "p3")
      (codes "t7") (answer_of (none, false) checked) armed (after_of checked) (λ dev boot. refl)
      checked_ok

abbrev idle : Database
idle = record empty { participants = ann ∷ []; kegs = keg ∷ []; calibrations = calibration ∷ [] }

abbrev armed_next : Transaction (ProvisionalSession × Bool)
armed_next =
    create_provisional (some (codes "ann")) (codes "key") Purpose.pour none none (codes "s2")
      (codes "t8") idle

abbrev session_of : ProvisionalSession
session_of = (answer_of (session, false) armed_next).0

armed_next_ok : armed_next ≡ ok ((session_of, false), after_of armed_next)
unfolding create_provisional fits_purpose find has_row admits_participant admits_calibration
    arming_session session_keg session_calibration insert_session ◌=t◌
armed_next_ok = refl

create_provisional-one_active_example :
    (length (select is_active_session (after_of armed_next).sessions) ≡ 1)
    × (find is_active_session (after_of armed_next).sessions ≡ some session_of)
create_provisional-one_active_example =
    create_provisional-one_active (some (codes "ann")) (codes "key") Purpose.pour none none
      (codes "s2") (codes "t8") session_of idle (after_of armed_next) armed_next_ok

create_provisional-idempotent_example :
    create_provisional none
      (codes "key")
      Purpose.pour
      none
      none
      (codes "s3")
      (codes "t9")
      (after_of armed_next)
    ≡ ok ((session_of, true), after_of armed_next)
create_provisional-idempotent_example =
    create_provisional-idempotent (some (codes "ann")) none (codes "key") Purpose.pour Purpose.pour
      none none none none (codes "s2") (codes "s3") (codes "t8") (codes "t9") session_of idle
      (after_of armed_next) armed_next_ok (unfold fits_purpose in refl)

abbrev next_keg : Keg
next_keg = record keg { id = codes "k2"; opened_at = codes "t9" }

replace_open_keg-one_open_example :
    (length (select is_open_keg (install next_keg idle).kegs) ≡ 1)
    × (open_keg (install next_keg idle) ≡ some next_keg)
    × (has_row is_active_session idle.sessions ≡ false)
    × (follows_keg next_keg.opened_at (open_keg idle) ≡ true)
replace_open_keg-one_open_example =
    replace_open_keg-one_open next_keg next_keg idle (install next_keg idle) refl
      (unfold replace_open_keg install find has_row ◌=t◌ text_ltb in refl)
