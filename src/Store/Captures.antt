-- ===== src/Store/Captures.antt =====
-- Captures that become samples and checks, in src/kegpulse/persistence/repository.py.
use keg_pulse.Base.{Bool, true, false, ◌&&◌, ◌||◌, Option, none, some, List, if◌then◌else◌}
use keg_pulse.Base.Text.{Text}
use keg_pulse.Base.Rows.{find, update_where}
use keg_pulse.Base.Try.{Try, ok, err, ◌>>=◌, ◌>>◌, require}
use keg_pulse.Calibration.Decimals.{Decimals}
use keg_pulse.Calibration.Units.{finite_decimal}
use keg_pulse.Calibration.Samples.{make_sample}
use keg_pulse.Store.Tables.{
  SampleRow, VerificationCheck, Purpose, SessionStatus, Database, StoreError, Transaction,
  lift_domain, must_find, is_calibration, is_session,
}
use keg_pulse.Store.Calibrations.{is_sample, is_check, need_draft, put_sample, insert_check}

abbrev pub is_complete : SessionStatus → Bool
is_complete SessionStatus.complete = true
is_complete _ = false

abbrev pub is_consumed : SessionStatus → Bool
is_consumed SessionStatus.consumed = true
is_consumed _ = false

abbrev pub is_calibration_purpose : Purpose → Bool
is_calibration_purpose Purpose.calibration = true
is_calibration_purpose _ = false

abbrev pub is_verification_purpose : Purpose → Bool
is_verification_purpose Purpose.verification = true
is_verification_purpose _ = false

-- The row that a consumed capture became
unfoldable pub consumed_row {ℓ} :
    {A : Type ℓ} → (Text → A → Bool) → Option Text → List A → Try StoreError A
consumed_row key none rows = err StoreError.conflict
consumed_row key (some k) rows = must_find (find (key k) rows) StoreError.conflict

-- `UPDATE provisional_sessions SET status='consumed', consumed_entity_id=?`
unfoldable pub consume : Text → Text → Text → Database → Database
consume session_id entity_id now db = record db {
  sessions =
      update_where (is_session session_id)
        (λ s. record s {
          status = SessionStatus.consumed;
          consumed_entity_id = some entity_id;
          updated_at = now;
        })
        db.sessions;
}

module _ (d : Decimals) where
  -- `consume_calibration_capture`; a calibration session has a `target_ordinal`.
  unfoldable pub consume_calibration_capture :
      Text → Text → Text → Bool → Text → Text → Database → Transaction SampleRow
  unfolding consumed_row consume need_draft
  consume_calibration_capture session_id mass_g density included sample_id now db = do
    s ← must_find (find (is_session session_id) db.sessions) StoreError.not_found
    require (is_calibration_purpose s.purpose && (is_complete s.status || is_consumed s.status))
        StoreError.conflict
    if is_consumed s.status
        then (do row ← consumed_row is_sample s.consumed_entity_id db.samples; ok (row, db))
        else do
          pulses ← must_find s.captured_raw_pulses StoreError.conflict
          calibration_id ← must_find s.calibration_id StoreError.not_found
          need_draft calibration_id db >>= λ c. do
            ordinal ← must_find s.target_ordinal StoreError.bad_value
            sample ← lift_domain (make_sample d pulses mass_g density included)
            (row, db') ← put_sample d calibration_id ordinal sample sample_id now db
            ok (row, consume session_id sample_id now db')

  -- `consume_verification_capture`
  unfoldable pub consume_verification_capture :
      Text → Text → Text → Text → Text → Text → Database → Transaction VerificationCheck
  unfolding consumed_row consume insert_check
  consume_verification_capture session_id mass_g density threshold_pct check_id now db = do
    s ← must_find (find (is_session session_id) db.sessions) StoreError.not_found
    require (is_verification_purpose s.purpose && (is_complete s.status || is_consumed s.status))
        StoreError.conflict
    if is_consumed s.status
        then (do row ← consumed_row is_check s.consumed_entity_id db.checks; ok (row, db))
        else do
          pulses ← must_find s.captured_raw_pulses StoreError.conflict
          calibration_id ← must_find s.calibration_id StoreError.conflict
          c ← must_find (find (is_calibration calibration_id) db.calibrations) StoreError.conflict
          factor ← must_find c.pulses_per_ml StoreError.conflict
          threshold ← lift_domain (finite_decimal d threshold_pct)
          (row, db') ←
              insert_check d c.id s.keg_id pulses mass_g density factor check_id threshold now db
          ok (row, consume session_id check_id now db')
