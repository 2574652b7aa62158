-- ===== src/Store/Tables.antt =====
-- The tables of src/kegpulse/migrations as records and lists of rows, the newest row first, and
-- what a transaction of src/kegpulse/persistence/database.py returns or raises.
use keg_pulse.Base.{ℕ, Bool, true, false, Option, none, some, List, [], ℤ}
use keg_pulse.Base.Text.{Text, ◌=t◌}
use keg_pulse.Base.Try.{Try, ok, err}
use keg_pulse.Base.Rows.{find, has_row}
use keg_pulse.Models.{PourQuality, CalibrationStatus, DeviceState}
use keg_pulse.Calibration.Decimals.{DomainError}
use keg_pulse.Measurement.Integrity.{Rejection}

pub record Participant : Type 0 where
  pub id : Text
  pub display_name : Text
  pub active : Bool
  pub created_at : Text
  pub updated_at : Text
  pub balance_cents : ℤ
  pub avatar_updated_at : Option Text

pub record Keg : Type 0 where
  pub id : Text
  pub label : Text
  pub starting_volume_ml : Text
  pub opened_at : Text
  pub closed_at : Option Text
  pub notes : Text

pub record Calibration : Type 0 where
  pub id : Text
  pub liquid : Text
  pub default_density_g_per_ml : Text
  pub pulses_per_ml : Option Text
  pub status : CalibrationStatus
  pub notes : Text
  pub created_at : Text
  pub activated_at : Option Text

-- A row of `calibration_samples`
pub record SampleRow : Type 0 where
  pub id : Text
  pub calibration_id : Text
  pub ordinal : ℕ
  pub raw_pulses : ℕ
  pub mass_g : Text
  pub density_g_per_ml : Text
  pub derived_volume_ml : Text
  pub included : Bool
  pub suspected_outlier : Bool
  pub captured_at : Text
  pub superseded_at : Option Text

pub record VerificationCheck : Type 0 where
  pub id : Text
  pub calibration_id : Text
  pub keg_id : Option Text
  pub raw_pulses : ℕ
  pub mass_g : Text
  pub density_g_per_ml : Text
  pub predicted_volume_ml : Text
  pub actual_volume_ml : Text
  pub absolute_error_ml : Text
  pub percentage_error : Text
  pub warning : Bool
  pub created_at : Text

pub data Purpose : Type 0 where
  pour calibration verification : Purpose

-- The values of `provisional_sessions.status`
pub data SessionStatus : Type 0 where
  arming armed pouring settling finalizing complete timed_out interrupted interrupted_uncertain
        cancelled failed consumed disconnected connecting idle degraded :
      SessionStatus

-- `state.value`
abbrev pub stored_status : DeviceState → SessionStatus
stored_status DeviceState.disconnected = SessionStatus.disconnected
stored_status DeviceState.connecting = SessionStatus.connecting
stored_status DeviceState.idle = SessionStatus.idle
stored_status DeviceState.armed = SessionStatus.armed
stored_status DeviceState.pouring = SessionStatus.pouring
stored_status DeviceState.settling = SessionStatus.settling
stored_status DeviceState.complete = SessionStatus.complete
stored_status DeviceState.timed_out = SessionStatus.timed_out
stored_status DeviceState.interrupted = SessionStatus.interrupted
stored_status DeviceState.degraded = SessionStatus.degraded

pub record ProvisionalSession : Type 0 where
  pub session_id : Text
  pub idempotency_key : Text
  pub purpose : Purpose
  pub participant_id : Option Text
  pub keg_id : Option Text
  pub calibration_id : Option Text
  pub target_ordinal : Option ℕ
  pub device_id : Option Text
  pub boot_id : Option Text
  pub event_seq : Option ℕ
  pub confirmed_lifetime : ℕ
  pub captured_raw_pulses : Option ℕ
  pub status : SessionStatus
  pub created_at : Text
  pub updated_at : Text
  pub consumed_entity_id : Option Text

pub record PourEvent : Type 0 where
  pub id : Text
  pub session_id : Text
  pub participant_id : Option Text
  pub keg_id : Option Text
  pub calibration_id : Option Text
  pub device_id : Text
  pub boot_id : Text
  pub event_seq : Option ℕ
  pub raw_pulses : ℕ
  pub volume_ml : Option Text
  pub attributed : Bool
  pub quality : PourQuality
  pub started_at : Text
  pub ended_at : Text
  pub device_started_ms : ℕ
  pub device_ended_ms : ℕ
  pub fault : Text
  pub created_at : Text

-- A row of `device_results`
pub record ResultRow : Type 0 where
  pub device_id : Text
  pub boot_id : Text
  pub event_seq : ℕ
  pub session_id : Text
  pub status : DeviceState
  pub raw_pulses : ℕ
  pub pour_id : Option Text
  pub committed_at : Text

-- A row of `device_recovery_checkpoints`
pub record Checkpoint : Type 0 where
  pub device_id : Text
  pub boot_id : Text
  pub recovery_pulses : ℕ
  pub last_pour_id : Option Text
  pub updated_at : Text
  pub accepted_pulses : ℕ
  pub device_uptime_ms : ℕ

pub record InventoryAdjustment : Type 0 where
  pub id : Text
  pub keg_id : Text
  pub amount_ml : Text
  pub reason : Text
  pub created_at : Text

-- A row of `attribution_audit`
pub record AuditEntry : Type 0 where
  pub id : Text
  pub pour_id : Text
  pub old_participant_id : Option Text
  pub new_participant_id : Option Text
  pub reason : Text
  pub created_at : Text

-- A row of `pour_charges`
pub record Charge : Type 0 where
  pub pour_id : Text
  pub participant_id : Text
  pub volume_ml : Text
  pub rate_cents_per_fl_oz : Text
  pub amount_cents : ℤ
  pub created_at : Text

pub data LedgerKind : Type 0 where
  adjustment charge refund : LedgerKind

-- A row of `account_ledger`
pub record LedgerEntry : Type 0 where
  pub id : Text
  pub participant_id : Text
  pub amount_cents : ℤ
  pub kind : LedgerKind
  pub pour_id : Option Text
  pub reason : Text
  pub balance_after_cents : ℤ
  pub created_at : Text

-- A row of `measurement_anomalies`
pub record Anomaly : Type 0 where
  pub id : Text
  pub identity_key : Text
  pub source : Text
  pub device_id : Option Text
  pub boot_id : Option Text
  pub event_seq : Option Text
  pub observed_value : Text
  pub reason : Text
  pub context_json : Text
  pub created_at : Text

pub record Database : Type 0 where
  pub participants : List Participant
  pub kegs : List Keg
  pub calibrations : List Calibration
  pub samples : List SampleRow
  pub checks : List VerificationCheck
  pub sessions : List ProvisionalSession
  pub pours : List PourEvent
  pub results : List ResultRow
  pub checkpoints : List Checkpoint
  pub adjustments : List InventoryAdjustment
  pub audit : List AuditEntry
  pub charges : List Charge
  pub ledger : List LedgerEntry
  pub anomalies : List Anomaly
  -- `settings`, the values as `str(json.loads(value_json))`
  pub settings : List (Text × Text)

-- What the methods raise: `integrity` is SQLite's IntegrityError for a violated constraint, and
-- `arithmetic` is decimal's InvalidOperation.
pub data StoreError : Type 0 where
  bad_value not_found conflict integrity arithmetic : StoreError
  domain : DomainError → StoreError
  rejected : Rejection → StoreError

-- What a method does in `with self.db.transaction()`: a raise rolls back, so that the database is
-- as it was.
abbrev pub Transaction {ℓ} : Type ℓ → Type ℓ
Transaction A = Try StoreError (A × Database)

-- A transaction's answer, and the database after it
abbrev pub committed {ℓ} : {A : Type ℓ} → Transaction A → Database → Try StoreError A × Database
committed (ok (a, db)) before = (ok a, db)
committed (err e) before = (err e, before)

-- A DomainError passes through.
abbrev pub lift_domain {ℓ} : {A : Type ℓ} → Try DomainError A → Try StoreError A
lift_domain (ok a) = ok a
lift_domain (err e) = err (StoreError.domain e)

abbrev pub lift_rejection {ℓ} : {A : Type ℓ} → Try Rejection A → Try StoreError A
lift_rejection (ok a) = ok a
lift_rejection (err e) = err (StoreError.rejected e)

-- A row that must be there
abbrev pub must_find {ℓ} : {A : Type ℓ} → Option A → StoreError → Try StoreError A
must_find none e = err e
must_find (some a) e = ok a

-- The rows of a participant, a keg and so on, by their primary keys
abbrev pub is_participant : Text → Participant → Bool
is_participant k p = p.id =t k

abbrev pub is_keg : Text → Keg → Bool
is_keg k r = r.id =t k

abbrev pub is_calibration : Text → Calibration → Bool
is_calibration k r = r.id =t k

abbrev pub is_session : Text → ProvisionalSession → Bool
is_session k r = r.session_id =t k

abbrev pub is_pour : Text → PourEvent → Bool
is_pour k r = r.id =t k

-- A nullable foreign key refers to a row.
abbrev pub refers {ℓ} : {A : Type ℓ} → (Text → A → Bool) → Option Text → List A → Bool
refers key none rows = true
refers key (some k) rows = has_row (key k) rows

-- `status IN ('arming', 'armed', 'pouring', 'settling', 'finalizing')`
abbrev pub is_active_status : SessionStatus → Bool
is_active_status SessionStatus.arming = true
is_active_status SessionStatus.armed = true
is_active_status SessionStatus.pouring = true
is_active_status SessionStatus.settling = true
is_active_status SessionStatus.finalizing = true
is_active_status _ = false

-- `closed_at IS NULL`
abbrev pub is_open_keg : Keg → Bool
is_open_keg k = elim k.closed_at [ none ↦ true | some t ↦ false ]

-- `status='active'`
abbrev pub is_active_calibration : Calibration → Bool
is_active_calibration c = elim c.status [ CalibrationStatus.active ↦ true | _ ↦ false ]

-- `status='draft'`
abbrev pub is_draft : Calibration → Bool
is_draft c = elim c.status [ CalibrationStatus.draft ↦ true | _ ↦ false ]

-- A value, or another one for None
abbrev pub given {ℓ} : {A : Type ℓ} → Option A → A → A
given none other = other
given (some a) other = a

-- `row["id"] if row else None`
abbrev pub field_of {ℓ κ} : {A : Type ℓ} {B : Type κ} → (A → B) → Option A → Option B
field_of f none = none
field_of f (some a) = some (f a)

-- `value or None`: an empty text counts as None.
abbrev pub truthy : Option Text → Option Text
truthy (some []) = none
truthy o = o

-- `SELECT 1 FROM provisional_sessions WHERE status IN …`
abbrev pub is_active_session : ProvisionalSession → Bool
is_active_session s = is_active_status s.status

-- The rows that `closed_at IS NULL` and `status='active'` select, by a unique index one at most
abbrev pub open_keg : Database → Option Keg
open_keg db = find is_open_keg db.kegs

abbrev pub active_row : Database → Option Calibration
active_row db = find is_active_calibration db.calibrations
