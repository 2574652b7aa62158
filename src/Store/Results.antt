-- ===== src/Store/Results.antt =====
-- `finalize_device_result` of src/kegpulse/persistence/repository.py: a result of the device becomes
-- durable once.
use keg_pulse.Base.{
  ℕ, Bool, true, false, ◌&&◌, ◌||◌, not, Option, none, some, ◌∷◌, ◌==◌, if◌then◌else◌, is_none, pos,
  ◌++◌,
}
use keg_pulse.Base.Text.{Text, codes, ◌=t◌, opt_is}
use keg_pulse.Base.Rows.{find, has_row}
use keg_pulse.Base.Try.{Try, ok, ◌>>=◌, ◌>>◌, require}
use keg_pulse.Models.{DeviceState, DeviceResult, PourQuality, is_timed_out}
use keg_pulse.Measurement.Integrity.{elapsed_u32, ensure_plausible_pulse_count}
use keg_pulse.Measurement.Numbers.{print_decimal}
use keg_pulse.Calibration.Decimals.{Decimals}
use keg_pulse.Calibration.Samples.{pulses_to_ml}
use keg_pulse.Store.Tables.{
  Keg, Calibration, ProvisionalSession, PourEvent, ResultRow, SessionStatus, Database, StoreError,
  Transaction, lift_domain, lift_rejection, must_find, is_participant, is_keg, is_calibration,
  is_session, is_pour, refers, open_keg, active_row, field_of, truthy, stored_status,
}
use keg_pulse.Store.Sessions.{is_pour_purpose, is_seq, set_status, set_captured}
use keg_pulse.Store.Charges.{charge_pour}

-- The row of an event of a boot
abbrev pub is_result_of : Text → Text → ℕ → ResultRow → Bool
is_result_of device_id boot_id event_seq r =
    r.device_id =t device_id && r.boot_id =t boot_id && r.event_seq == event_seq

-- A pour that has the same event: the unique index does not compare None.
abbrev pub clashes : PourEvent → PourEvent → Bool
clashes new p = p.session_id =t new.session_id || (elim new.event_seq [
  | none ↦ false
  | some seq ↦ p.device_id =t new.device_id && p.boot_id =t new.boot_id && is_seq p.event_seq seq
])

-- `INSERT INTO pour_events`, with its keys and references
unfoldable pub insert_pour : PourEvent → Database → Try StoreError Database
insert_pour pour db = do
  require (not (has_row (is_pour pour.id) db.pours)) StoreError.integrity
  require (not (has_row (clashes pour) db.pours)) StoreError.integrity
  require (refers is_participant pour.participant_id db.participants) StoreError.integrity
  require (refers is_keg pour.keg_id db.kegs) StoreError.integrity
  require (refers is_calibration pour.calibration_id db.calibrations) StoreError.integrity
  ok (record db { pours = pour ∷ db.pours })

-- `INSERT INTO device_results`, after the test that there is none for the event
unfoldable pub insert_result : ResultRow → Database → Database
insert_result row db = record db { results = row ∷ db.results }

-- The row of a result
abbrev pub result_row : DeviceResult → Text → Option Text → Text → ResultRow
result_row r session_id pour_id now = record {
  device_id = r.device_id;
  boot_id = r.boot_id;
  event_seq = r.event_seq;
  session_id = session_id;
  status = r.status;
  raw_pulses = r.raw_pulses;
  pour_id = pour_id;
  committed_at = now;
}

-- The binding of the session that an attributed result needs
unfoldable pub matches_binding : DeviceResult → Option ProvisionalSession → Bool
matches_binding r none = false
matches_binding r (some p) =
    opt_is p.device_id r.device_id && opt_is p.boot_id r.boot_id && is_seq p.event_seq r.event_seq

-- The name that `uuid5` hashes
unfoldable pub event_name : DeviceResult → Text
event_name r =
    codes "kegpulse://"
    ++ r.device_id
    ++ codes "/"
    ++ r.boot_id
    ++ codes "/"
    ++ print_decimal r.event_seq

-- The text in `quality`
unfoldable pub quality_of : DeviceResult → Option Text → PourQuality
quality_of r none = PourQuality.needs_review
quality_of r (some factor) = elim r.status [
  | DeviceState.interrupted ↦ PourQuality.interrupted
  | _ ↦ if r.attributed then PourQuality.complete else PourQuality.unattributed
]

-- The keg and calibration of a pour, from the session, the caller, or the tables
unfoldable pub pour_keg : Option ProvisionalSession → Option Text → Bool → Database → Option Text
pour_keg (some p) keg_id captured db = p.keg_id
pour_keg none keg_id captured db =
    if not captured && is_none keg_id then field_of (λ (k : Keg). k.id) (open_keg db) else keg_id

unfoldable pub pour_calibration :
    Option ProvisionalSession → Option Text → Bool → Database → Option Text
pour_calibration (some p) calibration_id captured db = p.calibration_id
pour_calibration none calibration_id captured db =
    if not captured && is_none calibration_id
    then field_of (λ (c : Calibration). c.id) (active_row db)
    else calibration_id

-- `row["pulses_per_ml"] if row else None`, for a calibration that is named
unfoldable pub factor_of : Option Text → Database → Option Text
factor_of calibration_id db = elim (truthy calibration_id) [
  | none ↦ none
  | some k ↦ elim (find (is_calibration k) db.calibrations) [
    | none ↦ none
    | some c ↦ c.pulses_per_ml
  ]
]

abbrev pub finish : Option ProvisionalSession → SessionStatus → Text → Database → Database
finish none status now db = db
finish (some p) status now db = set_status p.session_id status now db

-- The session of a result that names one
unfoldable pub provisional_of : DeviceResult → Text → Database → Option ProvisionalSession
provisional_of r session_id db = elim (truthy r.session_id) [
  | none ↦ none
  | some s ↦ find (is_session session_id) db.sessions
]

module _ (d : Decimals) where
  -- `pulses_to_ml(…) if factor else None`
  unfoldable pub volume_of : ℕ → Option Text → Try StoreError (Option d.Number)
  volume_of pulses factor = elim (truthy factor) [
    | none ↦ ok none
    | some f ↦ do v ← lift_domain (pulses_to_ml d pulses f); ok (some v)
  ]

  -- `_charge_pour` for a pour with a participant and a volume
  unfoldable pub charge_result :
      Text → Option Text → Option d.Number → Text → Text → Database → Try StoreError Database
  charge_result pour_id none volume charge_id now db = ok db
  charge_result pour_id (some k) none charge_id now db = ok db
  charge_result pour_id (some k) (some v) charge_id now db =
      charge_pour d pour_id k v charge_id now db

  -- The row of `pour_events` for a result
  unfoldable pub new_pour :
      DeviceResult
      → Text
      → Option Text
      → Option Text
      → Option Text
      → Option Text
      → Option d.Number
      → Text
      → Text
      → Text
      → PourEvent
  new_pour r session_id participant_id keg_id calibration_id factor volume pour_id started_at now =
      record {
        id = pour_id;
        session_id = session_id;
        participant_id = participant_id;
        keg_id = keg_id;
        calibration_id = calibration_id;
        device_id = r.device_id;
        boot_id = r.boot_id;
        event_seq = some r.event_seq;
        raw_pulses = r.raw_pulses;
        volume_ml = field_of d.print volume;
        attributed = r.attributed;
        quality = quality_of r factor;
        started_at = started_at;
        ended_at = now;
        device_started_ms = r.started_ms;
        device_ended_ms = r.ended_ms;
        fault = r.fault;
        created_at = now;
      }

  -- The writes for a pour: its row, the result's, the charge, and the end of the session
  unfoldable pub commit_pour :
      DeviceResult
      → Option ProvisionalSession
      → PourEvent
      → Option d.Number
      → Text
      → Text
      → Database
      → Transaction (Option PourEvent)
  unfolding charge_result
  commit_pour r provisional pour volume charge_id now db = do
    db1 ← insert_pour pour db
    let db2 = insert_result (result_row r pour.session_id (some pour.id) now) db1
    db3 ← charge_result pour.id pour.participant_id volume charge_id now db2
    ok (some pour, finish provisional SessionStatus.complete now db3)

  -- The pour of a new result
  unfoldable pub record_pour :
      DeviceResult
      → Text
      → Option ProvisionalSession
      → Option Text
      → Option Text
      → Text
      → Text
      → Text
      → Text
      → Database
      → Transaction (Option PourEvent)
  unfolding factor_of volume_of new_pour commit_pour
  record_pour r session_id provisional keg_id calibration_id pour_id charge_id started_at now db =
      do
        let participant_id : Option Text = elim provisional [
          | none ↦ none
          | some p ↦ p.participant_id
        ]
        let factor = factor_of calibration_id db
        volume ← volume_of r.raw_pulses factor
        commit_pour r provisional
            (new_pour r session_id participant_id keg_id calibration_id factor volume pour_id
              started_at now)
            volume charge_id now db

  -- A result for which there is no row: a capture, a timeout without pulses, or a pour
  unfoldable pub record_result :
      DeviceResult
      → Text
      → Option ProvisionalSession
      → Option Text
      → Option Text
      → Bool
      → Text
      → Text
      → Text
      → Text
      → Database
      → Transaction (Option PourEvent)
  unfolding record_pour
  record_result r session_id provisional keg_id calibration_id captured pour_id charge_id started_at
        now db =
      let row = result_row r session_id none now in
      let poured =
        record_pour r session_id provisional (pour_keg provisional keg_id captured db)
          (pour_calibration provisional calibration_id captured db) pour_id charge_id started_at now
          db in
      let is_empty = is_timed_out r.status && r.raw_pulses == 0 in
      elim provisional [
        | none ↦ if is_empty then ok (none, insert_result row db) else poured
        | some p ↦
            if not (is_pour_purpose p.purpose)
            then ok (
              none,
              set_captured session_id (stored_status r.status) r.raw_pulses now
                  (insert_result row db),
            )
            else if is_empty
            then ok (none, set_status session_id SessionStatus.timed_out now (insert_result row db))
            else poured
      ]

  -- The session of a result: `str(uuid.UUID(…))` raises ValueError.
  unfoldable pub result_session :
      (Text → Option Text) → (Text → Text) → DeviceResult → Try StoreError Text
  result_session canonical uuid5 r = elim (truthy r.session_id) [
    | none ↦ ok (uuid5 (event_name r))
    | some s ↦ must_find (canonical s) StoreError.bad_value
  ]

  -- The transaction of `finalize_device_result`
  unfoldable pub finalize_in :
      DeviceResult
      → Text
      → Option Text
      → Option Text
      → Bool
      → Text
      → Text
      → Text
      → Text
      → Database
      → Transaction (Option PourEvent × Bool)
  unfolding matches_binding provisional_of record_result
  finalize_in r session_id keg_id calibration_id captured pour_id charge_id started_at now db = do
    let provisional = provisional_of r session_id db
    require (not r.attributed || matches_binding r provisional) StoreError.conflict
    elim (find (is_result_of r.device_id r.boot_id r.event_seq) db.results) [
      | some row ↦ elim row.pour_id [
        | none ↦ ok ((none, true), db)
        | some k ↦ do
          pour ← must_find (find (is_pour k) db.pours) StoreError.integrity
          ok ((some pour, true), db)
      ]
      | none ↦ do
        (pour, db') ←
            record_result r session_id provisional keg_id calibration_id captured pour_id charge_id
              started_at now db
        ok ((pour, false), db')
    ]

  -- `finalize_device_result`; `started` is `now` less a duration in milliseconds.
  unfoldable pub finalize_device_result :
      (Text → Option Text)
      → (Text → Text)
      → (ℕ → Text)
      → DeviceResult
      → Option Text
      → Option Text
      → Bool
      → Text
      → Text
      → Text
      → Database
      → Transaction (Option PourEvent × Bool)
  unfolding result_session finalize_in
  finalize_device_result canonical uuid5 started r keg_id calibration_id captured pour_id charge_id
        now db =
      do
        duration ← lift_rejection (elapsed_u32 (pos r.started_ms) (pos r.ended_ms))
        lift_rejection (ensure_plausible_pulse_count (pos r.raw_pulses) (pos duration))
        session_id ← result_session canonical uuid5 r
        finalize_in r session_id keg_id calibration_id captured pour_id charge_id (started duration)
            now db
