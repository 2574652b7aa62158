-- ===== src/Store/Sessions.antt =====
-- Provisional sessions, as the methods of src/kegpulse/persistence/repository.py keep them.
use keg_pulse.Base.{
  ℕ, Bool, true, false, ◌&&◌, ◌||◌, not, Option, none, some, List, [], ◌∷◌, leb, ◌==◌,
  if◌then◌else◌, is_none,
}
use keg_pulse.Base.Text.{Text, ◌=t◌, opt_is, text_ltb}
use keg_pulse.Base.Rows.{find, has_row, update_where, select}
use keg_pulse.Base.Try.{Try, ok, ◌>>=◌, ◌>>◌, require}
use keg_pulse.Store.Tables.{
  Keg, Calibration, ProvisionalSession, Purpose, SessionStatus, Database, StoreError, Transaction,
  must_find, is_participant, is_calibration, is_session, is_active_session, is_active_status,
  is_active_calibration, is_draft, open_keg, active_row, field_of, truthy,
}

abbrev pub is_pour_purpose : Purpose → Bool
is_pour_purpose Purpose.pour = true
is_pour_purpose _ = false

-- A number of a nullable column, against a number
unfoldable pub is_seq : Option ℕ → ℕ → Bool
is_seq none n = false
is_seq (some m) n = m == n

-- The oldest of some rows by a column
unfoldable pub earliest {ℓ} : {A : Type ℓ} → (A → Text) → List A → Option A
earliest key [] = none
earliest key (x ∷ xs) = elim (earliest key xs) [
  | none ↦ some x
  | some y ↦ if text_ltb (key x) (key y) then some x else some y
]

-- The newest of some rows, each newer than the rows after it where the column does not differ
unfoldable pub latest {ℓ} : {A : Type ℓ} → (A → Text) → List A → Option A
latest key [] = none
latest key (x ∷ xs) = elim (latest key xs) [
  | none ↦ some x
  | some y ↦ if text_ltb (key x) (key y) then some y else some x
]

-- `get_provisional`
unfoldable pub get_provisional : Text → Database → Option ProvisionalSession
get_provisional session_id db = find (is_session session_id) db.sessions

-- `find_session`
unfoldable pub find_session : Text → Database → Try StoreError ProvisionalSession
find_session session_id db =
    must_find (find (is_session session_id) db.sessions) StoreError.not_found

-- `active_provisional`
unfoldable pub active_provisional : Database → Option ProvisionalSession
unfolding earliest
active_provisional db = earliest (λ s. s.created_at) (select is_active_session db.sessions)

-- A capture that is active or complete
abbrev pub is_pending_capture : ProvisionalSession → Bool
is_pending_capture s =
    not (is_pour_purpose s.purpose)
    && (is_active_status s.status || elim s.status [ SessionStatus.complete ↦ true | _ ↦ false ])

-- `latest_pending_capture`
unfoldable pub latest_pending_capture : Database → Option ProvisionalSession
unfolding latest
latest_pending_capture db = latest (λ s. s.created_at) (select is_pending_capture db.sessions)

-- The arguments that go with a purpose
unfoldable pub fits_purpose : Purpose → Option Text → Option ℕ → Bool
fits_purpose Purpose.pour calibration_id target_ordinal = true
fits_purpose Purpose.calibration calibration_id target_ordinal =
    not (is_none calibration_id)
    && elim target_ordinal [ none ↦ false | some n ↦ leb 1 n && leb n 10 ]
fits_purpose Purpose.verification calibration_id target_ordinal = not (is_none calibration_id)

-- An active participant, if one is named
unfoldable pub admits_participant : Option Text → Database → Bool
admits_participant none db = true
admits_participant (some k) db = elim (find (is_participant k) db.participants) [
  | none ↦ false
  | some p ↦ p.active
]

-- A requested calibration must be there, and in the state that the purpose needs.
unfoldable pub admits_calibration : Purpose → Option Text → Database → Try StoreError (Unit {0})
admits_calibration purpose none db = ok tt
admits_calibration purpose (some k) db = do
  c ← must_find (find (is_calibration k) db.calibrations) StoreError.not_found
  elim purpose [
    | Purpose.pour ↦ ok tt
    | Purpose.calibration ↦ require (is_draft c) StoreError.conflict
    | Purpose.verification ↦ require (is_active_calibration c) StoreError.conflict
  ]

-- `CHECK(target_ordinal BETWEEN 1 AND 10)`
abbrev pub is_ordinal : Option ℕ → Bool
is_ordinal none = true
is_ordinal (some n) = leb 1 n && leb n 10

-- A new session, with its check and its key
unfoldable pub insert_session : ProvisionalSession → Database → Try StoreError Database
insert_session s db = do
  require (is_ordinal s.target_ordinal) StoreError.integrity
  require (not (has_row (is_session s.session_id) db.sessions)) StoreError.integrity
  ok (record db { sessions = s ∷ db.sessions })

abbrev pub has_key : Text → ProvisionalSession → Bool
has_key key s = s.idempotency_key =t key

-- The keg of a new session
unfoldable pub session_keg : Purpose → Database → Option Text
session_keg Purpose.calibration db = none
session_keg _ db = field_of (λ (k : Keg). k.id) (open_keg db)

-- Its calibration
unfoldable pub session_calibration : Purpose → Option Text → Database → Option Text
session_calibration purpose calibration_id db = elim (truthy calibration_id) [
  | some k ↦ some k
  | none ↦
      if is_pour_purpose purpose then field_of (λ (c : Calibration). c.id) (active_row db) else none
]

-- A session that is armed next
unfoldable pub arming_session :
    Option Text
    → Text
    → Purpose
    → Option Text
    → Option ℕ
    → Text
    → Text
    → Database
    → ProvisionalSession
unfolding session_keg session_calibration
arming_session participant_id key purpose calibration_id target_ordinal session_id now db = record {
  session_id = session_id;
  idempotency_key = key;
  purpose = purpose;
  participant_id = participant_id;
  keg_id = session_keg purpose db;
  calibration_id = session_calibration purpose calibration_id db;
  target_ordinal = target_ordinal;
  device_id = none;
  boot_id = none;
  event_seq = none;
  confirmed_lifetime = 0;
  captured_raw_pulses = none;
  status = SessionStatus.arming;
  created_at = now;
  updated_at = now;
  consumed_entity_id = none;
}

-- `create_provisional`: the session, and whether the key had one before
unfoldable pub create_provisional :
    Option Text
    → Text
    → Purpose
    → Option Text
    → Option ℕ
    → Text
    → Text
    → Database
    → Transaction (ProvisionalSession × Bool)
unfolding fits_purpose admits_participant admits_calibration
create_provisional participant_id key purpose calibration_id target_ordinal session_id now db = do
  require (fits_purpose purpose calibration_id target_ordinal) StoreError.bad_value
  elim (find (has_key key) db.sessions) [
    | some existing ↦ ok ((existing, true), db)
    | none ↦ do
      require (not (has_row is_active_session db.sessions)) StoreError.conflict
      require (admits_participant participant_id db) StoreError.not_found
      admits_calibration purpose calibration_id db
      let s =
          arming_session participant_id key purpose calibration_id target_ordinal session_id now db
      db' ← insert_session s db
      ok ((s, false), db')
  ]

-- A session that is bound to an event of a boot
abbrev pub is_bound : Text → Text → ℕ → ProvisionalSession → Bool
is_bound device_id boot_id event_seq s =
    opt_is s.device_id device_id && opt_is s.boot_id boot_id && is_seq s.event_seq event_seq

-- `bind_provisional`: the unique index is on device, boot and event.
unfoldable pub bind_provisional :
    Text → Text → Text → ℕ → ℕ → Text → Database → Transaction ProvisionalSession
bind_provisional session_id device_id boot_id event_seq confirmed_lifetime now db = do
  current ← must_find (find (is_session session_id) db.sessions) StoreError.not_found
  require
      (not (
        has_row (λ s. not (is_session session_id s) && is_bound device_id boot_id event_seq s)
          db.sessions))
      StoreError.conflict
  let bound : ProvisionalSession → ProvisionalSession = λ s. record s {
    device_id = some device_id;
    boot_id = some boot_id;
    event_seq = some event_seq;
    confirmed_lifetime = confirmed_lifetime;
    status = SessionStatus.armed;
    updated_at = now;
  }
  ok (
    bound current,
    record db { sessions = update_where (is_session session_id) bound db.sessions },
  )

-- `UPDATE provisional_sessions SET status=?, updated_at=? WHERE session_id=?`
unfoldable pub set_status : Text → SessionStatus → Text → Database → Database
set_status session_id status now db = record db {
  sessions =
      update_where (is_session session_id) (λ s. record s { status = status; updated_at = now })
        db.sessions;
}

-- The same, with the pulses of a capture
unfoldable pub set_captured : Text → SessionStatus → ℕ → Text → Database → Database
set_captured session_id status pulses now db = record db {
  sessions =
      update_where (is_session session_id)
        (λ s. record s { status = status; captured_raw_pulses = some pulses; updated_at = now })
        db.sessions;
}

-- `update_provisional_status`
unfoldable pub update_provisional_status :
    Text → SessionStatus → Text → Database → Transaction (Unit {0})
unfolding set_status
update_provisional_status session_id status now db = do
  require (has_row (is_session session_id) db.sessions) StoreError.not_found
  ok (tt, set_status session_id status now db)
