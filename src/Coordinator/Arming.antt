-- ===== src/Coordinator/Arming.antt =====
-- `arm_for_purpose` and `cancel` of src/kegpulse/application/coordinator.py. Each call of the repository
-- is a transaction of its own, so that a raise keeps what was committed before it.
use keg_pulse.Base.{
  ℕ, Bool, true, false, ◌||◌, not, Option, none, some, if◌then◌else◌, is_none, pos_part,
}
use keg_pulse.Base.Text.{Text, codes, ◌=t◌, opt_is}
use keg_pulse.Base.Try.{Try, ok, err, ◌>>=◌}
use keg_pulse.Protocol.Frames.{Fields}
use keg_pulse.Measurement.Numbers.{parse_int}
use keg_pulse.Measurement.Integrity.{field}
use keg_pulse.Store.Tables.{
  Database, StoreError, Transaction, ProvisionalSession, Purpose, SessionStatus, must_find, truthy,
}
use keg_pulse.Store.Sessions.{
  create_provisional, bind_provisional, update_provisional_status, active_provisional, find_session,
}

-- What `self.manager.request` returns or raises: an operation with its fields, a DeviceCommandError, or
-- another exception
pub data Reply : Type 0 where
  replied : Text → Fields → Reply
  refused : Reply
  lost : Reply

-- What a call returns or raises, and the tables after it
abbrev pub Committed {ℓ} : Type ℓ → Type ℓ
Committed A = Try StoreError A × Database

-- `update_provisional_status(session, "failed")`, and then a raise
unfoldable pub fail_session : Text → StoreError → Text → Database → Committed ProvisionalSession
fail_session session_id e now db =
    elim (update_provisional_status session_id SessionStatus.failed now db) [
      | ok (u, db') ↦ (err e, db')
      | err other ↦ (err other, db)
    ]

-- `int(fields[key])`; the counters that a device sends are not negative.
unfoldable pub counter_at : Text → Fields → Try StoreError ℕ
counter_at key fields = do
  text ← must_find (field key fields) StoreError.bad_value
  n ← must_find (parse_int text) StoreError.bad_value
  ok (pos_part n)

-- The session is bound to the next event that STATUS tells.
unfoldable pub bind_next : Text → Fields → Reply → Text → Database → Transaction ProvisionalSession
unfolding counter_at
bind_next session_id identity (Reply.replied operation fields) now db = do
  device ← must_find (field (codes "device") identity) StoreError.bad_value
  boot ← must_find (field (codes "boot") fields) StoreError.bad_value
  seq ← counter_at (codes "next") fields
  lifetime ← counter_at (codes "lifetime") fields
  bind_provisional session_id device boot seq lifetime now db
bind_next session_id identity Reply.refused now db = err StoreError.conflict
bind_next session_id identity Reply.lost now db = err StoreError.conflict

-- The answer to ARM: a refusal fails the session, and a lost answer leaves it bound.
unfoldable pub await_arm :
    ProvisionalSession → Reply → Text → Database → Committed ProvisionalSession
unfolding fail_session
await_arm bound (Reply.replied operation fields) now db =
    if operation =t codes "ARM" then (ok bound, db) else (err StoreError.conflict, db)
await_arm bound Reply.refused now db = fail_session bound.session_id StoreError.conflict now db
await_arm bound Reply.lost now db = (err StoreError.conflict, db)

-- A session that was made: bind it, and arm the device.
unfoldable pub arm_session :
    ProvisionalSession
    → Bool
    → Fields
    → Reply
    → Reply
    → Text
    → Database
    → Committed ProvisionalSession
unfolding fail_session bind_next await_arm
arm_session p connected identity status armed now db =
    if not connected
    then fail_session p.session_id StoreError.conflict now db
    else elim (bind_next p.session_id identity status now db) [
      | err e ↦ fail_session p.session_id e now db
      | ok (bound, db') ↦ await_arm bound armed now db'
    ]

-- `arm_for_purpose`, with the replies to STATUS and to ARM
unfoldable pub arm_for_purpose :
    Option Text
    → Text
    → Purpose
    → Option Text
    → Option ℕ
    → Text
    → Bool
    → Fields
    → Reply
    → Reply
    → Text
    → Database
    → Committed ProvisionalSession
unfolding arm_session
arm_for_purpose participant_id key purpose calibration_id target_ordinal session_id connected
      identity status armed now db =
    elim (create_provisional participant_id key purpose calibration_id target_ordinal session_id now
      db) [
        | err e ↦ (err e, db)
        | ok ((p, true), db') ↦ (ok p, db')
        | ok ((p, false), db') ↦ arm_session p connected identity status armed now db'
      ]

-- The status after CANCEL, from the device's state
unfoldable pub cancelled_status : Option Text → SessionStatus
cancelled_status state =
    if opt_is state (codes "armed") then SessionStatus.cancelled else SessionStatus.finalizing

-- A status of the session, which is returned
unfoldable pub end_with : Text → SessionStatus → Text → Database → Committed ProvisionalSession
end_with session_id status now db = elim (update_provisional_status session_id status now db) [
  | ok (u, db') ↦ (find_session session_id db', db')
  | err e ↦ (err e, db)
]

-- `cancel`, with the reply to CANCEL and the manager's status after it
unfoldable pub cancel_active :
    Bool → Reply → Fields → Text → Database → Committed ProvisionalSession
unfolding cancelled_status end_with
cancel_active connected reply device_status now db = elim (active_provisional db) [
  | none ↦ (err StoreError.conflict, db)
  | some p ↦
      if is_none (truthy p.boot_id) || is_none p.event_seq
      then end_with p.session_id SessionStatus.cancelled now db
      else if not connected
      then end_with p.session_id SessionStatus.interrupted_uncertain now db
      else elim reply [
        | Reply.replied operation fields ↦
            end_with p.session_id (cancelled_status (field (codes "state") device_status)) now db
        | Reply.refused ↦ (err StoreError.conflict, db)
        | Reply.lost ↦ (err StoreError.conflict, db)
      ]
]
