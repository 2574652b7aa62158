-- ===== src/Store/Accounts.antt =====
-- `reassign_pour` and `finalize_device_result` of src/kegpulse/persistence/repository.py, and the balances.
use keg_pulse.Base.{
  ℕ, ◌≡◌, inl, inr, not, Bool, Option, none, some, Bool-cases, Option-cases, arith, ◌&&◌, ◌||◌,
  ◌==◌, pos,
}
use keg_pulse.Base.Text.{Text, ◌=t◌}
use keg_pulse.Base.Strip.{strip}
use keg_pulse.Base.Rows.{find, has_row}
use keg_pulse.Base.Try.{ok, Try-cases}
use keg_pulse.Models.{DeviceResult, is_timed_out}
use keg_pulse.Measurement.Integrity.{elapsed_u32, ensure_plausible_pulse_count}
use keg_pulse.Calibration.Decimals.{Decimals}
use keg_pulse.Store.Tables.{
  Database, PourEvent, AuditEntry, ProvisionalSession, SessionStatus, is_participant, is_pour,
  stored_status,
}
use keg_pulse.Store.Participants.{has_length}
use keg_pulse.Store.Charges.{move_charge, reassign_pour, attribute_pour}
use keg_pulse.Store.Sessions.{set_status, set_captured, is_pour_purpose}
use keg_pulse.Store.Results.{
  insert_pour, insert_result, result_row, charge_result, commit_pour, new_pour, finish, record_pour,
  record_result, factor_of, volume_of, finalize_in, finalize_device_result, result_session,
  provisional_of, matches_binding, is_result_of,
}
use keg_pulse.Store.Recorded.{require-ok, insert_pour-ok}
use keg_pulse.Store.Ledger.{HasBalances}
use keg_pulse.Store.Balance.{charge_pour-HasBalances, move_charge-HasBalances}

pub reassign_pour-HasBalances :
    (d : Decimals) (pour_id participant_id reason audit_id refund_id charge_id now : Text)
    (db db' : Database) (pour : PourEvent)
    → HasBalances db
    → reassign_pour d pour_id participant_id reason audit_id refund_id charge_id now db
      ≡ ok (pour, db')
    → HasBalances db'
unfolding reassign_pour HasBalances attribute_pour
reassign_pour-HasBalances d pour_id participant_id reason audit_id refund_id charge_id now db db'
      pour h k =
    let clean = require-ok (has_length 500 (strip reason)) _ _ (pour, db') k in
    elim (Option-cases (find (is_pour pour_id) db.pours)) [
      | inl e ↦ absurd (ground arith)
      | inr (old, e) ↦ elim (Option-cases (find (is_participant participant_id) db.participants)) [
        | inl q ↦ absurd (ground arith)
        | inr (p, q) ↦
            elim (Bool-cases (not (has_row (λ (a : AuditEntry). a.id =t audit_id) db.audit))) [
              | inr z ↦ absurd (ground arith)
              | inl z ↦
                  let audit : AuditEntry = record {
                    id = audit_id;
                    pour_id = pour_id;
                    old_participant_id = old.participant_id;
                    new_participant_id = some participant_id;
                    reason = strip reason;
                    created_at = now;
                  } in
                  let db1 = attribute_pour old audit participant_id db in
                  elim (Try-cases (move_charge d old participant_id refund_id charge_id now db1)) [
                    | inr (x, y) ↦ absurd (ground arith)
                    | inl (db2, y) ↦
                        let moved =
                          move_charge-HasBalances d old participant_id refund_id charge_id now db1
                            db2 h y in
                        elim (Option-cases (find (is_pour pour_id) db2.pours)) [
                          | inl w ↦ absurd (ground arith)
                          | inr (row, w) ↦ (let same : db' ≡ db2 = ground arith in rw same moved)
                        ]
                  ]
            ]
      ]
    ]

charge_result-HasBalances :
    (d : Decimals) (pour_id : Text) (k : Option Text) (v : Option d.Number) (charge_id now : Text)
    (db db' : Database)
    → HasBalances db
    → charge_result d pour_id k v charge_id now db ≡ ok db'
    → HasBalances db'
unfolding charge_result
charge_result-HasBalances d pour_id none v charge_id now db db' h k =
    (let same : db' ≡ db = ground arith in rw same h)
charge_result-HasBalances d pour_id (some i) none charge_id now db db' h k =
    (let same : db' ≡ db = ground arith in rw same h)
charge_result-HasBalances d pour_id (some i) (some v) charge_id now db db' h k =
    charge_pour-HasBalances d pour_id i v charge_id now db db' h k

finish-HasBalances :
    (p : Option ProvisionalSession) (status : SessionStatus) (now : Text) (db : Database)
    → HasBalances db
    → HasBalances (finish p status now db)
unfolding HasBalances set_status
finish-HasBalances none status now db h = h
finish-HasBalances (some p) status now db h = h

record_pour-HasBalances :
    (d : Decimals) (r : DeviceResult) (session_id : Text) (provisional : Option ProvisionalSession)
    (keg_id calibration_id : Option Text) (pour_id charge_id started_at now : Text)
    (pour : Option PourEvent) (db db' : Database)
    → HasBalances db
    → record_pour d r session_id provisional keg_id calibration_id pour_id charge_id started_at now
        db
      ≡ ok (pour, db')
    → HasBalances db'
unfolding record_pour commit_pour new_pour HasBalances insert_result
record_pour-HasBalances d r session_id provisional keg_id calibration_id pour_id charge_id
      started_at now pour db db' h k =
    elim (Try-cases (volume_of d r.raw_pulses (factor_of calibration_id db))) [
      | inr (e, q) ↦ absurd (ground arith)
      | inl (volume, q) ↦
          let participant_id : Option Text = elim provisional [
            | none ↦ none
            | some p ↦ p.participant_id
          ] in
          let new =
            new_pour d r session_id participant_id keg_id calibration_id
              (factor_of calibration_id db) volume pour_id started_at now in
          elim (Try-cases (insert_pour new db)) [
            | inr (e, z) ↦ absurd (ground arith)
            | inl (db1, z) ↦
                let inserted = insert_pour-ok new db db1 z in
                let db2 = insert_result (result_row r session_id (some pour_id) now) db1 in
                let before : HasBalances db2 = rw inserted h in
                elim (Try-cases (charge_result d pour_id participant_id volume charge_id now db2)) [
                  | inr (e, y) ↦ absurd (ground arith)
                  | inl (db3, y) ↦
                      let same : db' ≡ finish provisional SessionStatus.complete now db3 =
                        ground arith in
                      rw same (
                        finish-HasBalances provisional SessionStatus.complete now db3 (
                          charge_result-HasBalances d pour_id participant_id volume charge_id now
                            db2 db3 before y))
                ]
          ]
    ]

record_result-HasBalances :
    (d : Decimals) (r : DeviceResult) (session_id : Text) (provisional : Option ProvisionalSession)
    (keg_id calibration_id : Option Text) (captured : Bool)
    (pour_id charge_id started_at now : Text) (pour : Option PourEvent) (db db' : Database)
    → HasBalances db
    → record_result d r session_id provisional keg_id calibration_id captured pour_id charge_id
        started_at now db
      ≡ ok (pour, db')
    → HasBalances db'
unfolding record_result HasBalances insert_result set_status set_captured
record_result-HasBalances d r session_id none keg_id calibration_id captured pour_id charge_id
      started_at now pour db db' h k =
    elim (Bool-cases (is_timed_out r.status && r.raw_pulses == 0)) [
      | inl e ↦
          (let same : db' ≡ insert_result (result_row r session_id none now) db = ground arith in
            rw same h)
      | inr e ↦
          record_pour-HasBalances d r session_id none _ _ pour_id charge_id started_at now pour db
            db' h (rw (record_result, e) at k)
    ]
record_result-HasBalances d r session_id (some p) keg_id calibration_id captured pour_id charge_id
      started_at now pour db db' h k =
    let row = insert_result (result_row r session_id none now) db in
    elim (Bool-cases (is_pour_purpose p.purpose)) [
      | inr f ↦
          (let same : db' ≡ set_captured session_id (stored_status r.status) r.raw_pulses now row =
              ground arith in
            rw same h)
      | inl f ↦ elim (Bool-cases (is_timed_out r.status && r.raw_pulses == 0)) [
        | inl e ↦
            (let same : db' ≡ set_status session_id SessionStatus.timed_out now row =
                ground arith in
              rw same h)
        | inr e ↦
            record_pour-HasBalances d r session_id (some p) _ _ pour_id charge_id started_at now
              pour db db' h (rw (record_result, f, e) at k)
      ]
    ]

finalize_in-HasBalances :
    (d : Decimals) (r : DeviceResult) (session_id : Text) (keg_id calibration_id : Option Text)
    (captured : Bool) (pour_id charge_id started_at now : Text) (answer : Option PourEvent × Bool)
    (db db' : Database)
    → HasBalances db
    → finalize_in d r session_id keg_id calibration_id captured pour_id charge_id started_at now db
      ≡ ok (answer, db')
    → HasBalances db'
unfolding finalize_in
finalize_in-HasBalances d r session_id keg_id calibration_id captured pour_id charge_id started_at
      now answer db db' h k =
    elim (Bool-cases (not r.attributed || matches_binding r (provisional_of r session_id db))) [
      | inr f ↦ absurd (ground arith)
      | inl f ↦
          elim (Option-cases (find (is_result_of r.device_id r.boot_id r.event_seq) db.results)) [
            | inr (row, e) ↦ elim (Option-cases row.pour_id) [
              | inl n ↦ (let same : db' ≡ db = ground arith in rw same h)
              | inr (i, n) ↦ elim (Option-cases (find (is_pour i) db.pours)) [
                | inl m ↦ absurd (ground arith)
                | inr (p, m) ↦ (let same : db' ≡ db = ground arith in rw same h)
              ]
            ]
            | inl e ↦
                elim (Try-cases (
                  record_result d r session_id (provisional_of r session_id db) keg_id
                    calibration_id captured pour_id charge_id started_at now db)) [
                      | inr (x, q) ↦ absurd (ground arith)
                      | inl ((p, db1), q) ↦
                          let same : db' ≡ db1 = ground arith in
                          rw same (
                            record_result-HasBalances d r session_id _ keg_id calibration_id
                              captured pour_id charge_id started_at now p db db1 h q)
                    ]
          ]
    ]

pub finalize_device_result-HasBalances :
    (d : Decimals) (canonical : Text → Option Text) (uuid5 : Text → Text) (started : ℕ → Text)
    (r : DeviceResult) (keg_id calibration_id : Option Text) (captured : Bool)
    (pour_id charge_id now : Text) (answer : Option PourEvent × Bool) (db db' : Database)
    → HasBalances db
    → finalize_device_result d canonical uuid5 started r keg_id calibration_id captured pour_id
        charge_id now db
      ≡ ok (answer, db')
    → HasBalances db'
unfolding finalize_device_result
finalize_device_result-HasBalances d canonical uuid5 started r keg_id calibration_id captured
      pour_id charge_id now answer db db' h k =
    elim (Try-cases (elapsed_u32 (pos r.started_ms) (pos r.ended_ms))) [
      | inr (e, a) ↦ absurd (ground arith)
      | inl (duration, a) ↦
          elim (Try-cases (ensure_plausible_pulse_count (pos r.raw_pulses) (pos duration))) [
            | inr (e, b) ↦ absurd (ground arith)
            | inl (u, b) ↦ elim (Try-cases (result_session d canonical uuid5 r)) [
              | inr (e, c) ↦ absurd (ground arith)
              | inl (session_id, c) ↦
                  finalize_in-HasBalances d r session_id keg_id calibration_id captured pour_id
                    charge_id (started duration) now answer db db' h
                    (rw (finalize_device_result, a, b, c) at k)
            ]
          ]
    ]
