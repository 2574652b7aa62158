-- ===== src/Store/ExactlyOnce.antt =====
-- A result that the device sends again is not counted again: `finalize_device_result` of
-- src/kegpulse/persistence/repository.py.
use keg_pulse.Base.{
  ℕ, ◌≡◌, refl, inl, inr, not, Bool, true, false, Option, none, some, Bool-cases, Option-cases,
  arith, ◌||◌, pos, ==_iff,
}
use keg_pulse.Base.Text.{Text, =t_refl}
use keg_pulse.Base.Rows.{find}
use keg_pulse.Base.Try.{ok, Try-cases}
use keg_pulse.Models.{DeviceResult}
use keg_pulse.Measurement.Integrity.{elapsed_u32, ensure_plausible_pulse_count}
use keg_pulse.Calibration.Decimals.{Decimals}
use keg_pulse.Store.Tables.{Database, PourEvent, truthy, is_pour, field_of}
use keg_pulse.Store.Results.{
  matches_binding, provisional_of, is_result_of, record_result, finalize_in, finalize_device_result,
  result_session, result_row,
}
use keg_pulse.Store.Recorded.{IsRecorded, record_result-IsRecorded}

provisional_of-IsRecorded :
    (r : DeviceResult) (session_id now : Text) (pour : Option PourEvent) (db db' : Database)
    → IsRecorded r session_id now pour db db'
    → matches_binding r (provisional_of r session_id db')
      ≡ matches_binding r (provisional_of r session_id db)
unfolding IsRecorded provisional_of
provisional_of-IsRecorded r session_id now pour db db' h =
    elim (Option-cases (truthy r.session_id)) [
      | inl e ↦ rw (provisional_of, e) refl
      | inr (s, e) ↦ rw (provisional_of, e) h.2
    ]

-- A result that found no row of its event was recorded.
pub finalize_in-IsRecorded :
    (d : Decimals) (r : DeviceResult) (session_id : Text) (keg_id calibration_id : Option Text)
    (captured : Bool) (pour_id charge_id started_at now : Text) (pour : Option PourEvent)
    (db db' : Database)
    → finalize_in d r session_id keg_id calibration_id captured pour_id charge_id started_at now db
      ≡ ok ((pour, false), db')
    → ((not r.attributed || matches_binding r (provisional_of r session_id db)) ≡ true)
      × IsRecorded r session_id now pour db db'
unfolding finalize_in
finalize_in-IsRecorded d r session_id keg_id calibration_id captured pour_id charge_id started_at
      now pour db db' h =
    elim (Bool-cases (not r.attributed || matches_binding r (provisional_of r session_id db))) [
      | inr f ↦ absurd (ground arith)
      | inl f ↦
          elim (Option-cases (find (is_result_of r.device_id r.boot_id r.event_seq) db.results)) [
            | inr (row, e) ↦ elim (Option-cases row.pour_id) [
              | inl n ↦ absurd (ground arith)
              | inr (k, n) ↦ elim (Option-cases (find (is_pour k) db.pours)) [
                | inl m ↦ absurd (ground arith)
                | inr (p, m) ↦ absurd (ground arith)
              ]
            ]
            | inl e ↦
                elim (Try-cases (
                  record_result d r session_id (provisional_of r session_id db) keg_id
                    calibration_id captured pour_id charge_id started_at now db)) [
                      | inr (x, q) ↦ absurd (ground arith)
                      | inl ((p, db1), q) ↦
                          let a : pour ≡ p = ground arith in
                          let b : db' ≡ db1 = ground arith in
                          (
                            f,
                            rw (a, b)
                                (record_result-IsRecorded r session_id now d _ keg_id calibration_id
                                  captured pour_id charge_id started_at p db db1 q),
                          )
                    ]
          ]
    ]

pub result-found :
    (r : DeviceResult) (session_id now : Text) (pour : Option PourEvent) (db db' : Database)
    → IsRecorded r session_id now pour db db'
    → find (is_result_of r.device_id r.boot_id r.event_seq) db'.results
      ≡ some (result_row r session_id (field_of (λ (p : PourEvent). p.id) pour) now)
unfolding IsRecorded find
result-found r session_id now pour db db' h =
    rw (h.0, find, =t_refl r.device_id, =t_refl r.boot_id, (==_iff r.event_seq r.event_seq).1 refl)
      refl

-- A result that is in the tables, with its pour, is a duplicate.
finalize_in-duplicate :
    (d : Decimals) (r : DeviceResult) (session_id : Text) (keg_id calibration_id : Option Text)
    (captured : Bool) (pour_id charge_id started_at now then_at : Text) (pour : Option PourEvent)
    (db db' : Database)
    → IsRecorded r session_id then_at pour db db'
    → (not r.attributed || matches_binding r (provisional_of r session_id db')) ≡ true
    → finalize_in d r session_id keg_id calibration_id captured pour_id charge_id started_at now db'
      ≡ ok ((pour, true), db')
unfolding finalize_in IsRecorded find
finalize_in-duplicate d r session_id keg_id calibration_id captured pour_id charge_id started_at now
      then_at none db db' h f =
    let found = result-found r session_id then_at none db db' h in rw (finalize_in, f, found) refl
finalize_in-duplicate d r session_id keg_id calibration_id captured pour_id charge_id started_at now
      then_at (some p) db db' h f =
    let found = result-found r session_id then_at (some p) db db' h in
    let kept : find (is_pour p.id) db'.pours ≡ some p = rw (h.1, find, =t_refl p.id) refl in
    rw (finalize_in, f, found, kept) refl

-- Once a result was finalized, finalizing it again, whatever the other arguments, finds it to be a
-- duplicate, returns the same pour, or none where there was none, and leaves the tables as they are.
pub finalize_device_result-once :
    (d : Decimals) (canonical : Text → Option Text) (uuid5 : Text → Text)
    (started started' : ℕ → Text) (r : DeviceResult)
    (keg_id keg_id' calibration_id calibration_id' : Option Text) (captured captured' : Bool)
    (pour_id pour_id' charge_id charge_id' now now' : Text) (pour : Option PourEvent)
    (db db' : Database)
    → finalize_device_result d canonical uuid5 started r keg_id calibration_id captured pour_id
        charge_id now db
      ≡ ok ((pour, false), db')
    → finalize_device_result d canonical uuid5 started' r keg_id' calibration_id' captured' pour_id'
        charge_id' now' db'
      ≡ ok ((pour, true), db')
unfolding finalize_device_result
finalize_device_result-once d canonical uuid5 started started' r keg_id keg_id' calibration_id
      calibration_id' captured captured' pour_id pour_id' charge_id charge_id' now now' pour db db'
      h =
    elim (Try-cases (elapsed_u32 (pos r.started_ms) (pos r.ended_ms))) [
      | inr (e, a) ↦ absurd (ground arith)
      | inl (duration, a) ↦
          elim (Try-cases (ensure_plausible_pulse_count (pos r.raw_pulses) (pos duration))) [
            | inr (e, b) ↦ absurd (ground arith)
            | inl (u, b) ↦ elim (Try-cases (result_session d canonical uuid5 r)) [
              | inr (e, c) ↦ absurd (ground arith)
              | inl (session_id, c) ↦
                  let done =
                    finalize_in-IsRecorded d r session_id keg_id calibration_id captured pour_id
                      charge_id (started duration) now pour db db'
                      (rw (finalize_device_result, a, b, c) at h) in
                  let still = provisional_of-IsRecorded r session_id now pour db db' done.1 in
                  rw (finalize_device_result, a, b, c)
                    (finalize_in-duplicate d r session_id keg_id' calibration_id' captured' pour_id'
                      charge_id' (started' duration) now' now pour db db' done.1 (rw still done.0))
            ]
          ]
    ]
