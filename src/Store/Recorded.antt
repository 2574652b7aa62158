-- ===== src/Store/Recorded.antt =====
-- What a new result leaves in the tables of src/kegpulse/persistence/repository.py.
use keg_pulse.Base.{
  ◌≡◌, refl, ◌∙◌, inl, inr, not, Bool, true, false, List, ◌∷◌, Option, none, some, Bool-cases,
  Option-cases, arith, ◌&&◌, ◌==◌,
}
use keg_pulse.Base.Text.{Text}
use keg_pulse.Base.Rows.{find, has_row, update_where, find-update_where, find-update_where-none}
use keg_pulse.Base.Try.{Try, ok, require, ◌>>◌, Try-cases}
use keg_pulse.Models.{DeviceResult, is_timed_out}
use keg_pulse.Calibration.Decimals.{Decimals}
use keg_pulse.Store.Tables.{
  Database, StoreError, PourEvent, ProvisionalSession, SessionStatus, field_of, is_session, is_pour,
  is_participant, is_keg, is_calibration, refers, stored_status,
}
use keg_pulse.Store.Sessions.{set_status, set_captured, is_pour_purpose}
use keg_pulse.Store.Frame.{SameFacts, charge_pour-SameFacts}
use keg_pulse.Store.Results.{
  insert_pour, insert_result, clashes, matches_binding, result_row, charge_result, commit_pour,
  new_pour, finish, record_pour, record_result, factor_of, volume_of,
}

pub require-ok {ℓ} :
    {A : Type ℓ} (b : Bool) (e : StoreError) (k : Try StoreError A) (a : A)
    → (require b e >> k) ≡ ok a
    → (b ≡ true) × (k ≡ ok a)
require-ok true e k a h = (refl, h)
require-ok false e k a h = absurd (ground arith)

pub insert_pour-ok :
    (pour : PourEvent) (db db' : Database)
    → insert_pour pour db ≡ ok db'
    → db' ≡ record db { pours = pour ∷ db.pours }
unfolding insert_pour
insert_pour-ok pour db db' h =
    let a = require-ok (not (has_row (is_pour pour.id) db.pours)) _ _ db' h in
    let b = require-ok (not (has_row (clashes pour) db.pours)) _ _ db' a.1 in
    let c = require-ok (refers is_participant pour.participant_id db.participants) _ _ db' b.1 in
    let d = require-ok (refers is_keg pour.keg_id db.kegs) _ _ db' c.1 in
    let e = require-ok (refers is_calibration pour.calibration_id db.calibrations) _ _ db' d.1 in
    let f = e.1 in ground arith

pub charge_result-SameFacts :
    (d : Decimals) (pour_id : Text) (k : Option Text) (v : Option d.Number) (charge_id now : Text)
    (db db' : Database)
    → charge_result d pour_id k v charge_id now db ≡ ok db'
    → SameFacts db db'
unfolding charge_result SameFacts
charge_result-SameFacts d pour_id none v charge_id now db db' h =
    (ground arith, ground arith, ground arith, ground arith)
charge_result-SameFacts d pour_id (some k) none charge_id now db db' h =
    (ground arith, ground arith, ground arith, ground arith)
charge_result-SameFacts d pour_id (some k) (some v) charge_id now db db' h =
    charge_pour-SameFacts d pour_id k v charge_id now db db' h

-- An update that keeps a session's key and binding keeps the match of a result.
pub matches_binding-update_where :
    (r : DeviceResult) (k : Text) (q : ProvisionalSession → Bool)
    (f : ProvisionalSession → ProvisionalSession) (xs : List ProvisionalSession)
    → ((y : ProvisionalSession) → is_session k (f y) ≡ is_session k y)
    → ((y : ProvisionalSession) → matches_binding r (some (f y)) ≡ matches_binding r (some y))
    → matches_binding r (find (is_session k) (update_where q f xs))
      ≡ matches_binding r (find (is_session k) xs)
matches_binding-update_where r k q f xs same keep = elim (Option-cases (find (is_session k) xs)) [
  | inl e ↦ rw (find-update_where-none (is_session k) q f xs same e, e) refl
  | inr (x, e) ↦
      let found = find-update_where (is_session k) q f xs x same e in
      elim (Bool-cases (q x)) [ inl h ↦ rw (found, e, h) (keep x) | inr h ↦ rw (found, e, h) refl ]
]

-- A pour that is inserted, or none
abbrev pub with_pour : Option PourEvent → List PourEvent → List PourEvent
with_pour none pours = pours
with_pour (some p) pours = p ∷ pours

-- The tables after a new result: its row, its pour, and sessions that match as they did
unfoldable pub IsRecorded :
    DeviceResult → Text → Text → Option PourEvent → Database → Database → Type 0
IsRecorded r session_id now pour db db' =
    (db'.results
      ≡ result_row r session_id (field_of (λ (p : PourEvent). p.id) pour) now ∷ db.results)
    × (db'.pours ≡ with_pour pour db.pours)
    × (matches_binding r (find (is_session session_id) db'.sessions)
        ≡ matches_binding r (find (is_session session_id) db.sessions))

module _ (r : DeviceResult) (session_id now : Text) where
  finish-IsRecorded :
      (provisional : Option ProvisionalSession) (status : SessionStatus) (pour : Option PourEvent)
      (db a : Database)
      → IsRecorded r session_id now pour db a
      → IsRecorded r session_id now pour db (finish provisional status now a)
  unfolding IsRecorded set_status
  finish-IsRecorded none status pour db a h = h
  finish-IsRecorded (some p) status pour db a h = (
    h.0,
    h.1,
    matches_binding-update_where r session_id (is_session p.session_id)
          (λ s. record s { status = status; updated_at = now }) a.sessions (λ y. refl)
          (λ y. unfold matches_binding in refl)
        ∙ h.2,
  )

  commit_pour-IsRecorded :
      (d : Decimals) (provisional : Option ProvisionalSession) (new : PourEvent)
      (volume : Option d.Number) (charge_id : Text) (pour : Option PourEvent) (db db' : Database)
      → new.session_id ≡ session_id
      → commit_pour d r provisional new volume charge_id now db ≡ ok (pour, db')
      → IsRecorded r session_id now pour db db'
  unfolding commit_pour IsRecorded insert_result SameFacts
  commit_pour-IsRecorded d provisional new volume charge_id pour db db' s h =
      elim (Try-cases (insert_pour new db)) [
        | inr (e, q) ↦ absurd (ground arith)
        | inl (db1, q) ↦
            let db2 = insert_result (result_row r new.session_id (some new.id) now) db1 in
            let inserted = insert_pour-ok new db db1 q in
            elim (Try-cases (charge_result d new.id new.participant_id volume charge_id now db2)) [
              | inr (e, z) ↦ absurd (ground arith)
              | inl (db3, z) ↦
                  let same =
                    charge_result-SameFacts d new.id new.participant_id volume charge_id now db2 db3
                      z in
                  let poured : pour ≡ some new = ground arith in
                  let done : db' ≡ finish provisional SessionStatus.complete now db3 =
                    ground arith in
                  let before : IsRecorded r session_id now (some new) db db3 = (
                    rw (same.0, inserted, s) refl,
                    rw (same.1, inserted) refl,
                    rw (same.2, inserted) refl,
                  ) in
                  rw (done, poured)
                    (finish-IsRecorded provisional SessionStatus.complete (some new) db db3 before)
            ]
      ]

  pub record_pour-IsRecorded :
      (d : Decimals) (provisional : Option ProvisionalSession) (keg_id calibration_id : Option Text)
      (pour_id charge_id started_at : Text) (pour : Option PourEvent) (db db' : Database)
      → record_pour d r session_id provisional keg_id calibration_id pour_id charge_id started_at
          now db
        ≡ ok (pour, db')
      → IsRecorded r session_id now pour db db'
  unfolding record_pour
  record_pour-IsRecorded d provisional keg_id calibration_id pour_id charge_id started_at pour db
        db' h =
      elim (Try-cases (volume_of d r.raw_pulses (factor_of calibration_id db))) [
        | inr (e, q) ↦ absurd (ground arith)
        | inl (volume, q) ↦
            commit_pour-IsRecorded d provisional _ volume charge_id pour db db'
              (unfold new_pour in refl) (rw (record_pour, q) at h)
      ]

  -- A result without a pour: its row alone, and a session that matches as it did
  unpoured-IsRecorded :
      (f : ProvisionalSession → ProvisionalSession) (db : Database)
      → ((y : ProvisionalSession) → is_session session_id (f y) ≡ is_session session_id y)
      → ((y : ProvisionalSession) → matches_binding r (some (f y)) ≡ matches_binding r (some y))
      → IsRecorded r session_id now none db
          (record (insert_result (result_row r session_id none now) db) {
            sessions = update_where (is_session session_id) f db.sessions;
          })
  unfolding IsRecorded insert_result
  unpoured-IsRecorded f db same keep = (
    refl,
    refl,
    matches_binding-update_where r session_id (is_session session_id) f db.sessions same keep,
  )

  pub record_result-IsRecorded :
      (d : Decimals) (provisional : Option ProvisionalSession) (keg_id calibration_id : Option Text)
      (captured : Bool) (pour_id charge_id started_at : Text) (pour : Option PourEvent)
      (db db' : Database)
      → record_result d r session_id provisional keg_id calibration_id captured pour_id charge_id
          started_at now db
        ≡ ok (pour, db')
      → IsRecorded r session_id now pour db db'
  unfolding record_result insert_result
  record_result-IsRecorded d none keg_id calibration_id captured pour_id charge_id started_at pour
        db db' h =
      elim (Bool-cases (is_timed_out r.status && r.raw_pulses == 0)) [
        | inl e ↦
            let a : pour ≡ none = ground arith in
            let b : db' ≡ insert_result (result_row r session_id none now) db = ground arith in
            rw (a, b) (unfold IsRecorded insert_result in (refl, refl, refl))
        | inr e ↦
            record_pour-IsRecorded d none _ _ pour_id charge_id started_at pour db db'
              (rw (record_result, e) at h)
      ]
  record_result-IsRecorded d (some p) keg_id calibration_id captured pour_id charge_id started_at
        pour db db' h =
      elim (Bool-cases (is_pour_purpose p.purpose)) [
        | inr f ↦
            let a : pour ≡ none = ground arith in
            let b : db'
                ≡ set_captured session_id (stored_status r.status) r.raw_pulses now
                    (insert_result (result_row r session_id none now) db) =
              ground arith in
            rw (a, b)
              (unfold set_captured in
                unpoured-IsRecorded _ db (λ y. refl) (λ y. unfold matches_binding in refl))
        | inl f ↦ elim (Bool-cases (is_timed_out r.status && r.raw_pulses == 0)) [
          | inl e ↦
              let a : pour ≡ none = ground arith in
              let b : db'
                  ≡ set_status session_id SessionStatus.timed_out now
                      (insert_result (result_row r session_id none now) db) =
                ground arith in
              rw (a, b)
                (unfold set_status in
                  unpoured-IsRecorded _ db (λ y. refl) (λ y. unfold matches_binding in refl))
          | inr e ↦
              record_pour-IsRecorded d (some p) _ _ pour_id charge_id started_at pour db db'
                (rw (record_result, f, e) at h)
        ]
      ]
