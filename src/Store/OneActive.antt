-- ===== src/Store/OneActive.antt =====
-- One session at a time, and one open keg: src/kegpulse/persistence/repository.py.
use keg_pulse.Base.{
  ℕ, suc, ◌≡◌, refl, ap, inl, inr, not, true, false, List, [], ◌∷◌, Option, none, some, Bool-cases,
  Option-cases, arith, length,
}
use keg_pulse.Base.Text.{Text, =t_refl}
use keg_pulse.Base.Rows.{find, has_row, select, update_where}
use keg_pulse.Base.Try.{ok, Try-cases}
use keg_pulse.Store.Tables.{
  Database, Keg, ProvisionalSession, Purpose, is_session, is_active_session, is_keg, is_open_keg,
  open_keg,
}
use keg_pulse.Store.Sessions.{
  create_provisional, arming_session, insert_session, fits_purpose, has_key, is_ordinal,
  admits_participant, admits_calibration,
}
use keg_pulse.Store.Kegs.{install, replace_open_keg, follows_keg}
use keg_pulse.Store.Recorded.{require-ok}

select-none :
    (xs : List ProvisionalSession)
    → has_row is_active_session xs ≡ false
    → length (select is_active_session xs) ≡ 0
unfolding has_row find select
select-none [] h = refl
select-none (x ∷ xs) h = elim (Bool-cases (is_active_session x)) [
  | inl e ↦ absurd (ground arith)
  | inr e ↦ let ih = select-none xs (rw (has_row, find, e) at h) in rw (select, e) ih
]

insert_session-ok :
    (s : ProvisionalSession) (db db' : Database)
    → insert_session s db ≡ ok db'
    → db' ≡ record db { sessions = s ∷ db.sessions }
unfolding insert_session
insert_session-ok s db db' h =
    let a = require-ok (is_ordinal s.target_ordinal) _ _ db' h in
    let b = require-ok (not (has_row (is_session s.session_id) db.sessions)) _ _ db' a.1 in
    let c = b.1 in ground arith

-- What a call that made a new session did
pub create_provisional-new :
    (participant_id : Option Text) (key : Text) (purpose : Purpose) (calibration_id : Option Text)
    (ordinal : Option ℕ) (session_id now : Text) (s : ProvisionalSession) (db db' : Database)
    → create_provisional participant_id key purpose calibration_id ordinal session_id now db
      ≡ ok ((s, false), db')
    → (fits_purpose purpose calibration_id ordinal ≡ true)
      × (s ≡ arming_session participant_id key purpose calibration_id ordinal session_id now db)
      × (has_row is_active_session db.sessions ≡ false)
      × (db' ≡ record db { sessions = s ∷ db.sessions })
unfolding create_provisional insert_session
create_provisional-new participant_id key purpose calibration_id ordinal session_id now s db db' h =
    let new = arming_session participant_id key purpose calibration_id ordinal session_id now db in
    let fits = require-ok (fits_purpose purpose calibration_id ordinal) _ _ ((s, false), db') h in
    elim (Option-cases (find (has_key key) db.sessions)) [
      | inr (old, e) ↦ absurd (ground arith)
      | inl e ↦
          let f = fits.0 in
          elim (Bool-cases (has_row is_active_session db.sessions)) [
            | inl q ↦ absurd (ground arith)
            | inr q ↦ elim (Bool-cases (admits_participant participant_id db)) [
              | inr w ↦ absurd (ground arith)
              | inl w ↦ elim (Try-cases (admits_calibration purpose calibration_id db)) [
                | inr (x, y) ↦ absurd (ground arith)
                | inl (u, y) ↦ elim (Try-cases (insert_session new db)) [
                  | inr (x, z) ↦ absurd (ground arith)
                  | inl (db1, z) ↦
                      let inserted = insert_session-ok new db db1 z in
                      let same : s ≡ new = ground arith in
                      let after : db' ≡ db1 = ground arith in
                      (f, same, q, rw (after, inserted, same) refl)
                ]
              ]
            ]
          ]
    ]

-- A call that makes a session leaves exactly one active session, the new one.
pub create_provisional-one_active :
    (participant_id : Option Text) (key : Text) (purpose : Purpose) (calibration_id : Option Text)
    (ordinal : Option ℕ) (session_id now : Text) (s : ProvisionalSession) (db db' : Database)
    → create_provisional participant_id key purpose calibration_id ordinal session_id now db
      ≡ ok ((s, false), db')
    → (length (select is_active_session db'.sessions) ≡ 1)
      × (find is_active_session db'.sessions ≡ some s)
unfolding select find arming_session
create_provisional-one_active participant_id key purpose calibration_id ordinal session_id now s db
      db' h =
    let made =
      create_provisional-new participant_id key purpose calibration_id ordinal session_id now s db
        db' h in
    let none_before = select-none db.sessions made.2 in
    let arming : is_active_session s ≡ true = rw made.1 refl in
    (rw (made.3, select, arming) (ap suc none_before), rw (made.3, find, arming) refl)

-- A call with a key that made a session finds this session again, whatever its other arguments, as
-- long as these fit the purpose, and leaves the tables as they are.
pub create_provisional-idempotent :
    (participant_id participant_id' : Option Text) (key : Text) (purpose purpose' : Purpose)
    (calibration_id calibration_id' : Option Text) (ordinal ordinal' : Option ℕ)
    (session_id session_id' now now' : Text) (s : ProvisionalSession) (db db' : Database)
    → create_provisional participant_id key purpose calibration_id ordinal session_id now db
      ≡ ok ((s, false), db')
    → fits_purpose purpose' calibration_id' ordinal' ≡ true
    → create_provisional participant_id' key purpose' calibration_id' ordinal' session_id' now' db'
      ≡ ok ((s, true), db')
unfolding create_provisional find arming_session
create_provisional-idempotent participant_id participant_id' key purpose purpose' calibration_id
      calibration_id' ordinal ordinal' session_id session_id' now now' s db db' h fits =
    let made =
      create_provisional-new participant_id key purpose calibration_id ordinal session_id now s db
        db' h in
    let own : has_key key s ≡ true = rw (made.1, =t_refl key) refl in
    let found : find (has_key key) db'.sessions ≡ some s = rw (made.3, find, own) refl in
    rw (create_provisional, fits, found) refl

closed-none :
    (t : Text) (kegs : List Keg)
    → length
        (select is_open_keg (update_where is_open_keg (λ k. record k { closed_at = some t }) kegs))
      ≡ 0
unfolding select update_where
closed-none t [] = refl
closed-none t (k ∷ kegs) =
    let ih = closed-none t kegs in
    elim (Bool-cases (is_open_keg k)) [
      | inl e ↦ rw (update_where, e, select) ih
      | inr e ↦ rw (update_where, e, select, e) ih
    ]

-- A keg that is installed is the open keg, and the only one; no session was active, and it was not opened
-- before the keg that it replaces.
pub replace_open_keg-one_open :
    (keg new : Keg) (db db' : Database)
    → keg.closed_at ≡ none
    → replace_open_keg keg db ≡ ok (new, db')
    → (length (select is_open_keg db'.kegs) ≡ 1)
      × (open_keg db' ≡ some keg)
      × (has_row is_active_session db.sessions ≡ false)
      × (follows_keg keg.opened_at (open_keg db) ≡ true)
unfolding replace_open_keg install select find
replace_open_keg-one_open keg new db db' o h =
    let a = require-ok (not (has_row is_active_session db.sessions)) _ _ (new, db') h in
    let b = require-ok (follows_keg keg.opened_at (open_keg db)) _ _ (new, db') a.1 in
    let c = require-ok (not (has_row (is_keg keg.id) db.kegs)) _ _ (new, db') b.1 in
    let d = c.1 in
    let a0 = a.0 in
    let same : db' ≡ install keg db = ground arith in
    let idle : has_row is_active_session db.sessions ≡ false = ground arith in
    let is_open : is_open_keg keg ≡ true = rw o refl in
    (
      rw (same, install, select, is_open) (ap suc (closed-none keg.opened_at db.kegs)),
      rw (same, install, find, is_open) refl,
      idle,
      b.0,
    )
