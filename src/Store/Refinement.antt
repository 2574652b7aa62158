-- ===== src/Store/Refinement.antt =====
-- `finalize_device_result` of src/kegpulse/persistence/repository.py as an insertion into a map from events
-- to pulses.
use keg_pulse.Base.{
  ℕ, ◌≡◌, refl, inl, inr, not, Bool, true, false, Option, none, some, Bool-cases, Option-cases,
  arith, if◌then◌else◌, ◌&&◌, ◌||◌, ◌==◌, pos, ==_iff,
}
use keg_pulse.Base.Text.{Text, =t_to, ◌=t◌}
use keg_pulse.Base.Rows.{find}
use keg_pulse.Base.Try.{ok, Try-cases}
use keg_pulse.Models.{DeviceResult}
use keg_pulse.Measurement.Integrity.{elapsed_u32, ensure_plausible_pulse_count}
use keg_pulse.Calibration.Decimals.{Decimals}
use keg_pulse.Store.Tables.{Database, PourEvent, ResultRow, is_pour, field_of, given}
use keg_pulse.Store.Results.{
  matches_binding, provisional_of, is_result_of, record_result, finalize_in, finalize_device_result,
  result_session,
}
use keg_pulse.Store.Recorded.{IsRecorded}
use keg_pulse.Store.ExactlyOnce.{finalize_in-IsRecorded}

-- The abstract store: the pulses that each event of a device's boot has, if it is there
abbrev pub Events : Type 0
Events = Text → Text → ℕ → Option ℕ

-- An event's first value stays.
abbrev pub put_once : Text → Text → ℕ → ℕ → Events → Events
put_once device_id boot_id seq pulses events dev boot n =
    if device_id =t dev && boot_id =t boot && seq == n
    then some (given (events dev boot n) pulses)
    else events dev boot n

-- The abstract store of the tables
unfoldable pub events_of : Database → Events
events_of db dev boot n =
    field_of (λ (row : ResultRow). row.raw_pulses) (find (is_result_of dev boot n) db.results)

-- A result that is found leaves the tables.
finalize_in-same :
    (d : Decimals) (r : DeviceResult) (session_id : Text) (keg_id calibration_id : Option Text)
    (captured : Bool) (pour_id charge_id started_at now : Text) (answer : Option PourEvent × Bool)
    (row : ResultRow) (db db' : Database)
    → find (is_result_of r.device_id r.boot_id r.event_seq) db.results ≡ some row
    → finalize_in d r session_id keg_id calibration_id captured pour_id charge_id started_at now db
      ≡ ok (answer, db')
    → db' ≡ db
unfolding finalize_in
finalize_in-same d r session_id keg_id calibration_id captured pour_id charge_id started_at now
      answer row db db' e h =
    elim (Bool-cases (not r.attributed || matches_binding r (provisional_of r session_id db))) [
      | inr f ↦ absurd (ground arith)
      | inl f ↦ elim (Option-cases row.pour_id) [
        | inl n ↦ ground arith
        | inr (k, n) ↦ elim (Option-cases (find (is_pour k) db.pours)) [
          | inl m ↦ absurd (ground arith)
          | inr (p, m) ↦ ground arith
        ]
      ]
    ]

-- A result that is not found is new.
finalize_in-new :
    (d : Decimals) (r : DeviceResult) (session_id : Text) (keg_id calibration_id : Option Text)
    (captured : Bool) (pour_id charge_id started_at now : Text) (pour : Option PourEvent)
    (duplicate : Bool) (db db' : Database)
    → find (is_result_of r.device_id r.boot_id r.event_seq) db.results ≡ none
    → finalize_in d r session_id keg_id calibration_id captured pour_id charge_id started_at now db
      ≡ ok ((pour, duplicate), db')
    → duplicate ≡ false
unfolding finalize_in
finalize_in-new d r session_id keg_id calibration_id captured pour_id charge_id started_at now pour
      duplicate db db' e h =
    elim (Bool-cases (not r.attributed || matches_binding r (provisional_of r session_id db))) [
      | inr f ↦ absurd (ground arith)
      | inl f ↦
          elim (Try-cases (
            record_result d r session_id (provisional_of r session_id db) keg_id calibration_id
              captured pour_id charge_id started_at now db)) [
                | inr (x, q) ↦ absurd (ground arith)
                | inl ((p, db1), q) ↦ ground arith
              ]
    ]

same_event :
    (a b c d : Text) (m n : ℕ) → (a =t b && c =t d && m == n) ≡ true → (a ≡ b) × (c ≡ d) × (m ≡ n)
same_event a b c d m n h =
    let x : (a =t b) ≡ true = ground arith in
    let y : (c =t d) ≡ true = ground arith in
    let z : (m == n) ≡ true = ground arith in (=t_to a b x, =t_to c d y, (==_iff m n).0 z)

finalize_in-events_of :
    (d : Decimals) (r : DeviceResult) (session_id : Text) (keg_id calibration_id : Option Text)
    (captured : Bool) (pour_id charge_id started_at now : Text) (pour : Option PourEvent)
    (duplicate : Bool) (db db' : Database)
    → finalize_in d r session_id keg_id calibration_id captured pour_id charge_id started_at now db
      ≡ ok ((pour, duplicate), db')
    → (dev boot : Text) (n : ℕ)
    → events_of db' dev boot n
      ≡ put_once r.device_id r.boot_id r.event_seq r.raw_pulses (events_of db) dev boot n
unfolding events_of find IsRecorded
finalize_in-events_of d r session_id keg_id calibration_id captured pour_id charge_id started_at now
      pour duplicate db db' h dev boot n =
    let here = r.device_id =t dev && r.boot_id =t boot && r.event_seq == n in
    elim (Option-cases (find (is_result_of r.device_id r.boot_id r.event_seq) db.results)) [
      | inr (row, e) ↦
          let same =
            finalize_in-same d r session_id keg_id calibration_id captured pour_id charge_id
              started_at now (pour, duplicate) row db db' e h in
          elim (Bool-cases here) [
            | inr q ↦ rw (same, q) refl
            | inl q ↦
                (let keys = same_event r.device_id dev r.boot_id boot r.event_seq n q in
                  let found : find (is_result_of dev boot n) db.results ≡ some row =
                    rw (← keys.0, ← keys.1, ← keys.2) e in
                  rw (same, q, events_of, found) refl)
          ]
      | inl e ↦
          let fresh =
            finalize_in-new d r session_id keg_id calibration_id captured pour_id charge_id
              started_at now pour duplicate db db' e h in
          let done =
            finalize_in-IsRecorded d r session_id keg_id calibration_id captured pour_id charge_id
              started_at now pour db db' (rw fresh at h) in
          elim (Bool-cases here) [
            | inr q ↦ rw (events_of, done.1.0, find, q) refl
            | inl q ↦
                (let keys = same_event r.device_id dev r.boot_id boot r.event_seq n q in
                  let gone : find (is_result_of dev boot n) db.results ≡ none =
                    rw (← keys.0, ← keys.1, ← keys.2) e in
                  rw (events_of, done.1.0, find, q, gone) refl)
          ]
    ]

-- To finalize a result is to insert its pulses at its event, where an event's first value stays: every
-- event reads afterwards as in the abstract store.
pub finalize_device_result-put_once :
    (d : Decimals) (canonical : Text → Option Text) (uuid5 : Text → Text) (started : ℕ → Text)
    (r : DeviceResult) (keg_id calibration_id : Option Text) (captured : Bool)
    (pour_id charge_id now : Text) (pour : Option PourEvent) (duplicate : Bool) (db db' : Database)
    → finalize_device_result d canonical uuid5 started r keg_id calibration_id captured pour_id
        charge_id now db
      ≡ ok ((pour, duplicate), db')
    → (dev boot : Text) (n : ℕ)
    → events_of db' dev boot n
      ≡ put_once r.device_id r.boot_id r.event_seq r.raw_pulses (events_of db) dev boot n
unfolding finalize_device_result
finalize_device_result-put_once d canonical uuid5 started r keg_id calibration_id captured pour_id
      charge_id now pour duplicate db db' h dev boot n =
    elim (Try-cases (elapsed_u32 (pos r.started_ms) (pos r.ended_ms))) [
      | inr (e, a) ↦ absurd (ground arith)
      | inl (duration, a) ↦
          elim (Try-cases (ensure_plausible_pulse_count (pos r.raw_pulses) (pos duration))) [
            | inr (e, b) ↦ absurd (ground arith)
            | inl (u, b) ↦ elim (Try-cases (result_session d canonical uuid5 r)) [
              | inr (e, c) ↦ absurd (ground arith)
              | inl (session_id, c) ↦
                  finalize_in-events_of d r session_id keg_id calibration_id captured pour_id
                    charge_id (started duration) now pour duplicate db db'
                    (rw (finalize_device_result, a, b, c) at h) dev boot n
            ]
          ]
    ]
