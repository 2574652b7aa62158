-- ===== src/Store/Checkpoints.antt =====
-- Checkpoints of src/kegpulse/persistence/repository.py: the pours that a boot's recovery counter made
-- hold its pulses.
use keg_pulse.Base.{
  ℕ, ◌+◌, ◌-◌, ◌≡◌, refl, ◌∙◌, inl, inr, Bool, true, Option, none, some, Bool-cases, arith, ◌&&◌,
  ◌==◌, leb, leb→le, pos,
}
use keg_pulse.Base.Text.{Text, codes}
use keg_pulse.Base.Rows.{find}
use keg_pulse.Base.Try.{ok, Try-cases}
use keg_pulse.Measurement.Integrity.{ensure_plausible_pulse_count}
use keg_pulse.Calibration.Decimals.{Decimals}
use keg_pulse.Store.Tables.{Database, PourEvent, Checkpoint, field_of, lift_rejection}
use keg_pulse.Store.Results.{insert_pour, volume_of}
use keg_pulse.Store.Recovery.{
  Recovery, is_checkpoint, previous_of, upsert, checkpoint_of, recovery_delta, elapsed_since,
  accept_recovery, touch_checkpoint, materialize, checkpoint_recovery_pulses, recovered_pour,
  counter_name, recovery_keg, recovery_calibration, pulses_per_ml_of,
}
use keg_pulse.Store.Recorded.{require-ok, insert_pour-ok}
use keg_pulse.Store.Counted.{checkpointed, IsCounted, upsert-keep, upsert-IsCounted, upsert-pours}

-- A delta that is accepted is what the counter grew by.
recovery_delta-grows :
    (r : Recovery) (last : Option Checkpoint) (delta : ℕ)
    → recovery_delta r last ≡ ok delta
    → r.recovery_pulses ≡ delta + previous_of (λ c. c.recovery_pulses) last
unfolding recovery_delta
recovery_delta-grows r last delta h =
    let previous = previous_of (λ c. c.recovery_pulses) last in
    let grown = r.recovery_pulses - previous in
    let a =
      require-ok
        (leb previous r.recovery_pulses
          && leb (previous_of (λ c. c.accepted_pulses) last) r.accepted_pulses)
        _ _ delta h in
    let b =
      require-ok (leb grown (r.accepted_pulses - previous_of (λ c. c.accepted_pulses) last)) _ _
        delta a.1 in
    let order : leb previous r.recovery_pulses ≡ true = (let x = a.0 in ground arith) in
    elim (Try-cases (elapsed_since last r.device_uptime_ms)) [
      | inr (e, q) ↦ (let c = b.1 in absurd (ground arith))
      | inl (elapsed, q) ↦
          elim (Try-cases
            (lift_rejection (ensure_plausible_pulse_count (pos grown) (pos elapsed)))) [
              | inr (e, z) ↦ (let c = b.1 in absurd (ground arith))
              | inl (u, z) ↦
                  (let c = b.1 in
                    let same : grown ≡ delta = ground arith in
                    let le = leb→le previous r.recovery_pulses order in omega arith)
            ]
    ]

materialize-IsCounted :
    (d : Decimals) (uuid5 : Text → Text) (r : Recovery) (delta : ℕ)
    (keg_id calibration_id : Option Text) (captured : Bool) (pour_id now : Text) (pour : PourEvent)
    (db db' : Database)
    → r.recovery_pulses ≡ delta + checkpointed r.device_id r.boot_id db
    → IsCounted db
    → materialize d uuid5 r
        (find (is_checkpoint r.device_id r.boot_id) db.checkpoints)
        delta
        keg_id
        calibration_id
        captured
        pour_id
        now
        db
      ≡ ok (pour, db')
    → IsCounted db'
unfolding materialize
materialize-IsCounted d uuid5 r delta keg_id calibration_id captured pour_id now pour db db' grows h
      k =
    let last = find (is_checkpoint r.device_id r.boot_id) db.checkpoints in
    let keg = recovery_keg keg_id captured db in
    let calibration = recovery_calibration calibration_id captured db in
    elim (Try-cases (volume_of d delta (pulses_per_ml_of calibration))) [
      | inr (e, q) ↦ absurd (ground arith)
      | inl (volume, q) ↦
          let session_id = uuid5 (
            counter_name r.device_id r.boot_id (previous_of (λ c. c.recovery_pulses) last)
              r.recovery_pulses) in
          let new =
            recovered_pour pour_id session_id (field_of (λ k. k.id) keg)
              (field_of (λ c. c.id) calibration) r.device_id r.boot_id delta
              (field_of d.print volume) r.device_uptime_ms (codes "device_recovery_counter") now in
          elim (Try-cases (insert_pour new db)) [
            | inr (e, z) ↦ absurd (ground arith)
            | inl (db1, z) ↦
                let inserted = insert_pour-ok new db db1 z in
                let point = checkpoint_of r (some pour_id) now in
                let change : Checkpoint → Checkpoint = λ c. record c {
                  recovery_pulses = r.recovery_pulses;
                  last_pour_id = some pour_id;
                  updated_at = now;
                  accepted_pulses = r.accepted_pulses;
                  device_uptime_ms = r.device_uptime_ms;
                } in
                let same : db' ≡ upsert point change last db1 = ground arith in
                rw (same, inserted)
                  (upsert-IsCounted point change new db refl refl refl refl grows (λ c. refl)
                    (λ a b c. refl) h)
          ]
    ]

touch_checkpoint-IsCounted :
    (r : Recovery) (now : Text) (db : Database)
    → r.recovery_pulses ≡ checkpointed r.device_id r.boot_id db
    → IsCounted db
    → IsCounted
        (touch_checkpoint r (find (is_checkpoint r.device_id r.boot_id) db.checkpoints) now db).1
unfolding touch_checkpoint IsCounted checkpointed
touch_checkpoint-IsCounted r now db still h = λ dev boot.
    let last = find (is_checkpoint r.device_id r.boot_id) db.checkpoints in
    let new = checkpoint_of r none now in
    let change : Checkpoint → Checkpoint = λ c. record c {
      accepted_pulses = r.accepted_pulses;
      device_uptime_ms = r.device_uptime_ms;
      updated_at = now;
    } in
    let kept = upsert-keep new change last dev boot db refl still (λ c. refl) (λ a b c. refl) in
    rw (upsert-pours new change last db) (kept ∙ h dev boot)

-- Where for every boot the checkpoint's recovery counter is the sum of the pours that were made from it,
-- this is so after a reading was accepted.
pub checkpoint_recovery_pulses-IsCounted :
    (d : Decimals) (uuid5 : Text → Text) (r : Recovery) (keg_id calibration_id : Option Text)
    (captured : Bool) (pour_id now : Text) (answer : Option PourEvent × Bool) (db db' : Database)
    → IsCounted db
    → checkpoint_recovery_pulses d uuid5 r keg_id calibration_id captured pour_id now db
      ≡ ok (answer, db')
    → IsCounted db'
unfolding checkpoint_recovery_pulses checkpointed
checkpoint_recovery_pulses-IsCounted d uuid5 r keg_id calibration_id captured pour_id now answer db
      db' h k =
    let last = find (is_checkpoint r.device_id r.boot_id) db.checkpoints in
    elim (Try-cases (accept_recovery r)) [
      | inr (e, a) ↦ absurd (ground arith)
      | inl (u, a) ↦ elim (Try-cases (recovery_delta r last)) [
        | inr (e, b) ↦ absurd (ground arith)
        | inl (delta, b) ↦
            let grows = recovery_delta-grows r last delta b in
            elim (Bool-cases (delta == 0)) [
              | inl z ↦
                  let same : db' ≡ (touch_checkpoint r last now db).1 = ground arith in
                  let still : r.recovery_pulses ≡ previous_of (λ c. c.recovery_pulses) last =
                    ground arith in
                  rw same (touch_checkpoint-IsCounted r now db still h)
              | inr z ↦
                  elim (Try-cases (
                    materialize d uuid5 r last delta keg_id calibration_id captured pour_id now
                      db)) [
                        | inr (e, c) ↦ absurd (ground arith)
                        | inl ((pour, db1), c) ↦
                            let same : db' ≡ db1 = ground arith in
                            rw same (
                              materialize-IsCounted d uuid5 r delta keg_id calibration_id captured
                                pour_id now pour db db1 grows h c)
                      ]
            ]
      ]
    ]
