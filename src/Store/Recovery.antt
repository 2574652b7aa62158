-- ===== src/Store/Recovery.antt =====
-- Pulses that no result carries, in src/kegpulse/persistence/repository.py: the recovery counter of
-- a boot, and the delta of the lifetime counter after a reconnect.
use keg_pulse.Base.{
  ℕ, ◌+◌, ◌-◌, ◌%◌, ◌^◌, Bool, true, false, ◌&&◌, not, Option, none, some, ◌∷◌, leb, ltb, ◌==◌,
  if◌then◌else◌, pos, ◌++◌, ◌⊎◌, inl, inr,
}
use keg_pulse.Base.Text.{Text, codes, ◌=t◌}
use keg_pulse.Base.Rows.{find, update_where}
use keg_pulse.Base.Try.{Try, ok, ◌>>=◌, ◌>>◌, require}
use keg_pulse.Models.{PourQuality}
use keg_pulse.Measurement.Integrity.{
  ensure_plausible_pulse_count, uint32_max, uint64_max, Rejection,
}
use keg_pulse.Measurement.Numbers.{print_decimal}
use keg_pulse.Calibration.Decimals.{Decimals}
use keg_pulse.Store.Tables.{
  Keg, Calibration, ProvisionalSession, PourEvent, Checkpoint, SessionStatus, Database, StoreError,
  Transaction, lift_rejection, must_find, is_keg, is_calibration, is_session, is_pour, open_keg,
  active_row, field_of, truthy,
}
use keg_pulse.Store.Participants.{has_length}
use keg_pulse.Store.Sessions.{is_pour_purpose, set_status, set_captured}
use keg_pulse.Store.Results.{insert_pour, factor_of, volume_of}

-- The row of a boot
abbrev pub is_checkpoint : Text → Text → Checkpoint → Bool
is_checkpoint device_id boot_id c = c.device_id =t device_id && c.boot_id =t boot_id

-- `previous_recovery`, `previous_accepted` and `previous_uptime`
abbrev pub previous_of : (Checkpoint → ℕ) → Option Checkpoint → ℕ
previous_of f none = 0
previous_of f (some c) = f c

-- `INSERT … ON CONFLICT(device_id, boot_id) DO UPDATE`, where `change` is what it sets
unfoldable pub upsert :
    Checkpoint → (Checkpoint → Checkpoint) → Option Checkpoint → Database → Database
upsert new change none db = record db { checkpoints = new ∷ db.checkpoints }
upsert new change (some old) db = record db {
  checkpoints = update_where (is_checkpoint new.device_id new.boot_id) change db.checkpoints;
}

-- A cumulative reading of a boot
pub record Recovery : Type 0 where
  pub device_id : Text
  pub boot_id : Text
  pub recovery_pulses : ℕ
  pub accepted_pulses : ℕ
  pub device_uptime_ms : ℕ

abbrev pub checkpoint_of : Recovery → Option Text → Text → Checkpoint
checkpoint_of r pour_id now = record {
  device_id = r.device_id;
  boot_id = r.boot_id;
  recovery_pulses = r.recovery_pulses;
  last_pour_id = pour_id;
  updated_at = now;
  accepted_pulses = r.accepted_pulses;
  device_uptime_ms = r.device_uptime_ms;
}

-- The time since the last checkpoint, of a 32-bit clock
unfoldable pub elapsed_since : Option Checkpoint → ℕ → Try StoreError ℕ
elapsed_since none uptime = ok uptime
elapsed_since (some c) uptime = do
  let elapsed = (uptime + 2 ^ 32 - c.device_uptime_ms) % 2 ^ 32
  require (ltb elapsed 0x80000000) StoreError.conflict
  ok elapsed

-- The new part of the counter, if the reading may follow the last one
unfoldable pub recovery_delta : Recovery → Option Checkpoint → Try StoreError ℕ
unfolding elapsed_since
recovery_delta r last = do
  let previous_recovery = previous_of (λ c. c.recovery_pulses) last
  let previous_accepted = previous_of (λ c. c.accepted_pulses) last
  require (leb previous_recovery r.recovery_pulses && leb previous_accepted r.accepted_pulses)
      StoreError.conflict
  let delta = r.recovery_pulses - previous_recovery
  require (leb delta (r.accepted_pulses - previous_accepted))
      (StoreError.rejected Rejection.recovery_exceeds_accepted)
  elapsed ← elapsed_since last r.device_uptime_ms
  lift_rejection (ensure_plausible_pulse_count (pos delta) (pos elapsed))
  ok delta

-- The keg and the calibration of a recovered pour
unfoldable pub recovery_keg : Option Text → Bool → Database → Option Keg
recovery_keg keg_id captured db =
    if captured then elim keg_id [ none ↦ none | some k ↦ find (is_keg k) db.kegs ] else open_keg db

unfoldable pub recovery_calibration : Option Text → Bool → Database → Option Calibration
recovery_calibration calibration_id captured db =
    if captured
    then elim calibration_id [ none ↦ none | some k ↦ find (is_calibration k) db.calibrations ]
    else active_row db

abbrev pub pulses_per_ml_of : Option Calibration → Option Text
pulses_per_ml_of none = none
pulses_per_ml_of (some c) = c.pulses_per_ml

-- A pour that was recovered at a time of the device
abbrev pub recovered_pour :
    Text
    → Text
    → Option Text
    → Option Text
    → Text
    → Text
    → ℕ
    → Option Text
    → ℕ
    → Text
    → Text
    → PourEvent
recovered_pour id session_id keg_id calibration_id device_id boot_id pulses volume uptime fault
      now =
    record {
      id = id;
      session_id = session_id;
      participant_id = none;
      keg_id = keg_id;
      calibration_id = calibration_id;
      device_id = device_id;
      boot_id = boot_id;
      event_seq = none;
      raw_pulses = pulses;
      volume_ml = volume;
      attributed = false;
      quality = PourQuality.estimated_recovered;
      started_at = now;
      ended_at = now;
      device_started_ms = uptime;
      device_ended_ms = uptime;
      fault = fault;
      created_at = now;
    }

-- The name that `uuid5` hashes for a part of the counter
unfoldable pub counter_name : Text → Text → ℕ → ℕ → Text
counter_name device_id boot_id previous current =
    codes "kegpulse://recovery-counter/"
    ++ device_id
    ++ codes "/"
    ++ boot_id
    ++ codes "/"
    ++ print_decimal previous
    ++ codes "/"
    ++ print_decimal current

-- The tests of the arguments, `device_uptime_ms` last
unfoldable pub accept_recovery : Recovery → Try StoreError (Unit {0})
unfolding has_length
accept_recovery r = do
  require (has_length 64 r.device_id && has_length 64 r.boot_id) StoreError.bad_value
  require (leb r.recovery_pulses uint64_max && leb r.accepted_pulses uint64_max)
      (StoreError.rejected Rejection.out_of_wire_range)
  require (leb r.recovery_pulses r.accepted_pulses)
      (StoreError.rejected Rejection.recovery_exceeds_accepted)
  require (leb r.device_uptime_ms uint32_max) StoreError.bad_value

-- The pour of the last checkpoint
unfoldable pub prior_pour : Option Checkpoint → Database → Option PourEvent
prior_pour none db = none
prior_pour (some c) db = elim (truthy c.last_pour_id) [
  | none ↦ none
  | some k ↦ find (is_pour k) db.pours
]

-- No new pulses: the checkpoint takes the other readings.
unfoldable pub touch_checkpoint :
    Recovery → Option Checkpoint → Text → Database → Option PourEvent × Database
unfolding prior_pour upsert
touch_checkpoint r last now db = (
  prior_pour last db,
  upsert (checkpoint_of r none now)
      (λ c. record c {
        accepted_pulses = r.accepted_pulses;
        device_uptime_ms = r.device_uptime_ms;
        updated_at = now;
      })
      last db,
)

module _ (d : Decimals) (uuid5 : Text → Text) where
  -- The new pulses become a pour, and the checkpoint counts them.
  unfoldable pub materialize :
      Recovery
      → Option Checkpoint
      → ℕ
      → Option Text
      → Option Text
      → Bool
      → Text
      → Text
      → Database
      → Transaction PourEvent
  unfolding upsert recovery_keg recovery_calibration
  materialize r last delta keg_id calibration_id captured pour_id now db = do
    let keg = recovery_keg keg_id captured db
    let calibration = recovery_calibration calibration_id captured db
    volume ← volume_of d delta (pulses_per_ml_of calibration)
    let session_id = uuid5 (
        counter_name r.device_id r.boot_id (previous_of (λ c. c.recovery_pulses) last)
          r.recovery_pulses)
    let pour =
        recovered_pour pour_id session_id (field_of (λ k. k.id) keg)
          (field_of (λ c. c.id) calibration) r.device_id r.boot_id delta (field_of d.print volume)
          r.device_uptime_ms (codes "device_recovery_counter") now
    db' ← insert_pour pour db
    ok (
      pour,
      upsert (checkpoint_of r (some pour_id) now)
          (λ c. record c {
            recovery_pulses = r.recovery_pulses;
            last_pour_id = some pour_id;
            updated_at = now;
            accepted_pulses = r.accepted_pulses;
            device_uptime_ms = r.device_uptime_ms;
          })
          last db',
    )

  -- `checkpoint_recovery_pulses`: the pour, and whether nothing was new
  unfoldable pub checkpoint_recovery_pulses :
      Recovery
      → Option Text
      → Option Text
      → Bool
      → Text
      → Text
      → Database
      → Transaction (Option PourEvent × Bool)
  unfolding accept_recovery recovery_delta touch_checkpoint materialize
  checkpoint_recovery_pulses r keg_id calibration_id captured pour_id now db = do
    accept_recovery r
    let last = find (is_checkpoint r.device_id r.boot_id) db.checkpoints
    delta ← recovery_delta r last
    if delta == 0
        then (let touched = touch_checkpoint r last now db in ok ((touched.0, true), touched.1))
        else do
          (pour, db') ← materialize r last delta keg_id calibration_id captured pour_id now db
          ok ((some pour, false), db')

  -- The name that `uuid5` hashes for a delta of the lifetime counter
  unfoldable pub delta_name : Text → Text → Text → ℕ → ℕ → Text
  delta_name device_id boot_id session_id confirmed current =
      codes "kegpulse://recovery/"
      ++ device_id
      ++ codes "/"
      ++ boot_id
      ++ codes "/"
      ++ session_id
      ++ codes "/"
      ++ print_decimal confirmed
      ++ codes "/"
      ++ print_decimal current

  -- What `recover_same_boot_delta` returns: the pour, or the session of a capture
  abbrev pub Recovered : Type 0
  Recovered = PourEvent ⊎ ProvisionalSession

  -- The pour of a delta, and the session that it interrupts
  unfoldable pub recover_pour :
      ProvisionalSession
      → Text
      → Text
      → Text
      → ℕ
      → ℕ
      → Text
      → Text
      → Database
      → Transaction PourEvent
  recover_pour p recovery_session device_id boot_id pulses uptime pour_id now db = do
    volume ← volume_of d pulses (factor_of p.calibration_id db)
    let pour =
        recovered_pour pour_id recovery_session p.keg_id p.calibration_id device_id boot_id pulses
          (field_of d.print volume) uptime (codes "same_boot_lifetime_delta") now
    db' ← insert_pour pour db
    ok (pour, set_status p.session_id SessionStatus.interrupted_uncertain now db')

  -- `recover_same_boot_delta`; `device_uptime_ms` is not negative.
  unfoldable pub recover_same_boot_delta :
      Text → Text → Text → ℕ → ℕ → ℕ → Text → Text → Database → Transaction (Recovered × Bool)
  unfolding recover_pour
  recover_same_boot_delta session_id device_id boot_id confirmed current uptime pour_id now db = do
    require (ltb confirmed current) StoreError.bad_value
    let pulses = current - confirmed
    lift_rejection (ensure_plausible_pulse_count (pos pulses) (pos uptime))
    let recovery_session = uuid5 (delta_name device_id boot_id session_id confirmed current)
    elim (find (λ (p : PourEvent). p.session_id =t recovery_session) db.pours) [
      | some duplicate ↦ ok ((inl duplicate, true), db)
      | none ↦ do
        p ← must_find (find (is_session session_id) db.sessions) StoreError.not_found
        if not (is_pour_purpose p.purpose)
            then (let db' = set_captured session_id SessionStatus.complete pulses now db in
                do
                  row ← must_find (find (is_session session_id) db'.sessions) StoreError.not_found
                  ok ((inr row, false), db'))
            else do
              (pour, db') ←
                  recover_pour p recovery_session device_id boot_id pulses uptime pour_id now db
              ok ((inl pour, false), db')
    ]
