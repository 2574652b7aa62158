-- ===== src/Models.antt =====
-- The shared value types of src/kegpulse/domain/models.py.
use keg_pulse.Base.{ℕ, Bool, true, false, Option}
use keg_pulse.Base.Text.{Text}

-- `class DeviceState(StrEnum)`
pub data DeviceState : Type 0 where
  disconnected connecting idle armed pouring settling complete timed_out interrupted degraded :
      DeviceState

-- `state == DeviceState.ARMED`, and so for the other states that the code compares with.
abbrev pub is_armed : DeviceState → Bool
is_armed DeviceState.armed = true
is_armed _ = false

abbrev pub is_pouring : DeviceState → Bool
is_pouring DeviceState.pouring = true
is_pouring _ = false

abbrev pub is_settling : DeviceState → Bool
is_settling DeviceState.settling = true
is_settling _ = false

abbrev pub is_timed_out : DeviceState → Bool
is_timed_out DeviceState.timed_out = true
is_timed_out _ = false

-- `state in {COMPLETE, TIMED_OUT, INTERRUPTED}`
abbrev pub is_terminal : DeviceState → Bool
is_terminal DeviceState.complete = true
is_terminal DeviceState.timed_out = true
is_terminal DeviceState.interrupted = true
is_terminal _ = false

-- `class DeviceResult`
pub record DeviceResult : Type 0 where
  pub device_id : Text
  pub boot_id : Text
  pub event_seq : ℕ
  pub session_id : Option Text
  pub attributed : Bool
  pub status : DeviceState
  pub raw_pulses : ℕ
  pub lifetime_pulses : ℕ
  pub started_ms : ℕ
  pub ended_ms : ℕ
  pub fault : Text

-- `class PourQuality(StrEnum)`
pub data PourQuality : Type 0 where
  complete unattributed interrupted estimated_recovered needs_review : PourQuality

-- `class CalibrationStatus(StrEnum)`
pub data CalibrationStatus : Type 0 where
  draft active superseded : CalibrationStatus

-- `class DeviceIdentity`
pub record DeviceIdentity : Type 0 where
  pub device_id : Text
  pub boot_id : Text
  pub firmware_version : Text
  pub protocol_version : ℕ
  pub reset_cause : Text
