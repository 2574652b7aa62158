-- ===== src/Device/Defs.antt =====
-- The state of `DeviceSessionMachine` in src/kegpulse/domain/device_machine.py: the event in
-- progress, the retained results, and what a method returns.
use keg_pulse.Base.{
  ℕ, ◌-◌, ◌^◌, Bool, Option, none, some, List, [], ◌∷◌, ℤ, pos, negsuc, ◌==◌, leb, ltb, ◌&&◌,
  if◌then◌else◌,
}
use keg_pulse.Base.Text.{Text, codes}
use keg_pulse.Models.{DeviceState, DeviceResult}

abbrev pub uint32_max : ℕ
uint32_max = 2 ^ 32 - 1

abbrev pub uint64_max : ℕ
uint64_max = 2 ^ 64 - 1

abbrev pub max_result_pulses : ℕ
max_result_pulses = 2 ^ 63 - 1

-- `class ActiveDeviceEvent`
pub record ActiveDeviceEvent : Type 0 where
  pub event_seq : ℕ
  pub session_id : Option Text
  pub attributed : Bool
  pub state : DeviceState
  pub pulses : ℕ
  pub armed_ms : ℕ
  pub started_ms : Option ℕ
  pub last_pulse_ms : Option ℕ
  pub arm_deadline_ms : Option ℕ
  pub settle_deadline_ms : Option ℕ

-- `self.results`, an OrderedDict from event sequence to result, oldest first.
abbrev pub Results : Type 0
Results = List (ℕ × DeviceResult)

-- `self.results.get(seq)`
unfoldable pub lookup : ℕ → Results → Option DeviceResult
lookup k [] = none
lookup k ((j, r) ∷ rs) = if k == j then some r else lookup k rs

-- `self.results.get(seq)` at any integer: no key is negative.
unfoldable pub get_result : ℤ → Results → Option DeviceResult
get_result (pos k) rs = lookup k rs
get_result (negsuc k) rs = none

-- `self.results[seq] = result`
unfoldable pub insert : ℕ → DeviceResult → Results → Results
insert k r [] = (k, r) ∷ []
insert k r ((j, s) ∷ rs) = if k == j then (j, r) ∷ rs else (j, s) ∷ insert k r rs

-- `self.results.pop(seq, None)`
unfoldable pub erase : ℕ → Results → Results
erase k [] = []
erase k ((j, s) ∷ rs) = if k == j then rs else (j, s) ∷ erase k rs

unfoldable pub erase_at : ℤ → Results → Results
erase_at (pos k) rs = erase k rs
erase_at (negsuc k) rs = rs

-- The arguments of `__init__`, which no method changes afterwards.
pub record Settings : Type 0 where
  pub device_id : Text
  pub arm_timeout_ms : ℕ
  pub flow_gap_ms : ℕ
  pub settling_ms : ℕ
  pub result_capacity : ℕ

-- `class DeviceSessionMachine`
pub record DeviceSessionMachine : Type 0 where
  pub settings : Settings
  pub boot_id : Text
  pub state : DeviceState
  pub lifetime_pulses : ℕ
  pub next_event_seq : ℕ
  pub active : Option ActiveDeviceEvent
  pub results : Results
  pub recovery_pulses : ℕ
  pub fault : Text
  pub last_now_ms : ℕ

-- The exceptions: the first group are plain DomainErrors, the second ConflictErrors.
pub data DeviceError : Type 0 where
  time_out_of_range capacity_out_of_range bad_now bad_session bad_ttl bad_count : DeviceError
  active_session store_full sequence_stale cancel_stale sequence_exhausted lifetime_saturated
        session_saturated no_active :
      DeviceError

pub data Result {ℓ} (A : Type ℓ) : Type ℓ where
  ok : A → Result A
  err : DeviceError → Result A

-- A method call: what it returns or raises, and the object as it stands then.
abbrev pub Outcome {ℓ} : Type ℓ → Type ℓ
Outcome A = Result A × DeviceSessionMachine

-- The fault tokens.
abbrev pub no_fault : Text
no_fault = codes "none"

abbrev pub sequence_exhausted_fault : Text
sequence_exhausted_fault = codes "sequence_exhausted"

abbrev pub lifetime_saturated_fault : Text
lifetime_saturated_fault = codes "lifetime_saturated"

abbrev pub result_store_full_fault : Text
result_store_full_fault = codes "result_store_full"

abbrev pub session_saturated_fault : Text
session_saturated_fault = codes "session_saturated"

-- `1 <= value < 2**31`, for a natural number
unfoldable pub is_rollover_safe : ℕ → Bool
is_rollover_safe n = leb 1 n && ltb n (2 ^ 31)
