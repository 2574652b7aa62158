-- ===== src/Measurement/Integrity.antt =====
-- src/kegpulse/domain/pulse_integrity.py: readings that are well formed and physically possible.
use keg_pulse.Base.{
  ℕ, ◌+◌, ◌-◌, ◌*◌, ◌/◌, ◌%◌, ◌^◌, Bool, ◌&&◌, Option, none, some, [], ◌∷◌, ltb, leb, if◌then◌else◌,
  min, length, ℤ, pos, negsuc,
}
use keg_pulse.Base.Text.{Text, codes, ◌=t◌}
use keg_pulse.Base.Try.{Try, ok, err, ◌>>=◌, ◌>>◌, require}
use keg_pulse.Protocol.Bytes.{all, is_digit, is_value_char}
use keg_pulse.Protocol.Frames.{Fields}
use keg_pulse.Measurement.Numbers.{decimal}

abbrev pub uint32_max : ℕ
uint32_max = 0xFFFFFFFF

abbrev pub uint64_max : ℕ
uint64_max = 0xFFFFFFFFFFFFFFFF

abbrev pub sqlite_integer_max : ℕ
sqlite_integer_max = 0x7FFFFFFFFFFFFFFF

abbrev pub max_plausible_pulse_rate_hz : ℕ
max_plausible_pulse_rate_hz = 10000

abbrev pub pulse_burst_allowance : ℕ
pulse_burst_allowance = 100000

abbrev pub max_plausible_boot_pulses : ℕ
max_plausible_boot_pulses = 1000000000

-- The reasons of a MeasurementRejectedError
pub data Rejection : Type 0 where
  not_unsigned out_of_wire_range timing_out_of_range negative_count exceeds_storage exceeds_rate
        time_out_of_range duration_ambiguous missing_fields malformed_fault
        recovery_exceeds_accepted session_exceeds_lifetime :
      Rejection

abbrev pub Checked {ℓ} : Type ℓ → Type ℓ
Checked A = Try Rejection A

-- `fields.get(key)`
unfoldable pub field : Text → Fields → Option Text
unfolding ◌=t◌
field key [] = none
field key ((k, v) ∷ fields) = if key =t k then some v else field key fields

-- `fields[key]`, where the key must be there
unfoldable pub need {ε} : {E : Type ε} → E → Text → Fields → Try E Text
unfolding field
need e key fields = elim (field key fields) [ none ↦ err e | some v ↦ ok v ]

-- `_unsigned`
unfoldable pub unsigned : Text → ℕ → Checked ℕ
unfolding all is_digit
unsigned text maximum = do
  require (leb 1 (length text) && all is_digit text) Rejection.not_unsigned
  require (leb (decimal text) maximum) Rejection.out_of_wire_range
  ok (decimal text)

-- `pulse_limit_for_elapsed`
unfoldable pub pulse_limit_for_elapsed : ℤ → Checked ℕ
pulse_limit_for_elapsed (negsuc n) = err Rejection.timing_out_of_range
pulse_limit_for_elapsed (pos elapsed_ms) = do
  require (leb elapsed_ms uint32_max) Rejection.timing_out_of_range
  ok (
      min (pulse_burst_allowance + (elapsed_ms * max_plausible_pulse_rate_hz) / 1000)
        max_plausible_boot_pulses)

-- `ensure_plausible_pulse_count`
unfoldable pub ensure_plausible_pulse_count : ℤ → ℤ → Checked (Unit {0})
unfolding pulse_limit_for_elapsed
ensure_plausible_pulse_count (negsuc n) elapsed_ms = err Rejection.negative_count
ensure_plausible_pulse_count (pos count) elapsed_ms = do
  require (leb count sqlite_integer_max) Rejection.exceeds_storage
  limit ← pulse_limit_for_elapsed elapsed_ms
  require (leb count limit) Rejection.exceeds_rate

-- `elapsed_u32`: the difference of two readings of a 32-bit clock
unfoldable pub elapsed_u32 : ℤ → ℤ → Checked ℕ
elapsed_u32 (negsuc s) ended_ms = err Rejection.time_out_of_range
elapsed_u32 (pos s) (negsuc e) = err Rejection.time_out_of_range
elapsed_u32 (pos started_ms) (pos ended_ms) = do
  require (leb started_ms uint32_max && leb ended_ms uint32_max) Rejection.time_out_of_range
  let elapsed = (ended_ms + 2 ^ 32 - started_ms) % 2 ^ 32
  require (ltb elapsed 0x80000000) Rejection.duration_ambiguous
  ok elapsed

-- `class CounterSnapshot`
pub record CounterSnapshot : Type 0 where
  pub accepted_pulses : ℕ
  pub recovery_pulses : ℕ
  pub rejected_edges : ℕ
  pub noise_gate_us : ℕ
  pub fault : Text

-- `class StatusPulseSnapshot`
pub record StatusPulseSnapshot : Type 0 where
  pub session_pulses : ℕ
  pub lifetime_pulses : ℕ
  pub uptime_ms : ℕ

-- `_FAULT_TOKEN.fullmatch(text)`
unfoldable pub is_fault_token : Text → Bool
unfolding all is_value_char
is_fault_token t = leb 1 (length t) && leb (length t) 64 && all is_value_char t

-- `parse_counter_snapshot`; each `need` stands for the test of the required keys, which comes first.
unfoldable pub parse_counter_snapshot : Fields → ℤ → Checked CounterSnapshot
parse_counter_snapshot fields uptime_ms = do
  accepted_text ← need Rejection.missing_fields (codes "accepted") fields
  recovery_text ← need Rejection.missing_fields (codes "recovery") fields
  rejected_text ← need Rejection.missing_fields (codes "rejected") fields
  noise_text ← need Rejection.missing_fields (codes "noise_gate_us") fields
  fault ← need Rejection.missing_fields (codes "fault") fields
  accepted ← unsigned accepted_text uint64_max
  recovery ← unsigned recovery_text uint64_max
  rejected ← unsigned rejected_text uint32_max
  noise_gate ← unsigned noise_text uint32_max
  require (is_fault_token fault) Rejection.malformed_fault
  require (leb recovery accepted) Rejection.recovery_exceeds_accepted
  ensure_plausible_pulse_count (pos accepted) uptime_ms
  ok (record {
    accepted_pulses = accepted;
    recovery_pulses = recovery;
    rejected_edges = rejected;
    noise_gate_us = noise_gate;
    fault = fault;
  })

-- `parse_status_pulse_snapshot`
unfoldable pub parse_status_pulse_snapshot : Fields → Checked StatusPulseSnapshot
parse_status_pulse_snapshot fields = do
  session_text ← need Rejection.missing_fields (codes "pulses") fields
  lifetime_text ← need Rejection.missing_fields (codes "lifetime") fields
  uptime_text ← need Rejection.missing_fields (codes "uptime") fields
  session ← unsigned session_text uint64_max
  lifetime ← unsigned lifetime_text uint64_max
  uptime ← unsigned uptime_text uint32_max
  require (leb session lifetime) Rejection.session_exceeds_lifetime
  ensure_plausible_pulse_count (pos lifetime) (pos uptime)
  ok (record { session_pulses = session; lifetime_pulses = lifetime; uptime_ms = uptime })
