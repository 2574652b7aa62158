-- ===== src/Measurement/DeviceResults.antt =====
-- `_device_result` of src/kegpulse/application/coordinator.py: a RESULT frame as a DeviceResult.
use keg_pulse.Base.{
  ℕ, Bool, ◌&&◌, ◌||◌, Option, none, some, leb, ◌==◌, if◌then◌else◌, not, length, ℤ, pos, pos_part,
  in_range,
}
use keg_pulse.Base.Text.{Text, codes, ◌=t◌}
use keg_pulse.Base.Try.{Try, ok, err, ◌>>=◌, ◌>>◌, require}
use keg_pulse.Models.{DeviceState, DeviceResult, is_terminal, is_timed_out}
use keg_pulse.Protocol.Bytes.{all, is_hex, is_digit}
use keg_pulse.Protocol.Frames.{Fields}
use keg_pulse.Measurement.Numbers.{parse_int}
use keg_pulse.Measurement.States.{parse_state}
use keg_pulse.Measurement.Integrity.{
  Checked, Rejection, need, is_fault_token, elapsed_u32, ensure_plausible_pulse_count, uint32_max,
  uint64_max, sqlite_integer_max,
}

-- The reasons of the ValueErrors; `rejected` is a MeasurementRejectedError.
pub data ResultError : Type 0 where
  missing_fields unknown_status nonterminal_status malformed_identity malformed_attribution
        inconsistent_session malformed_fault bad_integer sequence_out_of_range counters_out_of_range
        timed_out_with_pulses :
      ResultError
  rejected : Rejection → ResultError

abbrev pub Parsed {ℓ} : Type ℓ → Type ℓ
Parsed A = Try ResultError A

-- `DEVICE_ID.fullmatch(text)`
unfoldable pub is_device_id : Text → Bool
unfolding all is_hex
is_device_id t = length t == 16 && all is_hex t

unfoldable pub is_lower_hex : ℕ → Bool
unfolding is_digit
is_lower_hex c = is_digit c || (leb b'a' c && leb c b'f')

-- `SESSION_ID.fullmatch(text)`
unfoldable pub is_session_id : Text → Bool
unfolding all is_lower_hex
is_session_id t = length t == 32 && all is_lower_hex t

-- A value, or an error where there is none
unfoldable pub or_fail {ℓ} : {A : Type ℓ} → Option A → ResultError → Parsed A
or_fail none e = err e
or_fail (some a) e = ok a

-- A MeasurementRejectedError passes through.
unfoldable pub lift {ℓ} : {A : Type ℓ} → Checked A → Parsed A
lift (ok a) = ok a
lift (err r) = err (ResultError.rejected r)

-- `fields[key]`, and `int(fields[key])`
unfoldable pub text_field : Text → Fields → Parsed Text
text_field key fields = need ResultError.missing_fields key fields

-- `attributed != (session is well formed)` is an error, unless the result is unattributed and the
-- session is "none".
unfoldable pub is_consistent : Bool → Text → Bool
unfolding ◌=t◌
is_consistent attributed sid =
    if attributed then is_session_id sid else not (is_session_id sid) || sid =t codes "none"

-- The fields as texts
pub record ResultTexts : Type 0 where
  pub dev : Text
  pub boot : Text
  pub seq : Text
  pub sid : Text
  pub attr : Text
  pub st : Text
  pub pulses : Text
  pub life : Text
  pub start : Text
  pub end : Text
  pub fault : Text

-- The required keys are there.
unfoldable pub result_texts : Fields → Parsed ResultTexts
result_texts fields = do
  dev ← text_field (codes "dev") fields
  boot ← text_field (codes "boot") fields
  seq ← text_field (codes "seq") fields
  sid ← text_field (codes "sid") fields
  attr ← text_field (codes "attr") fields
  st ← text_field (codes "st") fields
  pulses ← text_field (codes "pulses") fields
  life ← text_field (codes "life") fields
  start ← text_field (codes "start") fields
  end ← text_field (codes "end") fields
  fault ← text_field (codes "fault") fields
  ok (record {
    dev = dev;
    boot = boot;
    seq = seq;
    sid = sid;
    attr = attr;
    st = st;
    pulses = pulses;
    life = life;
    start = start;
    end = end;
    fault = fault;
  })

-- The tests on the texts: status, identity, attribution, session and fault
unfoldable pub check_texts : ResultTexts → Parsed (DeviceState × Bool)
check_texts t = do
  status ← or_fail (parse_state t.st) ResultError.unknown_status
  require (is_terminal status) ResultError.nonterminal_status
  require (is_device_id t.dev && is_device_id t.boot) ResultError.malformed_identity
  let attributed = t.attr =t codes "1"
  require (t.attr =t codes "0" || attributed) ResultError.malformed_attribution
  require (is_consistent attributed t.sid) ResultError.inconsistent_session
  require (is_fault_token t.fault) ResultError.malformed_fault
  ok (status, attributed)

-- The numbers of a result
pub record ResultNumbers : Type 0 where
  pub sequence : ℤ
  pub pulses : ℤ
  pub lifetime : ℤ
  pub started : ℤ
  pub ended : ℤ

unfoldable pub parse_numbers : ResultTexts → Parsed ResultNumbers
parse_numbers t = do
  sequence ← or_fail (parse_int t.seq) ResultError.bad_integer
  pulses ← or_fail (parse_int t.pulses) ResultError.bad_integer
  lifetime ← or_fail (parse_int t.life) ResultError.bad_integer
  started ← or_fail (parse_int t.start) ResultError.bad_integer
  ended ← or_fail (parse_int t.end) ResultError.bad_integer
  ok (record {
    sequence = sequence;
    pulses = pulses;
    lifetime = lifetime;
    started = started;
    ended = ended;
  })

-- The tests on the numbers
unfoldable pub check_numbers : DeviceState → ResultNumbers → Parsed (Unit {0})
check_numbers status n = do
  require (in_range 1 uint32_max n.sequence) ResultError.sequence_out_of_range
  require
      (in_range 0 sqlite_integer_max n.pulses && in_range (pos_part n.pulses) uint64_max n.lifetime)
      ResultError.counters_out_of_range
  duration ← lift (elapsed_u32 n.started n.ended)
  lift (ensure_plausible_pulse_count n.pulses (pos duration))
  require (not (is_timed_out status) || in_range 0 0 n.pulses) ResultError.timed_out_with_pulses

-- `_device_result`
unfoldable pub device_result : Fields → Parsed DeviceResult
device_result fields = do
  t ← result_texts fields
  checked ← check_texts t
  n ← parse_numbers t
  check_numbers checked.0 n
  ok (record {
    device_id = t.dev;
    boot_id = t.boot;
    event_seq = pos_part n.sequence;
    session_id = if t.sid =t codes "none" then none else some t.sid;
    attributed = checked.1;
    status = checked.0;
    raw_pulses = pos_part n.pulses;
    lifetime_pulses = pos_part n.lifetime;
    started_ms = pos_part n.started;
    ended_ms = pos_part n.ended;
    fault = t.fault;
  })
