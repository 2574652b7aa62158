-- ===== src/Simulator/Tests.antt =====
-- A result frame of the simulated device.
use keg_pulse.Base.{ℕ, ◌≡◌, refl, true, some, List, [], ◌∷◌, ◌++◌, arith, inl}
use keg_pulse.Base.Text.{codes, ◌=t◌}
use keg_pulse.Base.Try.{ok}
use keg_pulse.Models.{DeviceState, DeviceResult}
use keg_pulse.Protocol.Bytes.{
  all, is_hex, is_digit, is_op_char, is_key_char, is_value_char, print_hex4, join, hex_digit,
}
use keg_pulse.Protocol.Frames.{
  Frame, Coded, encode_frame, decode_frame, crc16_ccitt, is_kind, is_request_id, is_operation,
  is_key, is_value, contains, encode_fields, seal,
}
use keg_pulse.Measurement.Numbers.{print_decimal}
use keg_pulse.Measurement.States.{state_text}
use keg_pulse.Measurement.Integrity.{elapsed_u32, is_fault_token}
use keg_pulse.Measurement.DeviceResults.{device_result, is_device_id, is_session_id, is_lower_hex}
use keg_pulse.Measurement.Accepted.{IsRecordable, Attributed, device_result-IsRecordable}
use keg_pulse.Simulator.Replies.{result_frame, result_fields}
use keg_pulse.Simulator.RoundTrip.{
  IsSendable, device_result-result_fields, device_result-result_frame,
}

abbrev poured : DeviceResult
poured = record {
  device_id = codes "4B454750554C5345";
  boot_id = codes "0000000000000001";
  event_seq = 1;
  session_id = some (codes "0123456789abcdef0123456789abcdef");
  attributed = true;
  status = DeviceState.complete;
  raw_pulses = 25;
  lifetime_pulses = 25;
  started_ms = 100;
  ended_ms = 2350;
  fault = codes "none";
}

poured-IsSendable : IsSendable poured
unfolding is_device_id is_session_id is_lower_hex is_fault_token elapsed_u32 all is_hex is_digit
    is_value_char
poured-IsSendable = record {
  recordable = record {
    terminal = refl;
    device = refl;
    boot = refl;
    sequence = (ground arith, ground arith);
    storable = ground arith;
    counted = ground arith;
    lifetime = ground arith;
    token = refl;
    timed = (ground arith, ground arith);
    ordered = ground arith;
    physical = ground arith;
    unpoured = inl refl;
  };
  duration = 2250;
  elapsed = refl;
  short = ground arith;
  plausible = ground arith;
  session = inl (codes "0123456789abcdef0123456789abcdef", refl, refl, refl);
}

abbrev poured_bytes : List ℕ
poured_bytes =
    codes
      "KP1|R|00000000|RESULT|dev=4B454750554C5345|boot=0000000000000001|seq=1|sid=0123456789abcdef0123456789abcdef|attr=1|st=complete|pulses=25|life=25|start=100|end=2350|fault=none*6667"
    ++ (10 ∷ [])

poured_encoded : result_frame poured ≡ Coded.ok poured_bytes
unfolding result_frame result_fields print_decimal state_text encode_frame is_kind is_request_id
    is_operation is_key is_value contains encode_fields seal crc16_ccitt all is_hex is_op_char
    is_key_char is_value_char print_hex4 ◌=t◌ join hex_digit
poured_encoded = refl

device_result-result_frame_example :
    (frame : Frame) × (decode_frame poured_bytes ≡ Coded.ok frame)
    × (frame.operation ≡ codes "RESULT")
    × (device_result frame.fields ≡ ok poured)
device_result-result_frame_example =
    device_result-result_frame poured poured_bytes poured-IsSendable poured_encoded

device_result-IsRecordable_example : IsRecordable poured × Attributed poured
device_result-IsRecordable_example =
    device_result-IsRecordable (result_fields poured) poured
      (device_result-result_fields poured poured-IsSendable)
