-- ===== src/Simulator/Replies.antt =====
-- The frames that the simulated device of src/kegpulse/serialio/simulator.py sends.
use keg_pulse.Base.{ℕ, Bool, true, false, Option, none, some, List, [], ◌∷◌}
use keg_pulse.Base.Text.{Text, codes}
use keg_pulse.Models.{DeviceResult}
use keg_pulse.Protocol.Frames.{Frame, Fields, Coded, encode_frame}
use keg_pulse.Device.Defs.{DeviceSessionMachine}
use keg_pulse.Device.Methods.{DeviceStatus}
use keg_pulse.Measurement.Numbers.{print_decimal}
use keg_pulse.Measurement.States.{state_text}

-- `session_id or "none"`
unfoldable pub text_or_none : Option Text → Text
text_or_none none = codes "none"
text_or_none (some []) = codes "none"
text_or_none (some (c ∷ cs)) = c ∷ cs

-- `event_seq if event_seq is not None else "none"`
unfoldable pub number_or_none : Option ℕ → Text
number_or_none none = codes "none"
number_or_none (some n) = print_decimal n

-- `int(flag)`, as it is sent
unfoldable pub flag_text : Bool → Text
flag_text true = codes "1"
flag_text false = codes "0"

-- `_response`
unfoldable pub response : Frame → Text → Fields → Coded (List ℕ)
response request operation fields = encode_frame (codes "R") request.request_id operation fields

-- `_error`
unfoldable pub error_reply : Frame → Text → Coded (List ℕ)
error_reply request code =
    encode_frame (codes "E") request.request_id (codes "ERROR")
      ((codes "code", code) ∷ (codes "op", request.operation) ∷ [])

-- The fields that `_status_frame` sends
unfoldable pub status_fields : DeviceStatus → Fields
unfolding text_or_none number_or_none flag_text
status_fields s =
    (codes "state", state_text s.state)
    ∷ (codes "boot", s.boot_id)
    ∷ (codes "seq", number_or_none s.event_seq)
    ∷ (codes "sid", text_or_none s.session_id)
    ∷ (codes "attributed", flag_text s.attributed)
    ∷ (codes "pulses", print_decimal s.session_pulses)
    ∷ (codes "lifetime", print_decimal s.lifetime_pulses)
    ∷ (codes "uptime", print_decimal s.uptime_ms)
    ∷ (codes "next", print_decimal s.next_event_seq)
    ∷ (codes "retained", print_decimal s.retained_results)
    ∷ (codes "arm_left", print_decimal s.arm_remaining_ms)
    ∷ []

-- The fields that `_result_frame` sends
unfoldable pub result_fields : DeviceResult → Fields
unfolding text_or_none flag_text
result_fields r =
    (codes "dev", r.device_id)
    ∷ (codes "boot", r.boot_id)
    ∷ (codes "seq", print_decimal r.event_seq)
    ∷ (codes "sid", text_or_none r.session_id)
    ∷ (codes "attr", flag_text r.attributed)
    ∷ (codes "st", state_text r.status)
    ∷ (codes "pulses", print_decimal r.raw_pulses)
    ∷ (codes "life", print_decimal r.lifetime_pulses)
    ∷ (codes "start", print_decimal r.started_ms)
    ∷ (codes "end", print_decimal r.ended_ms)
    ∷ (codes "fault", r.fault)
    ∷ []

-- `_result_frame`
unfoldable pub result_frame : DeviceResult → Coded (List ℕ)
result_frame r = encode_frame (codes "R") (codes "00000000") (codes "RESULT") (result_fields r)

-- The fields of the COUNTERS response
unfoldable pub counter_fields : DeviceSessionMachine → Fields
counter_fields m =
    (codes "accepted", print_decimal m.lifetime_pulses)
    ∷ (codes "rejected", codes "0")
    ∷ (codes "noise_gate_us", codes "0")
    ∷ (codes "recovery", print_decimal m.recovery_pulses)
    ∷ (codes "fault", m.fault)
    ∷ []

-- The fields of the HELLO response
unfoldable pub hello_fields : DeviceSessionMachine → Fields
hello_fields m =
    (codes "proto", codes "1")
    ∷ (codes "fw", codes "1.0.0-sim")
    ∷ (codes "device", m.settings.device_id)
    ∷ (codes "boot", m.boot_id)
    ∷ (codes "reset", codes "simulated")
    ∷ (codes "caps", codes "status.results.counters.demo")
    ∷ []
