-- ===== src/Simulator/RoundTrip.antt =====
-- What the host makes of the frames that the simulated device sends.
use keg_pulse.Base.{
  ℕ, ◌+◌, ◌*◌, ◌≤◌, ◌≡◌, refl, true, false, none, some, List, [], ◌∷◌, arith, ◌⊎◌, inl, inr, pos,
  if◌then◌else◌, in_range, ◌&&◌, ◌||◌, not,
}
use keg_pulse.Base.Text.{Text, codes, ◌=t◌}
use keg_pulse.Base.Try.{ok}
use keg_pulse.Models.{DeviceResult, is_timed_out}
use keg_pulse.Protocol.Frames.{Frame, Coded, decode_frame}
use keg_pulse.Protocol.RoundTrip.{decode_frame-encode_frame}
use keg_pulse.Measurement.Numbers.{print_decimal, parse_int-print_decimal}
use keg_pulse.Measurement.States.{state_text, parse_state-state_text}
use keg_pulse.Measurement.Integrity.{
  elapsed_u32, field, need, uint32_max, uint64_max, pulse_burst_allowance, sqlite_integer_max,
}
use keg_pulse.Measurement.Plausible.{ensure_plausible_iff}
use keg_pulse.Measurement.DeviceResults.{
  ResultTexts, ResultNumbers, result_texts, check_texts, parse_numbers, check_numbers,
  device_result, is_session_id, is_consistent, lift, or_fail, text_field,
}
use keg_pulse.Measurement.Accepted.{session-ne-none, IsRecordable}
use keg_pulse.Simulator.Replies.{text_or_none, flag_text, result_fields, result_frame}

-- A result whose pour took a plausible time for its pulses, with a session exactly if it is
-- attributed
pub record IsSendable (r : DeviceResult) : Type 0 where
  pub recordable : IsRecordable r
  pub duration : ℕ
  pub elapsed : elapsed_u32 (pos r.started_ms) (pos r.ended_ms) ≡ ok duration
  pub short : duration ≤ uint32_max
  pub plausible : r.raw_pulses ≤ pulse_burst_allowance + 10 * duration
  pub session :
      ((sid : Text) × (r.attributed ≡ true)
        × (r.session_id ≡ some sid)
        × (is_session_id sid ≡ true))
      ⊎ ((r.attributed ≡ false) × (r.session_id ≡ none))

texts_of : DeviceResult → ResultTexts
texts_of r = record {
  dev = r.device_id;
  boot = r.boot_id;
  seq = print_decimal r.event_seq;
  sid = text_or_none r.session_id;
  attr = flag_text r.attributed;
  st = state_text r.status;
  pulses = print_decimal r.raw_pulses;
  life = print_decimal r.lifetime_pulses;
  start = print_decimal r.started_ms;
  end = print_decimal r.ended_ms;
  fault = r.fault;
}

numbers_of : DeviceResult → ResultNumbers
numbers_of r = record {
  sequence = pos r.event_seq;
  pulses = pos r.raw_pulses;
  lifetime = pos r.lifetime_pulses;
  started = pos r.started_ms;
  ended = pos r.ended_ms;
}

result_texts-result_fields : (r : DeviceResult) → result_texts (result_fields r) ≡ ok (texts_of r)
unfolding result_texts result_fields text_field need field texts_of ◌=t◌
result_texts-result_fields r = refl

parse_numbers-texts_of : (r : DeviceResult) → parse_numbers (texts_of r) ≡ ok (numbers_of r)
unfolding parse_numbers texts_of numbers_of or_fail
parse_numbers-texts_of r =
    rw
      (
        parse_int-print_decimal r.event_seq,
        parse_int-print_decimal r.raw_pulses,
        parse_int-print_decimal r.lifetime_pulses,
        parse_int-print_decimal r.started_ms,
        parse_int-print_decimal r.ended_ms,
      )
      refl

check_numbers-numbers_of :
    (r : DeviceResult) → IsSendable r → check_numbers r.status (numbers_of r) ≡ ok tt
unfolding check_numbers numbers_of lift
check_numbers-numbers_of r h =
    let p =
      (ensure_plausible_iff r.raw_pulses h.duration).1
        (h.short, h.plausible, h.recordable.storable) in
    let rec = h.recordable in
    let sequence : in_range 1 uint32_max (pos r.event_seq) ≡ true =
      ground (arith, rec.sequence.0, rec.sequence.1) in
    let counters : (in_range 0 sqlite_integer_max (pos r.raw_pulses)
          && in_range r.raw_pulses uint64_max (pos r.lifetime_pulses))
        ≡ true =
      ground arith in
    let unpoured : (not (is_timed_out r.status) || in_range 0 0 (pos r.raw_pulses)) ≡ true =
      ground arith in
    rw (sequence, counters, h.elapsed, p, unpoured) refl

sid_text : (sid : Text) → is_session_id sid ≡ true → text_or_none (some sid) ≡ sid
unfolding text_or_none
sid_text [] h = absurd (unfold is_session_id in ground arith)
sid_text (c ∷ cs) h = refl

check_texts-texts_of :
    (r : DeviceResult) → IsSendable r → check_texts (texts_of r) ≡ ok (r.status, r.attributed)
unfolding check_texts texts_of or_fail flag_text ◌=t◌ is_consistent
check_texts-texts_of r h =
    let rec = h.recordable in
    elim h.session [
      | inl (sid, a, s, i) ↦
          rw
            (
              parse_state-state_text r.status,
              rec.terminal,
              rec.device,
              rec.boot,
              a,
              s,
              sid_text sid i,
              i,
              rec.token,
            )
            refl
      | inr (a, s) ↦
          rw (parse_state-state_text r.status, rec.terminal, rec.device, rec.boot, a, s, rec.token)
            (unfold text_or_none is_session_id in refl)
    ]

-- The session that the host reads
session-text_or_none :
    (r : DeviceResult)
    → IsSendable r
    → (if text_or_none r.session_id =t codes "none" then none else some (text_or_none r.session_id))
      ≡ r.session_id
session-text_or_none r h = elim h.session [
  | inl (sid, a, s, i) ↦ rw (s, sid_text sid i, session-ne-none sid i) refl
  | inr (a, s) ↦ rw s (unfold text_or_none ◌=t◌ in refl)
]

pub device_result-result_fields :
    (r : DeviceResult) → IsSendable r → device_result (result_fields r) ≡ ok r
unfolding device_result
device_result-result_fields r h =
    rw
      (
        result_texts-result_fields r,
        check_texts-texts_of r h,
        parse_numbers-texts_of r,
        check_numbers-numbers_of r h,
      )
      (unfold texts_of numbers_of in rw (session-text_or_none r h) refl)

-- A result that the device sends reaches the host unchanged: the bytes of its RESULT frame, decoded
-- and read by `_device_result`, give the result again, if it is recordable, took a plausible time
-- for its pulses, and carries a session exactly if it is attributed.
pub device_result-result_frame :
    (r : DeviceResult) (bytes : List ℕ)
    → IsSendable r
    → result_frame r ≡ Coded.ok bytes
    → (frame : Frame) × (decode_frame bytes ≡ Coded.ok frame)
      × (frame.operation ≡ codes "RESULT")
      × (device_result frame.fields ≡ ok r)
unfolding result_frame
device_result-result_frame r bytes h e =
    let fields = result_fields r in
    let frame : Frame = record {
      kind = codes "R";
      request_id = codes "00000000";
      operation = codes "RESULT";
      fields = fields;
    } in
    (
      frame,
      decode_frame-encode_frame (codes "R") (codes "00000000") (codes "RESULT") fields bytes e,
      refl,
      device_result-result_fields r h,
    )
