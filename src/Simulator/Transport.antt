-- ===== src/Simulator/Transport.antt =====
-- `SimulatorTransport` of src/kegpulse/serialio/simulator.py: the link to the simulated device. The
-- condition variable and the waiting of `read` are left out; a raise keeps the state reached.
use keg_pulse.Base.{
  ℕ, Bool, true, false, ◌&&◌, Option, none, some, List, [], ◌∷◌, ◌++◌, length, if◌then◌else◌,
}
use keg_pulse.Base.Text.{Text, codes}
use keg_pulse.Base.Try.{Try, ok, err}
use keg_pulse.Protocol.Bytes.{rsplit}
use keg_pulse.Protocol.Frames.{Frame, FrameErrorCode, Coded, encode_frame}
use keg_pulse.Protocol.Parser.{FrameParser, feed}
use keg_pulse.Device.Defs.{DeviceSessionMachine, DeviceError, Results, lookup}
use keg_pulse.Simulator.Replies.{result_frame}
use keg_pulse.Simulator.Dispatch.{handle}

-- `class FaultSettings`
pub record FaultSettings : Type 0 where
  pub corrupt_next : Bool
  pub duplicate_next : Bool
  pub delay_next : Bool
  pub chunk_size : Option ℕ

-- `class SimulatorTransport`
pub record SimulatorTransport : Type 0 where
  pub device : DeviceSessionMachine
  pub now_ms : ℕ
  pub available : Bool
  pub is_opened : Bool
  pub incoming : List ℕ
  pub delayed : List (List ℕ)
  pub parser : FrameParser
  pub faults : FaultSettings

-- What the methods raise
pub data SimulatorError : Type 0 where
  unavailable bad_advance unknown_fault too_large unknown_action : SimulatorError
  frame_error : FrameErrorCode → SimulatorError
  device_error : DeviceError → SimulatorError

abbrev pub Step {ℓ} : Type ℓ → Type ℓ
Step A = Try SimulatorError A × SimulatorTransport

-- One step and then another, unless the first raises
abbrev pub then_do {ℓ} : {A : Type ℓ} → Step (Unit {0}) → (SimulatorTransport → Step A) → Step A
then_do (ok u, t) next = next t
then_do (err e, t) next = (err e, t)

-- The property `is_open`
unfoldable pub is_open : SimulatorTransport → Bool
is_open t = t.is_opened && t.available

-- `open`
unfoldable pub open_link : SimulatorTransport → Step (Unit {0})
open_link t =
    if t.available
    then (ok tt, record t { is_opened = true })
    else (err SimulatorError.unavailable, t)

-- `close`
unfoldable pub close_link : SimulatorTransport → SimulatorTransport
close_link t = record t { is_opened = false }

-- The bytes up to the last `*`, and a CRC that is 0000
unfoldable pub corrupted : List ℕ → List ℕ
corrupted bytes = elim (rsplit b'*' bytes) [
  | none ↦ codes "0000" ++ (10 ∷ [])
  | some (before, after) ↦ before ++ (b'*' ∷ codes "0000" ++ (10 ∷ []))
]

-- The end of `_enqueue`
unfoldable pub enqueue_now : List ℕ → SimulatorTransport → SimulatorTransport
enqueue_now bytes t =
    if t.faults.delay_next
    then record t {
      faults = record t.faults { delay_next = false };
      delayed = t.delayed ++ (bytes ∷ []);
    }
    else if t.faults.duplicate_next
    then record t {
      faults = record t.faults { duplicate_next = false };
      incoming = (t.incoming ++ bytes) ++ bytes;
    }
    else record t { incoming = t.incoming ++ bytes }

-- `_enqueue`
unfoldable pub enqueue : List ℕ → SimulatorTransport → SimulatorTransport
unfolding corrupted enqueue_now
enqueue bytes t =
    if t.faults.corrupt_next
    then enqueue_now (corrupted bytes)
        (record t { faults = record t.faults { corrupt_next = false } })
    else enqueue_now bytes t

-- An encoded frame is queued, or its FrameError raised.
unfoldable pub enqueue_frame : Coded (List ℕ) → SimulatorTransport → Step (Unit {0})
unfolding enqueue
enqueue_frame (Coded.ok bytes) t = (ok tt, enqueue bytes t)
enqueue_frame (Coded.err code) t = (err (SimulatorError.frame_error code), t)

unfoldable pub enqueue_all : List (List ℕ) → SimulatorTransport → SimulatorTransport
unfolding enqueue
enqueue_all [] t = t
enqueue_all (bytes ∷ rest) t = enqueue_all rest (enqueue bytes t)

-- `_emit_new_result` over the results given
unfoldable pub emit_new : Results → Results → SimulatorTransport → Step (Unit {0})
unfolding enqueue_frame
emit_new prior [] t = (ok tt, t)
emit_new prior ((seq, r) ∷ rs) t = elim (lookup seq prior) [
  | some old ↦ emit_new prior rs t
  | none ↦ then_do (enqueue_frame (result_frame r) t) (emit_new prior rs)
]

-- `_emit_new_result`
unfoldable pub emit_new_result : Results → SimulatorTransport → Step (Unit {0})
unfolding emit_new
emit_new_result prior t = emit_new prior t.device.results t

-- `error.code.value`
unfoldable pub code_text : FrameErrorCode → Text
code_text FrameErrorCode.malformed = codes "MALFORMED"
code_text FrameErrorCode.bad_crc = codes "BAD_CRC"
code_text FrameErrorCode.too_long = codes "TOO_LONG"
code_text FrameErrorCode.unsupported_version = codes "UNSUPPORTED_VERSION"

-- The first loop of `write`: an error frame for each line that could not be parsed
unfoldable pub report_errors : List FrameErrorCode → SimulatorTransport → Step (Unit {0})
unfolding enqueue_frame
report_errors [] t = (ok tt, t)
report_errors (code ∷ rest) t =
    let fields = (codes "code", code_text code) ∷ (codes "op", codes "PARSE") ∷ [] in
    then_do (enqueue_frame (encode_frame (codes "E") (codes "00000000") (codes "ERROR") fields) t)
      (report_errors rest)

-- One frame in `write`: the device's new results are queued before the replies.
unfoldable pub serve : Frame → SimulatorTransport → Step (Unit {0})
unfolding handle emit_new_result enqueue_all
serve frame t =
    let (replies, device) = handle frame t.now_ms t.device in
    let t' = record t { device = device } in
    elim replies [
      | Coded.err code ↦ (err (SimulatorError.frame_error code), t')
      | Coded.ok frames ↦
          then_do (emit_new_result t.device.results t') (λ u. (ok tt, enqueue_all frames u))
    ]

unfoldable pub serve_all : List Frame → SimulatorTransport → Step (Unit {0})
unfolding serve
serve_all [] t = (ok tt, t)
serve_all (frame ∷ frames) t = then_do (serve frame t) (serve_all frames)

-- `write`
unfoldable pub write : List ℕ → SimulatorTransport → Step ℕ
unfolding report_errors serve_all
write data_bytes t =
    if t.is_opened && t.available
    then (let fed = feed data_bytes t.parser in
        then_do (report_errors fed.errors (record t { parser = fed.parser }))
          (λ u. then_do (serve_all fed.frames u) (λ v. (ok (length data_bytes), v))))
    else (err SimulatorError.unavailable, t)
