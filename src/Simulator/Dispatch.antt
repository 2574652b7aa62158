-- ===== src/Simulator/Dispatch.antt =====
-- The dispatch of `_handle` in src/kegpulse/serialio/simulator.py on the operation of a request.
use keg_pulse.Base.{ℕ, List, [], ◌∷◌, ◌++◌, if◌then◌else◌, length}
use keg_pulse.Base.Text.{codes, ◌=t◌}
use keg_pulse.Base.Try.{Try}
use keg_pulse.Protocol.Frames.{Frame, Coded}
use keg_pulse.Device.Defs.{DeviceSessionMachine}
use keg_pulse.Device.Tick.{tick_at}
use keg_pulse.Measurement.Numbers.{print_decimal}
use keg_pulse.Simulator.Replies.{response, error_reply, counter_fields}
use keg_pulse.Simulator.Handle.{
  Handled, encoded, reply, error_code, handle_hello, handle_ping, handle_status, handle_arm,
  handle_cancel, handle_ack, result_frames,
}

-- The retained results and the frame that ends them
unfoldable pub handle_results : Frame → DeviceSessionMachine → Handled
unfolding result_frames
handle_results request m =
    let end = (codes "count", print_decimal (length m.results)) ∷ [] in
    (encoded (result_frames m.results ++ (response request (codes "RESULTS_END") end ∷ [])), m)

-- The try block of `_handle`
unfoldable pub handle_operation : Frame → ℕ → DeviceSessionMachine → Handled
handle_operation request now m =
    if request.operation =t codes "HELLO"
    then handle_hello request m
    else if request.operation =t codes "PING"
    then handle_ping request m
    else if request.operation =t codes "STATUS"
    then handle_status request now m
    else if request.operation =t codes "COUNTERS"
    then reply (response request (codes "COUNTERS") (counter_fields m)) m
    else if request.operation =t codes "ARM"
    then handle_arm request now m
    else if request.operation =t codes "CANCEL"
    then handle_cancel request now m
    else if request.operation =t codes "ACK"
    then handle_ack request m
    else if request.operation =t codes "RESULTS"
    then handle_results request m
    else reply (error_reply request (codes "UNSUPPORTED")) m

-- A reply alone
abbrev pub alone : Coded (List ℕ) → Coded (List (List ℕ))
alone (Coded.ok bytes) = Coded.ok (bytes ∷ [])
alone (Coded.err e) = Coded.err e

-- `_handle`: the replies, or the FrameError of an error reply
unfoldable pub handle :
    Frame → ℕ → DeviceSessionMachine → Coded (List (List ℕ)) × DeviceSessionMachine
unfolding handle_operation
handle request now m =
    let ticked = (tick_at now m).1 in
    if request.kind =t codes "Q"
    then (let (r, m') = handle_operation request now ticked in
        elim r [
          | Try.ok replies ↦ (Coded.ok replies, m')
          | Try.err e ↦ (alone (error_reply request (error_code e)), m')
        ])
    else (alone (error_reply request (codes "MALFORMED")), ticked)
