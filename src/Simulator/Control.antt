-- ===== src/Simulator/Control.antt =====
-- Reading from the simulated device, and the methods of `SimulatorTransport` in
-- src/kegpulse/serialio/simulator.py that drive it.
use keg_pulse.Base.{
  ℕ, zero, suc, ◌+◌, ◌/◌, ◌%◌, ◌^◌, Bool, true, false, ◌&&◌, Option, none, some, List, [], ◌∷◌,
  ◌++◌, ltb, ◌==◌, min, length, if◌then◌else◌, ℤ, pos, negsuc, in_range, pos_part,
}
use keg_pulse.Base.Text.{Text, codes, ◌=t◌}
use keg_pulse.Base.Try.{ok, err}
use keg_pulse.Protocol.Bytes.{hex_digit, parse_hex}
use keg_pulse.Device.Defs.{Result}
use keg_pulse.Device.Tick.{tick_at}
use keg_pulse.Device.Pulse.{pulse}
use keg_pulse.Device.Methods.{reset}
use keg_pulse.Simulator.Transport.{
  SimulatorTransport, SimulatorError, Step, then_do, emit_new_result,
}

-- The first n bytes, and the rest
unfoldable pub take_bytes : ℕ → List ℕ → List ℕ × List ℕ
take_bytes zero bytes = ([], bytes)
take_bytes (suc n) [] = ([], [])
take_bytes (suc n) (b ∷ bs) = let (taken, rest) = take_bytes n bs in (b ∷ taken, rest)

-- `if chunk_size: count = min(count, chunk_size)`
unfoldable pub chunked : Option ℕ → ℕ → ℕ
chunked none count = count
chunked (some zero) count = count
chunked (some (suc n)) count = min count (suc n)

-- `read` without its waiting: nothing within the timeout is the empty result.
unfoldable pub read : ℕ → SimulatorTransport → Step (List ℕ)
unfolding take_bytes chunked
read maximum t =
    if length t.incoming == 0
    then (if t.is_opened && t.available then (ok [], t) else (err SimulatorError.unavailable, t))
    else let count = chunked t.faults.chunk_size (min maximum (length t.incoming)) in
      let (output, rest) = take_bytes count t.incoming in (ok output, record t { incoming = rest })

-- A call of the device's `pulse`
unfoldable pub pulse_device : ℤ → SimulatorTransport → Step (Unit {0})
pulse_device count t =
    let (r, device) = pulse count (pos t.now_ms) t.device in
    let t' = record t { device = device } in
    elim r [ Result.ok u ↦ (ok tt, t') | Result.err e ↦ (err (SimulatorError.device_error e), t') ]

-- The loop over single pulses
unfoldable pub pulse_train : ℕ → ℕ → SimulatorTransport → Step (Unit {0})
unfolding pulse_device
pulse_train zero interval t = (ok tt, t)
pulse_train (suc n) interval t =
    then_do (pulse_device (pos 1) (record t { now_ms = t.now_ms + interval }))
      (pulse_train n interval)

unfoldable pub inject_pulses : ℤ → ℤ → SimulatorTransport → Step (Unit {0})
unfolding pulse_device pulse_train
inject_pulses count interval_ms t =
    if t.available
    then (let together = pulse_device count t in
        let pulsed : Step (Unit {0}) = elim interval_ms [
          | negsuc n ↦ together
          | pos interval ↦
              if interval == 0 then together else pulse_train (pos_part count) interval t
        ] in
        then_do pulsed (emit_new_result t.device.results))
    else (err SimulatorError.unavailable, t)

unfoldable pub advance : ℤ → SimulatorTransport → Step (Unit {0})
advance milliseconds t =
    if in_range 0 600000 milliseconds
    then (let now = t.now_ms + pos_part milliseconds in
        emit_new_result t.device.results
          (record t { now_ms = now; device = (tick_at now t.device).1 }))
    else (err SimulatorError.bad_advance, t)

unfoldable pub finish_pour : SimulatorTransport → Step (Unit {0})
unfolding advance
finish_pour t = advance (pos (t.device.settings.flow_gap_ms + t.device.settings.settling_ms)) t

unfoldable pub disconnect_device : SimulatorTransport → SimulatorTransport
disconnect_device t = record t { available = false; is_opened = false }

unfoldable pub reconnect_device : SimulatorTransport → SimulatorTransport
reconnect_device t = record t { available = true }

-- `f"{number:016X}"` for a number below 2^64: its last n hex digits before those given
unfoldable pub print_hex : ℕ → ℕ → Text → Text
print_hex zero n rest = rest
print_hex (suc k) n rest = print_hex k (n / 16) (hex_digit (n % 16) ∷ rest)

-- The boot identity after the next reset; identities are 16 hex digits.
unfoldable pub next_boot_id : Text → Text
unfolding print_hex
next_boot_id boot = print_hex 16 ((parse_hex boot + 1) % 2 ^ 64) []

unfoldable pub reset_device : SimulatorTransport → SimulatorTransport
unfolding next_boot_id
reset_device t = record t {
  now_ms = 0;
  device = reset (next_boot_id t.device.boot_id) 0 t.device;
  incoming = [];
}

unfoldable pub configure_fault : Text → Bool → SimulatorTransport → Step (Unit {0})
unfolding ◌=t◌
configure_fault fault enabled t =
    if fault =t codes "corrupt_next"
    then (ok tt, record t { faults = record t.faults { corrupt_next = enabled } })
    else if fault =t codes "duplicate_next"
    then (ok tt, record t { faults = record t.faults { duplicate_next = enabled } })
    else if fault =t codes "delay_next"
    then (ok tt, record t { faults = record t.faults { delay_next = enabled } })
    else if fault =t codes "partial"
    then (
      ok tt,
      record t { faults = record t.faults { chunk_size = if enabled then some 3 else none } },
    )
    else (err SimulatorError.unknown_fault, t)

-- The delayed frames one after the other, or the last first
unfoldable pub joined : Bool → List (List ℕ) → List ℕ
joined reverse [] = []
joined reverse (bytes ∷ rest) =
    let others = joined reverse rest in if reverse then others ++ bytes else bytes ++ others

unfoldable pub flush_delayed : Bool → SimulatorTransport → SimulatorTransport
unfolding joined
flush_delayed reverse t = record t {
  incoming = t.incoming ++ joined reverse t.delayed;
  delayed = [];
}

unfoldable pub inject_raw_response : List ℕ → SimulatorTransport → Step (Unit {0})
inject_raw_response data_bytes t =
    if ltb 4096 (length data_bytes)
    then (err SimulatorError.too_large, t)
    else (ok tt, record t { incoming = t.incoming ++ data_bytes })

-- An action of a script, its numbers already read
pub data Action : Type 0 where
  pulses : ℤ → Action
  advance_by : ℤ → Action
  finish disconnect reconnect restart unknown : Action

unfoldable pub run_action : Action → SimulatorTransport → Step (Unit {0})
unfolding inject_pulses advance finish_pour
run_action (Action.pulses n) t = inject_pulses n (pos 0) t
run_action (Action.advance_by n) t = advance n t
run_action Action.finish t = finish_pour t
run_action Action.disconnect t = (ok tt, disconnect_device t)
run_action Action.reconnect t = (ok tt, reconnect_device t)
run_action Action.restart t = (ok tt, reset_device t)
run_action Action.unknown t = (err SimulatorError.unknown_action, t)

unfoldable pub run_actions : List Action → SimulatorTransport → Step (Unit {0})
unfolding run_action
run_actions [] t = (ok tt, t)
run_actions (action ∷ actions) t = then_do (run_action action t) (run_actions actions)

unfoldable pub run_script : List Action → SimulatorTransport → Step (Unit {0})
unfolding run_actions
run_script actions t =
    if ltb 100 (length actions) then (err SimulatorError.too_large, t) else run_actions actions t
