-- ===== src/Device/History.antt =====
-- Histories of calls on the device session machine: what holds after any sequence of them.
use keg_pulse.Base.{ℕ, ◌≡◌, Option, List, [], ◌∷◌, arith, ℤ, All}
use keg_pulse.Base.Text.{Text}
use keg_pulse.Device.Defs.{DeviceSessionMachine, Settings, ok}
use keg_pulse.Device.Tick.{tick}
use keg_pulse.Device.Methods.{arm, cancel, acknowledge, reset, create}
use keg_pulse.Device.Pulse.{pulse}
use keg_pulse.Device.Invariant.{IsWellFormed}
use keg_pulse.Device.Preserve.{
  IsStorable, tick-IsWellFormed, arm-IsWellFormed, cancel-IsWellFormed, pulse-IsWellFormed,
  acknowledge-IsWellFormed, reset-IsWellFormed,
}

-- A call of one of the methods, with its arguments
pub data Call : Type 0 where
  arms : Text → ℤ → ℤ → Option ℤ → Call
  cancels : ℤ → Text → ℤ → Call
  pulses : ℤ → ℤ → Call
  ticks : ℤ → Call
  acknowledges : ℤ → Call
  resets : Text → ℕ → Call

-- The machine after a call, whether it returned or raised
unfoldable pub apply : Call → DeviceSessionMachine → DeviceSessionMachine
apply (Call.arms sid seq now ttl) m = (arm sid seq now ttl m).1
apply (Call.cancels seq sid now) m = (cancel seq sid now m).1
apply (Call.pulses count now) m = (pulse count now m).1
apply (Call.ticks now) m = (tick now m).1
apply (Call.acknowledges seq) m = (acknowledge seq m).1
apply (Call.resets boot_id now) m = reset boot_id now m

unfoldable pub run : List Call → DeviceSessionMachine → DeviceSessionMachine
run [] m = m
run (c ∷ cs) m = run cs (apply c m)

abbrev pub Fits : Call → Type 0
Fits (Call.pulses count now) = IsStorable count
Fits (Call.arms sid seq now ttl) = Unit
Fits (Call.cancels seq sid now) = Unit
Fits (Call.ticks now) = Unit
Fits (Call.acknowledges seq) = Unit
Fits (Call.resets boot_id now) = Unit

pub apply-IsWellFormed :
    (c : Call) (m : DeviceSessionMachine) → Fits c → IsWellFormed m → IsWellFormed (apply c m)
unfolding apply
apply-IsWellFormed (Call.arms sid seq now ttl) m f w = arm-IsWellFormed sid seq now ttl m w
apply-IsWellFormed (Call.cancels seq sid now) m f w = cancel-IsWellFormed seq sid now m w
apply-IsWellFormed (Call.pulses count now) m f w = pulse-IsWellFormed count now m f w
apply-IsWellFormed (Call.ticks now) m f w = tick-IsWellFormed now m w
apply-IsWellFormed (Call.acknowledges seq) m f w = acknowledge-IsWellFormed seq m w
apply-IsWellFormed (Call.resets boot_id now) m f w = reset-IsWellFormed boot_id now m

pub run-IsWellFormed :
    (cs : List Call) (m : DeviceSessionMachine)
    → All Fits cs
    → IsWellFormed m
    → IsWellFormed (run cs m)
unfolding run
run-IsWellFormed [] m f w = w
run-IsWellFormed (c ∷ cs) m f w = run-IsWellFormed cs (apply c m) f.1 (apply-IsWellFormed c m f.0 w)

-- From construction on, any history of calls that return or raise leaves the machine well formed:
-- its state matches the event in progress, the retained results stand under their own increasing
-- sequence numbers within the capacity, and no more pulses are held than were counted.
pub create-run-IsWellFormed :
    (s : Settings) (boot_id : Text) {m : DeviceSessionMachine} (cs : List Call)
    → create s boot_id ≡ ok m
    → All Fits cs
    → IsWellFormed (run cs m)
unfolding create
create-run-IsWellFormed s boot_id {m} cs e f = run-IsWellFormed cs m f (ground arith)
