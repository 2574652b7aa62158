-- ===== src/Device/Balance.antt =====
-- The balance of pulses over a history: what was counted is held, or was released by an
-- acknowledgement.
use keg_pulse.Base.{
  ℕ, ◌+◌, ◌≡◌, refl, ◌⊎◌, inl, inr, Option, none, some, List, [], ◌∷◌, arith, ℤ, pos, negsuc,
  Option-cases,
}
use keg_pulse.Base.Text.{Text}
use keg_pulse.Models.{DeviceState}
use keg_pulse.Device.Defs.{
  ActiveDeviceEvent, DeviceSessionMachine, Results, erase, erase_at, lookup, get_result, ok,
  no_fault,
}
use keg_pulse.Device.Tick.{tick, tick_at}
use keg_pulse.Device.Methods.{arm, arm_new, cancel, cancel_checked, cancel_active, acknowledge}
use keg_pulse.Device.Pulse.{pulse}
use keg_pulse.Device.Store.{pulses_of}
use keg_pulse.Device.Invariant.{IsWellFormed, tick_at-IsWellFormed}
use keg_pulse.Device.Preserve.{arm_checked_cases}
use keg_pulse.Device.Accounting.{
  accounted, SameCounts, tick_at-SameCounts, pulse-accounted, finalize-SameCounts,
}
use keg_pulse.Device.History.{Call, Fits, apply, run, apply-IsWellFormed}

tick-SameCounts :
    (now : ℤ) (m : DeviceSessionMachine) → IsWellFormed m → SameCounts m (tick now m).1
unfolding tick
tick-SameCounts (pos now) m w = tick_at-SameCounts now m w
tick-SameCounts (negsuc now) m w = (refl, refl)

arm_new-SameCounts :
    (sid : Text) (now ttl : ℕ) (m : DeviceSessionMachine)
    → m.active ≡ none
    → SameCounts m (arm_new sid now ttl m).1
unfolding arm_new
arm_new-SameCounts sid now ttl m e = ground arith

-- Arming moves no pulse.
arm-SameCounts :
    (sid : Text) (seq now : ℤ) (ttl_ms : Option ℤ) (m : DeviceSessionMachine)
    → IsWellFormed m
    → SameCounts m (arm sid seq now ttl_ms m).1
unfolding arm
arm-SameCounts sid seq (pos now) ttl_ms m w =
    let t = (tick_at now m).1 in
    elim (arm_checked_cases sid seq now ttl_ms t) [
      | inl e ↦ rw e (tick_at-SameCounts now m w)
      | inr (ttl, e, n, _, _, _) ↦
          rw e (omega (arith, arm_new-SameCounts sid now ttl t n, tick_at-SameCounts now m w))
    ]
arm-SameCounts sid seq (negsuc now) ttl_ms m w = (refl, refl)

cancel_active-SameCounts :
    (a : ActiveDeviceEvent) (now : ℕ) (m : DeviceSessionMachine)
    → m.active ≡ some a
    → IsWellFormed m
    → SameCounts m (cancel_active a now m).1
unfolding cancel_active
cancel_active-SameCounts a now m e w =
    ground (arith, finalize-SameCounts DeviceState.interrupted now no_fault a m e)

cancel_checked-SameCounts :
    (seq : ℤ) (sid : Text) (now : ℕ) (m : DeviceSessionMachine)
    → IsWellFormed m
    → SameCounts m (cancel_checked seq sid now m).1
unfolding cancel_checked
cancel_checked-SameCounts seq sid now m w = elim (Option-cases m.active) [
  | inl n ↦ ground arith
  | inr (a, e) ↦ ground (arith, cancel_active-SameCounts a now m e w)
]

-- Cancelling moves no pulse: an event with pulses becomes a result.
cancel-SameCounts :
    (seq : ℤ) (sid : Text) (now : ℤ) (m : DeviceSessionMachine)
    → IsWellFormed m
    → SameCounts m (cancel seq sid now m).1
unfolding cancel
cancel-SameCounts seq sid (pos now) m w =
    let t = (tick_at now m).1 in
    omega (
      arith,
      cancel_checked-SameCounts seq sid now t (tick_at-IsWellFormed now m w),
      tick_at-SameCounts now m w,
    )
cancel-SameCounts seq sid (negsuc now) m w = (refl, refl)

-- The pulses of the result that an acknowledgement drops
unfoldable pub pulses_at : ℤ → Results → ℕ
pulses_at seq rs = elim (get_result seq rs) [ none ↦ 0 | some r ↦ r.raw_pulses ]

pulses_of-erase_lookup :
    (k : ℕ) (rs : Results) → pulses_of (erase k rs) + pulses_at (pos k) rs ≡ pulses_of rs
unfolding erase pulses_at get_result lookup
pulses_of-erase_lookup k [] = refl
pulses_of-erase_lookup k ((j, r) ∷ rs) = ground (arith, pulses_of-erase_lookup k rs)

pulses_of-erase_at_lookup :
    (seq : ℤ) (rs : Results) → pulses_of (erase_at seq rs) + pulses_at seq rs ≡ pulses_of rs
unfolding erase_at
pulses_of-erase_at_lookup (pos k) rs = pulses_of-erase_lookup k rs
pulses_of-erase_at_lookup (negsuc k) rs = unfold pulses_at get_result in omega arith

-- An acknowledgement releases exactly the pulses of the result that it drops.
acknowledge-accounted :
    (seq : ℤ) (m : DeviceSessionMachine)
    → (accounted (acknowledge seq m).1 + pulses_at seq m.results ≡ accounted m)
      × ((acknowledge seq m).1.lifetime_pulses ≡ m.lifetime_pulses)
unfolding acknowledge
acknowledge-accounted seq m = ground (arith, pulses_of-erase_at_lookup seq m.results)

-- A pulse call that returned, or that refused its arguments and changed nothing; not one that
-- raised because a counter is saturated or the sequence numbers are used up.
abbrev pub IsCounted : Call → DeviceSessionMachine → Type 0
IsCounted (Call.pulses count now) m = ((pulse count now m).0 ≡ ok tt) ⊎ ((pulse count now m).1 ≡ m)
IsCounted (Call.resets boot_id now) m = ⊥
IsCounted (Call.arms sid seq now ttl) m = Unit
IsCounted (Call.cancels seq sid now) m = Unit
IsCounted (Call.ticks now) m = Unit
IsCounted (Call.acknowledges seq) m = Unit

-- The pulses that a call releases
unfoldable pub released : Call → DeviceSessionMachine → ℕ
released (Call.acknowledges seq) m = pulses_at seq m.results
released _ m = 0

pulse-balance :
    (count now : ℤ) (m : DeviceSessionMachine)
    → IsWellFormed m
    → (pulse count now m).0 ≡ ok tt
    → (pulse count now m).1.lifetime_pulses + accounted m
      ≡ accounted (pulse count now m).1 + m.lifetime_pulses
pulse-balance (pos n) (pos now) m w h = omega (arith, pulse-accounted n now m w h)
pulse-balance (negsuc n) (pos now) m w h = unfold pulse in cc
pulse-balance count (negsuc now) m w h = unfold pulse in cc

apply-balance :
    (c : Call) (m : DeviceSessionMachine)
    → IsWellFormed m
    → IsCounted c m
    → (apply c m).lifetime_pulses + accounted m
      ≡ accounted (apply c m) + m.lifetime_pulses + released c m
unfolding apply released
apply-balance (Call.arms sid seq now ttl) m w h = omega (arith, arm-SameCounts sid seq now ttl m w)
apply-balance (Call.cancels seq sid now) m w h = omega (arith, cancel-SameCounts seq sid now m w)
apply-balance (Call.pulses count now) m w (inl h) = omega (arith, pulse-balance count now m w h)
apply-balance (Call.pulses count now) m w (inr h) = rw h (omega arith)
apply-balance (Call.ticks now) m w h = omega (arith, tick-SameCounts now m w)
apply-balance (Call.acknowledges seq) m w h = omega (arith, acknowledge-accounted seq m)
apply-balance (Call.resets boot_id now) m w h = absurd h

-- The same over a history
abbrev pub AllCounted : List Call → DeviceSessionMachine → Type 0
AllCounted [] m = Unit
AllCounted (c ∷ cs) m = IsCounted c m × Fits c × AllCounted cs (apply c m)

unfoldable pub released_by : List Call → DeviceSessionMachine → ℕ
released_by [] m = 0
released_by (c ∷ cs) m = released c m + released_by cs (apply c m)

-- Over any history within one boot in which no pulse call ran into a saturated counter or used-up
-- sequence numbers, the lifetime counter grows by exactly what the machine newly holds plus the
-- pulses of the results that were acknowledged: none is lost and none is counted twice.
pub run-balance :
    (cs : List Call) (m : DeviceSessionMachine)
    → IsWellFormed m
    → AllCounted cs m
    → (run cs m).lifetime_pulses + accounted m
      ≡ accounted (run cs m) + m.lifetime_pulses + released_by cs m
unfolding run released_by
run-balance [] m w h = omega arith
run-balance (c ∷ cs) m w h =
    omega (
      arith,
      apply-balance c m w h.0,
      run-balance cs (apply c m) (apply-IsWellFormed c m h.1 w) h.2,
    )
