-- ===== src/Device/Delivery.antt =====
-- At-least-once delivery: results stay until acknowledged, commands can be repeated.
use keg_pulse.Base.{
  ℕ, ◌+◌, ◌≡◌, refl, ◌≢◌, inl, inr, Option, none, some, List, [], ◌∷◌, arith, ℤ, pos, negsuc, true,
  false, Option-cases, All, is_none, is_number, ap,
}
use native.Mathlib.Decide.{dec_lt}
use keg_pulse.Base.Text.{Text, =t_refl}
use keg_pulse.Models.{DeviceState, DeviceResult}
use keg_pulse.Device.Defs.{
  DeviceSessionMachine, Results, erase, erase_at, lookup, get_result, ok, no_fault,
}
use keg_pulse.Device.Tick.{tick, tick_at, result_of}
use keg_pulse.Device.Methods.{
  arm, arm_checked, arm_new, armed_event, acknowledge, rest, retained, is_active_event,
  is_bad_session, arm_ttl,
}
use keg_pulse.Device.Store.{InOrder, lookup-erase_self, lookup-insert_self}
use keg_pulse.Device.Invariant.{IsWellFormed}
use keg_pulse.Device.History.{Call, Fits, apply, run, apply-IsWellFormed}
use keg_pulse.Device.Retention.{Kept, arm-Kept, cancel-Kept, pulse-Kept, tick_at-Kept}
use keg_pulse.Device.Timing.{tick_at-armed}

lookup-erase_ne : (j k : ℕ) (rs : Results) → (k ≡ j → ⊥) → lookup k (erase j rs) ≡ lookup k rs
unfolding lookup erase
lookup-erase_ne j k [] h = refl
lookup-erase_ne j k ((i, s) ∷ rs) h = ground (arith, lookup-erase_ne j k rs h)

erase_absent : (k : ℕ) (rs : Results) → lookup k rs ≡ none → erase k rs ≡ rs
unfolding lookup erase
erase_absent k [] h = refl
erase_absent k ((j, s) ∷ rs) h = ground (arith, erase_absent k rs)

-- A call other than the acknowledgement of this result, and no reset
abbrev pub Spares : ℕ → Call → Type 0
Spares k (Call.acknowledges (pos j)) = k ≢ j
Spares k (Call.acknowledges (negsuc j)) = Unit
Spares k (Call.resets boot_id now) = ⊥
Spares k (Call.arms sid seq now ttl) = Unit
Spares k (Call.cancels seq sid now) = Unit
Spares k (Call.pulses count now) = Unit
Spares k (Call.ticks now) = Unit

apply-Kept :
    (k : ℕ) (r : DeviceResult) (c : Call) (m : DeviceSessionMachine)
    → Spares k c
    → IsWellFormed m
    → Kept k r m
    → Kept k r (apply c m)
unfolding apply
apply-Kept k r (Call.arms sid seq now ttl) m s w h = arm-Kept k r sid seq now ttl m w h
apply-Kept k r (Call.cancels seq sid now) m s w h = cancel-Kept k r seq sid now m w h
apply-Kept k r (Call.pulses count now) m s w h = pulse-Kept k r count now m w h
apply-Kept k r (Call.ticks (pos now)) m s w h = unfold tick in tick_at-Kept k r now m w h
apply-Kept k r (Call.ticks (negsuc now)) m s w h = unfold tick in h
apply-Kept k r (Call.acknowledges (pos j)) m s w h =
    unfold acknowledge rest erase_at in ground (arith, lookup-erase_ne j k m.results s)
apply-Kept k r (Call.acknowledges (negsuc j)) m s w h =
    unfold acknowledge rest erase_at in ground arith
apply-Kept k r (Call.resets boot_id now) m s w h = absurd s

-- A retained result stays available under its sequence number, unchanged, through any history that
-- neither acknowledges it nor resets the device.
pub lookup-run :
    (k : ℕ) (r : DeviceResult) (cs : List Call) (m : DeviceSessionMachine)
    → All Fits cs
    → All (Spares k) cs
    → IsWellFormed m
    → lookup k m.results ≡ some r
    → lookup k (run cs m).results ≡ some r
unfolding run
lookup-run k r [] m f s w h = h
lookup-run k r (c ∷ cs) m f s w h =
    lookup-run k r cs (apply c m) f.1 s.1 (apply-IsWellFormed c m f.0 w)
      (apply-Kept k r c m s.0 w h)

order_of : (m : DeviceSessionMachine) → IsWellFormed m → (hi : ℕ) × InOrder 1 hi m.results
order_of m w = elim (Option-cases m.active) [
  | inl n ↦ (m.next_event_seq, ground arith)
  | inr (a, e) ↦ (a.event_seq, ground arith)
]

-- An acknowledgement removes its result, reports whether there was one, and repeated at once does
-- nothing and says so.
pub acknowledge-acknowledge :
    (k : ℕ) (m : DeviceSessionMachine)
    → IsWellFormed m
    → let (already, m') = acknowledge (pos k) m in
      (lookup k m'.results ≡ none)
      × (already ≡ is_none (lookup k m.results))
      × (acknowledge (pos k) m' ≡ (true, m'))
unfolding acknowledge rest erase_at get_result
acknowledge-acknowledge k m w =
    let (hi, o) = order_of m w in
    let gone = lookup-erase_self 1 k hi m.results o in
    (ground (arith, gone), refl, ground (arith, gone, erase_absent k (erase k m.results) gone))

-- The machine with a newly armed event
abbrev newly_armed : Text → ℕ → ℕ → DeviceSessionMachine → DeviceSessionMachine
newly_armed sid now ttl m = record m {
  next_event_seq = m.next_event_seq + 1;
  active = some (armed_event m.next_event_seq sid now ttl);
  state = DeviceState.armed;
}

arm_new_lem :
    (sid : Text) (now ttl : ℕ) (m : DeviceSessionMachine)
    → (arm_new sid now ttl m).0 ≡ ok false
    → arm_new sid now ttl m ≡ (ok false, newly_armed sid now ttl m)
unfolding arm_new
arm_new_lem sid now ttl m h = ground arith

is_number_iff : (n : ℕ) (i : ℤ) → is_number n i ≡ true → i ≡ pos n
is_number_iff n (pos k) h = ap pos (ground arith)
is_number_iff n (negsuc k) h = cc

-- What a call of `arm` that starts an event has found and done.
arm_checked_new :
    (sid : Text) (seq : ℤ) (now : ℕ) (ttl_ms : Option ℤ) (m : DeviceSessionMachine)
    → (arm_checked sid seq now ttl_ms m).0 ≡ ok false
    → (ttl : ℕ) × ((arm_checked sid seq now ttl_ms m).1 ≡ newly_armed sid now ttl m)
      × (seq ≡ pos m.next_event_seq)
      × (is_bad_session sid ≡ false)
unfolding arm_checked
arm_checked_new sid seq now ttl_ms m h =
    elim (Option-cases (arm_ttl ttl_ms m.settings.arm_timeout_ms)) [
      | inl n ↦ absurd (ground arith)
      | inr (ttl, e) ↦ (
        ttl,
        ground (arith, arm_new_lem sid now ttl m),
        ground (arith, is_number_iff m.next_event_seq seq),
        ground arith,
      )
    ]

-- An armed event answers its own arming, before and after it times out.
arm_checked_again :
    (sid : Text) (now ttl u : ℕ) (ttl_ms : Option ℤ) (m : DeviceSessionMachine)
    → is_bad_session sid ≡ false
    → let m' = (tick_at u (newly_armed sid now ttl m)).1 in
      arm_checked sid (pos m.next_event_seq) u ttl_ms m' ≡ (ok true, m')
unfolding arm_checked armed_event is_active_event retained get_result result_of
arm_checked_again sid now ttl u ttl_ms m b =
    let a = armed_event m.next_event_seq sid now ttl in
    let m' = newly_armed sid now ttl m in
    let facts = tick_at-armed u (now + ttl) a m' refl refl refl in
    elim (dec_lt u (now + ttl)) [
      | yes p ↦ rw (facts.0 p) (ground (arith, =t_refl sid))
      | no p ↦ rw (facts.1 (omega arith)) (
          ground (
            arith,
            =t_refl sid,
            lookup-insert_self m.next_event_seq
                (result_of a DeviceState.timed_out (now + ttl) no_fault m') m.results,
          ))
    ]

-- Arming is idempotent: after a call that started an event, a repeated call with the same session
-- and sequence number, at any time, whatever its ttl, reports a duplicate and does nothing but let
-- time pass, also when the event has timed out meanwhile.
pub arm-arm :
    (sid : Text) (seq : ℤ) (t u : ℕ) (ttl_ms ttl_ms' : Option ℤ) (m : DeviceSessionMachine)
    → (arm sid seq (pos t) ttl_ms m).0 ≡ ok false
    → let m' = (arm sid seq (pos t) ttl_ms m).1 in
      arm sid seq (pos u) ttl_ms' m' ≡ (ok true, (tick_at u m').1)
unfolding arm
arm-arm sid seq t u ttl_ms ttl_ms' m h =
    let seen = (tick_at t m).1 in
    let (ttl, e, s, b) = arm_checked_new sid seq t ttl_ms seen h in
    rw (e, s) (arm_checked_again sid t ttl u ttl_ms' seen b)
