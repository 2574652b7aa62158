-- ===== src/Device/Retention.antt =====
-- A retained result stays available, unchanged, until it is acknowledged.
use keg_pulse.Base.{
  ℕ, suc, ◌+◌, ◌<◌, ◌≡◌, refl, inl, inr, Option, some, [], ◌∷◌, arith, max, ℤ, pos, negsuc,
  Option-cases,
}
use keg_pulse.Base.Text.{Text}
use keg_pulse.Models.{DeviceState, DeviceResult}
use keg_pulse.Device.Defs.{
  ActiveDeviceEvent, DeviceSessionMachine, Results, lookup, no_fault, session_saturated_fault,
  lifetime_saturated_fault, max_result_pulses, uint64_max,
}
use keg_pulse.Device.Tick.{
  finalize, result_of, tick_at, tick_armed, begin_settling, complete_settled,
}
use keg_pulse.Device.Methods.{arm, arm_new, cancel, cancel_checked, cancel_active, rest}
use keg_pulse.Device.Pulse.{
  pulse, pulse_at, advance_to, count_pulses, begin_event, extend_event, saturate_lifetime,
}
use keg_pulse.Device.Store.{InOrder, InOrder-le, lookup-insert_ne}
use keg_pulse.Device.Invariant.{IsWellFormed, tick_at-IsWellFormed, begin_settling-IsWellFormed}
use keg_pulse.Device.Preserve.{arm_checked_cases, advance_to-IsWellFormed, rest-IsWellFormed}

lookup_lt :
    (lo k hi : ℕ) (rs : Results) (r : DeviceResult)
    → InOrder lo hi rs
    → lookup k rs ≡ some r
    → k < hi
unfolding lookup
lookup_lt lo k hi [] r h e = absurd (ground arith)
lookup_lt lo k hi ((j, s) ∷ rs) r h e =
    ground (arith, InOrder-le (suc j) hi rs h.3, lookup_lt (suc j) k hi rs r h.3)

module _ (k : ℕ) (r : DeviceResult) where
  -- The result is there.
  abbrev pub Kept : DeviceSessionMachine → Type 0
  Kept m = lookup k m.results ≡ some r

  finalize-Kept :
      (status : DeviceState) (ended : ℕ) (fault : Text) (a : ActiveDeviceEvent)
      (m : DeviceSessionMachine)
      → m.active ≡ some a
      → InOrder 1 a.event_seq m.results
      → Kept m
      → Kept (finalize status ended fault m).1
  unfolding finalize
  finalize-Kept status ended fault a m e o h = ground (
    arith,
    lookup_lt 1 k a.event_seq m.results r o h,
    lookup-insert_ne k a.event_seq (result_of a status ended fault m) m.results,
  )

  tick_armed-Kept :
      (a : ActiveDeviceEvent) (now : ℕ) (m : DeviceSessionMachine)
      → m.active ≡ some a
      → IsWellFormed m
      → Kept m
      → Kept (tick_armed a now m).1
  unfolding tick_armed
  tick_armed-Kept a now m e w h = elim (Option-cases a.arm_deadline_ms) [
    | inl n ↦ ground arith
    | inr (d, q) ↦ ground (arith, finalize-Kept DeviceState.timed_out d no_fault a m e)
  ]

  complete_settled-Kept :
      (now : ℕ) (m : DeviceSessionMachine)
      → IsWellFormed m
      → Kept m
      → Kept (complete_settled now m).1
  unfolding complete_settled
  complete_settled-Kept now m w h = elim (Option-cases m.active) [
    | inl n ↦ ground arith
    | inr (a, e) ↦ elim (Option-cases a.settle_deadline_ms) [
      | inl n ↦ ground arith
      | inr (d, q) ↦ ground (arith, finalize-Kept DeviceState.complete d no_fault a m e)
    ]
  ]

  begin_settling-Kept :
      (a : ActiveDeviceEvent) (now : ℕ) (m : DeviceSessionMachine)
      → Kept m
      → Kept (begin_settling a now m)
  unfolding begin_settling
  begin_settling-Kept a now m h = ground arith

  pub tick_at-Kept :
      (now : ℕ) (m : DeviceSessionMachine) → IsWellFormed m → Kept m → Kept (tick_at now m).1
  unfolding tick_at
  tick_at-Kept now m w h =
      let seen = record m { last_now_ms = max m.last_now_ms now } in
      elim (Option-cases m.active) [
        | inl n ↦ ground arith
        | inr (a, e) ↦ ground (
          arith,
          tick_armed-Kept a now seen e,
          begin_settling-Kept a now seen,
          begin_settling-IsWellFormed a now seen e,
          complete_settled-Kept now (begin_settling a now seen),
        )
      ]

  advance_to-Kept :
      (now : ℕ) (m : DeviceSessionMachine) → IsWellFormed m → Kept m → Kept (advance_to now m)
  unfolding advance_to
  advance_to-Kept now m w h = ground (arith, tick_at-Kept now m w h)

  rest-Kept : (m : DeviceSessionMachine) → Kept m → Kept (rest m)
  unfolding rest
  rest-Kept m h = ground arith

  extend_event-Kept :
      (a : ActiveDeviceEvent) (count now : ℕ) (m : DeviceSessionMachine)
      → InOrder 1 a.event_seq m.results
      → Kept m
      → Kept (extend_event a count now m).1
  unfolding extend_event
  extend_event-Kept a count now m o h =
      let full = record a { pulses = max_result_pulses } in
      ground (
        arith,
        finalize-Kept DeviceState.interrupted now session_saturated_fault full
            (record m { active = some full; fault = session_saturated_fault }) refl o,
      )

  count_pulses-Kept :
      (count now : ℕ) (m : DeviceSessionMachine)
      → IsWellFormed m
      → Kept m
      → Kept (count_pulses count now m).1
  unfolding count_pulses begin_event
  count_pulses-Kept count now m w h =
      let counted = record m {
        lifetime_pulses = m.lifetime_pulses + count;
        last_now_ms = max m.last_now_ms now;
      } in
      elim (Option-cases m.active) [
        | inl n ↦ ground arith
        | inr (a, e) ↦ ground (arith, extend_event-Kept a count now counted)
      ]

  saturate_lifetime-Kept :
      (now : ℕ) (m : DeviceSessionMachine)
      → IsWellFormed m
      → Kept m
      → Kept (saturate_lifetime now m)
  unfolding saturate_lifetime
  saturate_lifetime-Kept now m w h =
      let s = record m { lifetime_pulses = uint64_max; fault = lifetime_saturated_fault } in
      elim (Option-cases m.active) [
        | inl n ↦ ground arith
        | inr (a, e) ↦
            ground (arith, finalize-Kept DeviceState.interrupted now lifetime_saturated_fault a s e)
      ]

  pub pulse-Kept :
      (count now : ℤ) (m : DeviceSessionMachine)
      → IsWellFormed m
      → Kept m
      → Kept (pulse count now m).1
  unfolding pulse pulse_at
  pulse-Kept (pos n) (pos now) m w h = ground (
    arith,
    saturate_lifetime-Kept now m w h,
    count_pulses-Kept n now (rest (advance_to now m))
        (rest-IsWellFormed (advance_to now m) (advance_to-IsWellFormed now m w))
        (rest-Kept (advance_to now m) (advance_to-Kept now m w h)),
  )
  pulse-Kept (negsuc n) (pos now) m w h = h
  pulse-Kept count (negsuc now) m w h = h

  arm_new-Kept :
      (sid : Text) (now ttl : ℕ) (m : DeviceSessionMachine)
      → Kept m
      → Kept (arm_new sid now ttl m).1
  unfolding arm_new
  arm_new-Kept sid now ttl m h = ground arith

  pub arm-Kept :
      (sid : Text) (seq now : ℤ) (ttl_ms : Option ℤ) (m : DeviceSessionMachine)
      → IsWellFormed m
      → Kept m
      → Kept (arm sid seq now ttl_ms m).1
  unfolding arm
  arm-Kept sid seq (pos now) ttl_ms m w h =
      let t = (tick_at now m).1 in
      elim (arm_checked_cases sid seq now ttl_ms t) [
        | inl e ↦ rw e (tick_at-Kept now m w h)
        | inr (ttl, e, n, _, _, _) ↦ rw e (arm_new-Kept sid now ttl t (tick_at-Kept now m w h))
      ]
  arm-Kept sid seq (negsuc now) ttl_ms m w h = h

  cancel_active-Kept :
      (a : ActiveDeviceEvent) (now : ℕ) (m : DeviceSessionMachine)
      → m.active ≡ some a
      → IsWellFormed m
      → Kept m
      → Kept (cancel_active a now m).1
  unfolding cancel_active
  cancel_active-Kept a now m e w h =
      ground (arith, finalize-Kept DeviceState.interrupted now no_fault a m e)

  cancel_checked-Kept :
      (seq : ℤ) (sid : Text) (now : ℕ) (m : DeviceSessionMachine)
      → IsWellFormed m
      → Kept m
      → Kept (cancel_checked seq sid now m).1
  unfolding cancel_checked
  cancel_checked-Kept seq sid now m w h = elim (Option-cases m.active) [
    | inl n ↦ ground arith
    | inr (a, e) ↦ ground (arith, cancel_active-Kept a now m e w h)
  ]

  pub cancel-Kept :
      (seq : ℤ) (sid : Text) (now : ℤ) (m : DeviceSessionMachine)
      → IsWellFormed m
      → Kept m
      → Kept (cancel seq sid now m).1
  unfolding cancel
  cancel-Kept seq sid (pos now) m w h =
      cancel_checked-Kept seq sid now (tick_at now m).1 (tick_at-IsWellFormed now m w)
        (tick_at-Kept now m w h)
  cancel-Kept seq sid (negsuc now) m w h = h
