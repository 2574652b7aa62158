-- ===== src/Device/Deadline.antt =====
-- Which event a pulse belongs to when it meets a deadline, and pulses with no sequence number left.
use keg_pulse.Base.{
  ℕ, ◌+◌, ◌≤◌, ◌<◌, ◌≡◌, ◌⊎◌, refl, ◌∙◌, inl, inr, Option-cases, none, some, arith, length, pos,
}
use native.Mathlib.Decide.{dec_lt}
use keg_pulse.Models.{DeviceState}
use keg_pulse.Device.Defs.{
  ActiveDeviceEvent, DeviceSessionMachine, ok, err, DeviceError, uint32_max, max_result_pulses,
}
use keg_pulse.Device.Tick.{tick_at}
use keg_pulse.Device.Pulse.{pulse, pulse_at, count_pulses, advance_to, tick_past, extended}
use keg_pulse.Device.Invariant.{IsWellFormed}
use keg_pulse.Device.Methods.{rest}
use keg_pulse.Device.Preserve.{advance_to-IsWellFormed, rest-IsWellFormed}
use keg_pulse.Device.Accounting.{accounted, advance_to-SameCounts, rest-SameCounts}

module _ (n now d : ℕ) (a : ActiveDeviceEvent) (m : DeviceSessionMachine) (w : IsWellFormed m)
    (e : m.active ≡ some a) (s : a.state ≡ DeviceState.armed) (q : a.arm_deadline_ms ≡ some d)
    (p : 0 < n) (fits : m.lifetime_pulses + n ≤ max_result_pulses) where
  -- On a well-formed machine, pulses that keep the lifetime counter within `max_result_pulses` and
  -- come at the deadline of an armed event, or before it, belong to that event: the same event, now
  -- pouring, has its pulses and those of the call, begins and was last seen at that time, and no
  -- result is added.
  pub pulse_by_deadline :
      now ≤ d
      → (b : ActiveDeviceEvent) × ((pulse (pos n) (pos now) m).0 ≡ ok tt)
        × ((pulse (pos n) (pos now) m).1.active ≡ some b)
        × ((pulse (pos n) (pos now) m).1.state ≡ DeviceState.pouring)
        × ((pulse (pos n) (pos now) m).1.results ≡ m.results)
        × (b.event_seq ≡ a.event_seq)
        × (b.session_id ≡ a.session_id)
        × (b.attributed ≡ a.attributed)
        × (b.state ≡ DeviceState.pouring)
        × (b.pulses ≡ a.pulses + n)
        × (b.started_ms ≡ some now)
        × (b.last_pulse_ms ≡ some now)
        × (b.settle_deadline_ms ≡ none)
  unfolding pulse pulse_at advance_to tick_past extended
  pulse_by_deadline h = (
    extended a n now,
    ground arith,
    ground arith,
    ground arith,
    ground arith,
    refl,
    refl,
    refl,
    refl,
    refl,
    rw s refl,
    refl,
    refl,
  )

-- Advancing time takes no sequence number.
tick_at-next_event_seq :
    (now : ℕ) (m : DeviceSessionMachine) → (tick_at now m).1.next_event_seq ≡ m.next_event_seq
unfolding tick_at
tick_at-next_event_seq now m = ground arith

advance_to-next_event_seq :
    (now : ℕ) (m : DeviceSessionMachine) → (advance_to now m).next_event_seq ≡ m.next_event_seq
unfolding advance_to tick_past
advance_to-next_event_seq now m = ground (arith, tick_at-next_event_seq now m)

rest-next_event_seq : (m : DeviceSessionMachine) → (rest m).next_event_seq ≡ m.next_event_seq
unfolding rest
rest-next_event_seq m = ground arith

-- Where the pulses of a call are, once time has advanced.
count_pulses_cases :
    (n now : ℕ) (m : DeviceSessionMachine)
    → IsWellFormed m
    → m.lifetime_pulses + n ≤ max_result_pulses
    → ((count_pulses n now m).1.lifetime_pulses ≡ m.lifetime_pulses + n)
      × ((((count_pulses n now m).0 ≡ ok tt)
            × (accounted (count_pulses n now m).1 ≡ accounted m + n))
          ⊎ (((count_pulses n now m).0 ≡ err DeviceError.sequence_exhausted)
              × (uint32_max < m.next_event_seq)
              × (accounted (count_pulses n now m).1 ≡ accounted m)))
unfolding count_pulses
count_pulses_cases n now m w fits = elim (Option-cases m.active) [
  | inl e ↦ elim (dec_lt (length m.results) m.settings.result_capacity) [
    | yes room ↦ elim (dec_lt uint32_max m.next_event_seq) [
      | yes used ↦ (ground arith, inr (ground arith, used, ground arith))
      | no left ↦ (ground arith, inl (ground arith, ground arith))
    ]
    | no full ↦ (ground arith, inl (ground arith, ground arith))
  ]
  | inr (a, e) ↦ (ground arith, inl (ground arith, ground arith))
]

-- On a well-formed machine, with pulses that keep the lifetime counter within `max_result_pulses`,
-- only one thing can go wrong with a pulse call: it returns, and its pulses are in what the machine
-- can report, or the sequence numbers are used up and it raises, and they are not. The lifetime
-- counter has them either way.
pub pulse_exhausted :
    (n now : ℕ) (m : DeviceSessionMachine)
    → IsWellFormed m
    → 0 < n
    → m.lifetime_pulses + n ≤ max_result_pulses
    → ((pulse (pos n) (pos now) m).1.lifetime_pulses ≡ m.lifetime_pulses + n)
      × ((((pulse (pos n) (pos now) m).0 ≡ ok tt)
            × (accounted (pulse (pos n) (pos now) m).1 ≡ accounted m + n))
          ⊎ (((pulse (pos n) (pos now) m).0 ≡ err DeviceError.sequence_exhausted)
              × (uint32_max < m.next_event_seq)
              × (accounted (pulse (pos n) (pos now) m).1 ≡ accounted m)))
unfolding pulse pulse_at
pulse_exhausted n now m w p fits =
    let moved = advance_to now m in
    let same = advance_to-SameCounts now m w in
    let rested = rest-SameCounts moved in
    let life : (rest moved).lifetime_pulses ≡ m.lifetime_pulses = rested.1 ∙ same.1 in
    let counts : accounted (rest moved) ≡ accounted m = rested.0 ∙ same.0 in
    let seq : (rest moved).next_event_seq ≡ m.next_event_seq =
      rest-next_event_seq moved ∙ advance_to-next_event_seq now m in
    let direct : pulse (pos n) (pos now) m ≡ count_pulses n now (rest moved) = ground arith in
    let c =
      count_pulses_cases n now (rest moved)
        (rest-IsWellFormed moved (advance_to-IsWellFormed now m w)) (rw life fits) in
    rw direct (rw (life, counts, seq) at c)
