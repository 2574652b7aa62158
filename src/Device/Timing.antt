-- ===== src/Device/Timing.antt =====
-- What the passing of time does to an event, and that it does not matter when it is observed.
use keg_pulse.Base.{ℕ, ◌+◌, ◌≤◌, ◌<◌, ◌≡◌, refl, inl, inr, none, some, arith, max, Option-cases}
use native.Mathlib.Decide.{dec_lt}
use keg_pulse.Models.{DeviceState, DeviceResult}
use keg_pulse.Device.Defs.{ActiveDeviceEvent, DeviceSessionMachine, insert, lookup, ok, no_fault}
use keg_pulse.Device.Tick.{result_of, or_else, tick_at}
use keg_pulse.Device.Store.{lookup-insert_self}
use keg_pulse.Device.Invariant.{IsWellFormed, Phase}

Phase-of :
    (a : ActiveDeviceEvent) (m : DeviceSessionMachine)
    → m.active ≡ some a
    → IsWellFormed m
    → Phase m.settings a
Phase-of a m e w = ground arith

-- The clock of the machine, and an event that settles, has completed or has timed out.
abbrev seen_at : ℕ → DeviceSessionMachine → DeviceSessionMachine
seen_at now m = record m { last_now_ms = max m.last_now_ms now }

abbrev settling_event : ℕ → ActiveDeviceEvent → ActiveDeviceEvent
settling_event deadline a = record a {
  state = DeviceState.settling;
  settle_deadline_ms = some deadline;
}

abbrev completed : ℕ → ActiveDeviceEvent → DeviceSessionMachine → DeviceSessionMachine
completed deadline a m = record m {
  results = insert a.event_seq (result_of a DeviceState.complete deadline no_fault m) m.results;
  active = none;
  state = DeviceState.complete;
}

abbrev expired : ℕ → ActiveDeviceEvent → DeviceSessionMachine → DeviceSessionMachine
expired deadline a m = record m {
  results = insert a.event_seq (result_of a DeviceState.timed_out deadline no_fault m) m.results;
  active = none;
  state = DeviceState.timed_out;
}

-- Before its deadline an armed event stays as it is; at the deadline or later it times out,
-- at the deadline.
pub tick_at-armed :
    (now d : ℕ) (a : ActiveDeviceEvent) (m : DeviceSessionMachine)
    → m.active ≡ some a
    → a.state ≡ DeviceState.armed
    → a.arm_deadline_ms ≡ some d
    → (now < d → tick_at now m ≡ (ok none, seen_at now m))
      × (d ≤ now
          → tick_at now m ≡ (
            ok (some (result_of a DeviceState.timed_out d no_fault m)),
            expired d a (seen_at now m),
          ))
unfolding tick_at result_of
tick_at-armed now d a m e s q = (λ h. ground arith, λ h. ground arith)

-- A pour is untouched until the flow gap has passed, settles from then on, and is complete at the
-- end of the settling time; a settling event is complete at its deadline.
module _ (now : ℕ) (a : ActiveDeviceEvent) (m : DeviceSessionMachine) (e : m.active ≡ some a) where
  module _ (l : ℕ) (s : a.state ≡ DeviceState.pouring) (q : a.last_pulse_ms ≡ some l)
      (n : a.settle_deadline_ms ≡ none) where
    tick_at_quiet : now < l + m.settings.flow_gap_ms → tick_at now m ≡ (ok none, seen_at now m)
    unfolding tick_at
    tick_at_quiet h = ground arith

    tick_at_gap :
        l + m.settings.flow_gap_ms ≤ now
        → now < l + m.settings.flow_gap_ms + m.settings.settling_ms
        → tick_at now m ≡ (
          ok none,
          record (seen_at now m) {
            active = some (settling_event (l + m.settings.flow_gap_ms + m.settings.settling_ms) a);
            state = DeviceState.settling;
          },
        )
    unfolding tick_at
    tick_at_gap h k = ground arith

    tick_at_done :
        l + m.settings.flow_gap_ms + m.settings.settling_ms ≤ now
        → tick_at now m ≡ (
          ok (
              some (
                result_of a DeviceState.complete
                  (l + m.settings.flow_gap_ms + m.settings.settling_ms)
                  no_fault
                  m)),
          completed (l + m.settings.flow_gap_ms + m.settings.settling_ms) a (seen_at now m),
        )
    unfolding tick_at result_of
    tick_at_done h = ground arith

  module _ (d : ℕ) (s : a.state ≡ DeviceState.settling) (q : a.settle_deadline_ms ≡ some d) where
    tick_at_unsettled : now < d → tick_at now m ≡ (ok none, seen_at now m)
    unfolding tick_at
    tick_at_unsettled h = ground arith

    tick_at_settled :
        d ≤ now
        → tick_at now m ≡ (
          ok (some (result_of a DeviceState.complete d no_fault m)),
          completed d a (seen_at now m),
        )
    unfolding tick_at result_of
    tick_at_settled h = ground arith

tick_at_completed :
    (now l : ℕ) (a : ActiveDeviceEvent) (m : DeviceSessionMachine)
    → IsWellFormed m
    → m.active ≡ some a
    → 0 < a.pulses
    → a.last_pulse_ms ≡ some l
    → l + m.settings.flow_gap_ms + m.settings.settling_ms ≤ now
    → let done = l + m.settings.flow_gap_ms + m.settings.settling_ms in
      let r = result_of a DeviceState.complete done no_fault m in
      ((tick_at now m).0 ≡ ok (some r))
      × (lookup a.event_seq (tick_at now m).1.results ≡ some r)
      × ((tick_at now m).1.active ≡ none)
      × ((tick_at now m).1.state ≡ DeviceState.complete)
unfolding tick_at result_of
tick_at_completed now l a m w e p q h = elim (Phase-of a m e w) [
  | inl (s, z, n, (d, r)) ↦ absurd (omega arith)
  | inr (inl (s, z, n, (k, r))) ↦ ground (
    arith,
    lookup-insert_self a.event_seq
        (result_of a DeviceState.complete (l + m.settings.flow_gap_ms + m.settings.settling_ms)
          no_fault m)
        m.results,
  )
  | inr (inr (s, z, (k, r, t))) ↦ ground (
    arith,
    lookup-insert_self a.event_seq
        (result_of a DeviceState.complete (l + m.settings.flow_gap_ms + m.settings.settling_ms)
          no_fault m)
        m.results,
  )
]

-- On a well-formed machine, a pour with pulses, begun at `t` and with the last pulse at `l`, is
-- complete: a tick at or after `l` plus the flow gap and the settling time returns and retains a
-- result with that moment as its end, with the start `t`, the pulses and the identity of the event,
-- and leaves no event in progress.
pub tick_at_completes :
    (now t l : ℕ) (a : ActiveDeviceEvent) (m : DeviceSessionMachine)
    → IsWellFormed m
    → m.active ≡ some a
    → 0 < a.pulses
    → a.started_ms ≡ some t
    → a.last_pulse_ms ≡ some l
    → l + m.settings.flow_gap_ms + m.settings.settling_ms ≤ now
    → (r : DeviceResult) × ((tick_at now m).0 ≡ ok (some r))
      × (lookup a.event_seq (tick_at now m).1.results ≡ some r)
      × ((tick_at now m).1.active ≡ none)
      × ((tick_at now m).1.state ≡ DeviceState.complete)
      × (r.status ≡ DeviceState.complete)
      × (r.event_seq ≡ a.event_seq)
      × (r.session_id ≡ a.session_id)
      × (r.attributed ≡ a.attributed)
      × (r.raw_pulses ≡ a.pulses)
      × (r.started_ms ≡ t)
      × (r.ended_ms ≡ l + m.settings.flow_gap_ms + m.settings.settling_ms)
unfolding result_of or_else
tick_at_completes now t l a m w e p f q h =
    let done = l + m.settings.flow_gap_ms + m.settings.settling_ms in
    let c = tick_at_completed now l a m w e p q h in
    (
      result_of a DeviceState.complete done no_fault m,
      c.0,
      c.1,
      c.2,
      c.3,
      refl,
      refl,
      refl,
      refl,
      refl,
      rw f refl,
      refl,
    )

max-max : (x t u : ℕ) → t ≤ u → max (max x t) u ≡ max x u
max-max x t u h = omega arith

-- Once an event has been finalized, a later tick only moves the clock.
tick_at-none :
    (now : ℕ) (m : DeviceSessionMachine) → m.active ≡ none → (tick_at now m).1 ≡ seen_at now m
unfolding tick_at
tick_at-none now m e = ground arith

tick_at-tick_at-armed :
    (t u d : ℕ) (a : ActiveDeviceEvent) (m : DeviceSessionMachine)
    → m.active ≡ some a
    → a.state ≡ DeviceState.armed
    → a.arm_deadline_ms ≡ some d
    → t ≤ u
    → (tick_at u (tick_at t m).1).1 ≡ (tick_at u m).1
unfolding result_of
tick_at-tick_at-armed t u d a m e s q h = elim (dec_lt t d) [
  | yes p ↦ rw ((tick_at-armed t d a m e s q).0 p) (elim (dec_lt u d) [
    | yes r ↦ rw (
      (tick_at-armed u d a m e s q).0 r,
      (tick_at-armed u d a (seen_at t m) e s q).0 r,
      max-max m.last_now_ms t u h,
    )
    | no r ↦ rw (
      (tick_at-armed u d a m e s q).1 (omega arith),
      (tick_at-armed u d a (seen_at t m) e s q).1 (omega arith),
      max-max m.last_now_ms t u h,
    )
  ])
  | no p ↦ rw (
    (tick_at-armed t d a m e s q).1 (omega arith),
    (tick_at-armed u d a m e s q).1 (omega arith),
    tick_at-none u (expired d a (seen_at t m)) refl,
    max-max m.last_now_ms t u h,
  )
]

tick_at-tick_at_settling :
    (t u d : ℕ) (a : ActiveDeviceEvent) (m : DeviceSessionMachine)
    → m.active ≡ some a
    → a.state ≡ DeviceState.settling
    → a.settle_deadline_ms ≡ some d
    → t ≤ u
    → (tick_at u (tick_at t m).1).1 ≡ (tick_at u m).1
unfolding result_of
tick_at-tick_at_settling t u d a m e s q h = elim (dec_lt t d) [
  | yes p ↦ rw (tick_at_unsettled t a m e d s q p) (elim (dec_lt u d) [
    | yes r ↦ rw (
      tick_at_unsettled u a m e d s q r,
      tick_at_unsettled u a (seen_at t m) e d s q r,
      max-max m.last_now_ms t u h,
    )
    | no r ↦ rw (
      tick_at_settled u a m e d s q (omega arith),
      tick_at_settled u a (seen_at t m) e d s q (omega arith),
      max-max m.last_now_ms t u h,
    )
  ])
  | no p ↦ rw (
    tick_at_settled t a m e d s q (omega arith),
    tick_at_settled u a m e d s q (omega arith),
    tick_at-none u (completed d a (seen_at t m)) refl,
    max-max m.last_now_ms t u h,
  )
]

tick_at-tick_at_pouring :
    (t u l : ℕ) (a : ActiveDeviceEvent) (m : DeviceSessionMachine)
    → m.active ≡ some a
    → a.state ≡ DeviceState.pouring
    → a.last_pulse_ms ≡ some l
    → a.settle_deadline_ms ≡ none
    → t ≤ u
    → (tick_at u (tick_at t m).1).1 ≡ (tick_at u m).1
unfolding result_of
tick_at-tick_at_pouring t u l a m e s q n h =
    let gap = l + m.settings.flow_gap_ms in
    let done = gap + m.settings.settling_ms in
    let settling = settling_event done a in
    let settled = record (seen_at t m) { active = some settling; state = DeviceState.settling } in
    elim (dec_lt t gap) [
      | yes p ↦ rw (tick_at_quiet t a m e l s q n p) (elim (dec_lt u gap) [
        | yes r ↦ rw (
          tick_at_quiet u a m e l s q n r,
          tick_at_quiet u a (seen_at t m) e l s q n r,
          max-max m.last_now_ms t u h,
        )
        | no r ↦ elim (dec_lt u done) [
          | yes k ↦ rw (
            tick_at_gap u a m e l s q n (omega arith) k,
            tick_at_gap u a (seen_at t m) e l s q n (omega arith) k,
            max-max m.last_now_ms t u h,
          )
          | no k ↦ rw (
            tick_at_done u a m e l s q n (omega arith),
            tick_at_done u a (seen_at t m) e l s q n (omega arith),
            max-max m.last_now_ms t u h,
          )
        ]
      ])
      | no p ↦ elim (dec_lt t done) [
        | yes k ↦ rw (tick_at_gap t a m e l s q n (omega arith) k) (elim (dec_lt u done) [
          | yes r ↦ rw (
            tick_at_gap u a m e l s q n (omega arith) r,
            tick_at_unsettled u settling settled refl done refl refl r,
            max-max m.last_now_ms t u h,
          )
          | no r ↦ rw (
            tick_at_done u a m e l s q n (omega arith),
            tick_at_settled u settling settled refl done refl refl (omega arith),
            max-max m.last_now_ms t u h,
          )
        ])
        | no k ↦ rw (
          tick_at_done t a m e l s q n (omega arith),
          tick_at_done u a m e l s q n (omega arith),
          tick_at-none u (completed done a (seen_at t m)) refl,
          max-max m.last_now_ms t u h,
        )
      ]
    ]

-- Observing time twice is observing it once: whatever ticks came before, a tick leaves the machine
-- as if it had been the only one.
pub tick_at-tick_at :
    (t u : ℕ) (m : DeviceSessionMachine)
    → IsWellFormed m
    → t ≤ u
    → (tick_at u (tick_at t m).1).1 ≡ (tick_at u m).1
tick_at-tick_at t u m w h = elim (Option-cases m.active) [
  | inl n ↦ rw (
    tick_at-none t m n,
    tick_at-none u (seen_at t m) n,
    tick_at-none u m n,
    max-max m.last_now_ms t u h,
  )
  | inr (a, e) ↦ elim (Phase-of a m e w) [
    | inl (s, p, n, (d, q)) ↦ tick_at-tick_at-armed t u d a m e s q h
    | inr (inl (s, p, n, (l, q))) ↦ tick_at-tick_at_pouring t u l a m e s q n h
    | inr (inr (s, p, (l, q, r))) ↦ tick_at-tick_at_settling t u _ a m e s r h
  ]
]
