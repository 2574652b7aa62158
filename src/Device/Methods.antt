-- ===== src/Device/Methods.antt =====
-- The methods of `DeviceSessionMachine` (src/kegpulse/domain/device_machine.py): construction,
-- `arm`, `cancel`, `acknowledge`, `reset` and `status`. A raise keeps the state reached so far.
use keg_pulse.Base.{
  ℕ, ◌-◌, Bool, true, false, Option, none, some, [], ◌∷◌, ℤ, pos, negsuc, ◌==◌, leb, ltb, ◌&&◌,
  ◌||◌, not, if◌then◌else◌, length, is_none, is_number, ◌+◌,
}
use keg_pulse.Base.Text.{Text, opt_is}
use keg_pulse.Models.{DeviceState, DeviceResult, is_armed, is_terminal}
use keg_pulse.Device.Defs.{
  ActiveDeviceEvent, DeviceSessionMachine, Settings, Outcome, Result, ok, err, DeviceError, Results,
  get_result, erase_at, no_fault, is_rollover_safe,
}
use keg_pulse.Device.Tick.{validate_now, tick_at, allocate_sequence, finalize}

-- `__init__`
unfoldable pub create : Settings → Text → Result DeviceSessionMachine
unfolding is_rollover_safe
create s boot_id =
    if is_rollover_safe s.arm_timeout_ms
      && is_rollover_safe s.flow_gap_ms
      && is_rollover_safe s.settling_ms
    then (if leb 1 s.result_capacity && leb s.result_capacity 16
        then ok (record {
          settings = s;
          boot_id = boot_id;
          state = DeviceState.idle;
          lifetime_pulses = 0;
          next_event_seq = 1;
          active = none;
          results = [];
          recovery_pulses = 0;
          fault = no_fault;
          last_now_ms = 0;
        })
        else err DeviceError.capacity_out_of_range)
    else err DeviceError.time_out_of_range

-- `not session_id or len(session_id) > 64`
unfoldable pub is_bad_session : Text → Bool
is_bad_session sid = length sid == 0 || ltb 64 (length sid)

-- The event in progress has this sequence number and session.
unfoldable pub is_active_event : ℤ → Text → DeviceSessionMachine → Bool
unfolding opt_is
is_active_event seq sid m = elim m.active [
  | none ↦ false
  | some a ↦ is_number a.event_seq seq && opt_is a.session_id sid
]

-- A retained result has this sequence number and session.
unfoldable pub retained : ℤ → Text → DeviceSessionMachine → Option DeviceResult
unfolding opt_is get_result
retained seq sid m = elim (get_result seq m.results) [
  | none ↦ none
  | some r ↦ if opt_is r.session_id sid then some r else none
]

-- `ttl_ms`, or the default, if it is in range
unfoldable pub arm_ttl : Option ℤ → ℕ → Option ℕ
unfolding is_rollover_safe
arm_ttl none timeout = if is_rollover_safe timeout then some timeout else none
arm_ttl (some (pos ttl)) timeout = if is_rollover_safe ttl then some ttl else none
arm_ttl (some (negsuc ttl)) timeout = none

unfoldable pub armed_event : ℕ → Text → ℕ → ℕ → ActiveDeviceEvent
armed_event seq sid now ttl = record {
  event_seq = seq;
  session_id = some sid;
  attributed = true;
  state = DeviceState.armed;
  pulses = 0;
  armed_ms = now;
  started_ms = none;
  last_pulse_ms = none;
  arm_deadline_ms = some (now + ttl);
  settle_deadline_ms = none;
}

-- The end of `arm`: the sequence number is allocated and the event begins.
unfoldable pub arm_new : Text → ℕ → ℕ → DeviceSessionMachine → Outcome Bool
unfolding allocate_sequence armed_event
arm_new sid now ttl m =
    let (r, m') = allocate_sequence m in
    elim r [
      | err e ↦ (err e, m')
      | ok seq ↦ (
        ok false,
        record m' { active = some (armed_event seq sid now ttl); state = DeviceState.armed },
      )
    ]

-- `arm` after its call of `tick`
unfoldable pub arm_checked : Text → ℤ → ℕ → Option ℤ → DeviceSessionMachine → Outcome Bool
arm_checked sid seq now ttl_ms m =
    if is_bad_session sid
    then (err DeviceError.bad_session, m)
    else if is_active_event seq sid m
    then (ok true, m)
    else if not (is_none (retained seq sid m))
    then (ok true, m)
    else if not (is_none m.active)
    then (err DeviceError.active_session, m)
    else if leb m.settings.result_capacity (length m.results)
    then (err DeviceError.store_full, m)
    else if not (is_number m.next_event_seq seq)
    then (err DeviceError.sequence_stale, m)
    else (elim (arm_ttl ttl_ms m.settings.arm_timeout_ms) [
      | none ↦ (err DeviceError.bad_ttl, m)
      | some ttl ↦ arm_new sid now ttl m
    ])

unfoldable pub arm : Text → ℤ → ℤ → Option ℤ → DeviceSessionMachine → Outcome Bool
unfolding validate_now
arm sid seq now_ms ttl_ms m = elim (validate_now now_ms) [
  | err e ↦ (err e, m)
  | ok now ↦ arm_checked sid seq now ttl_ms (tick_at now m).1
]

-- `cancel` for the event in progress: it is dropped, or finalized if it has pulses.
unfoldable pub cancel_active :
    ActiveDeviceEvent → ℕ → DeviceSessionMachine → Outcome (Bool × Option DeviceResult)
unfolding finalize
cancel_active a now m =
    if a.pulses == 0
    then (ok (false, none), record m { active = none; state = DeviceState.idle })
    else let (r, m') = finalize DeviceState.interrupted now no_fault m in
      elim r [ ok result ↦ (ok (false, some result), m') | err e ↦ (err e, m') ]

-- `cancel` after its call of `tick`
unfoldable pub cancel_checked :
    ℤ → Text → ℕ → DeviceSessionMachine → Outcome (Bool × Option DeviceResult)
cancel_checked seq sid now m = elim (retained seq sid m) [
  | some existing ↦ (ok (true, some existing), m)
  | none ↦ elim m.active [
    | none ↦ (err DeviceError.cancel_stale, m)
    | some a ↦
        if is_active_event seq sid m
        then cancel_active a now m
        else (err DeviceError.cancel_stale, m)
  ]
]

unfoldable pub cancel : ℤ → Text → ℤ → DeviceSessionMachine → Outcome (Bool × Option DeviceResult)
unfolding validate_now
cancel seq sid now_ms m = elim (validate_now now_ms) [
  | err e ↦ (err e, m)
  | ok now ↦ cancel_checked seq sid now (tick_at now m).1
]

-- With no event in progress a terminal state becomes idle.
unfoldable pub rest : DeviceSessionMachine → DeviceSessionMachine
rest m =
    if is_none m.active && is_terminal m.state then record m { state = DeviceState.idle } else m

-- `acknowledge`: the result is dropped; True if there was none.
unfoldable pub acknowledge : ℤ → DeviceSessionMachine → Bool × DeviceSessionMachine
unfolding rest
acknowledge seq m =
    (is_none (get_result seq m.results), rest (record m { results = erase_at seq m.results }))

-- `reset`: what was held in RAM does not survive.
unfoldable pub reset : Text → ℕ → DeviceSessionMachine → DeviceSessionMachine
reset boot_id now m = record {
  settings = m.settings;
  boot_id = boot_id;
  state = DeviceState.idle;
  lifetime_pulses = 0;
  next_event_seq = 1;
  active = none;
  results = [];
  recovery_pulses = 0;
  fault = no_fault;
  last_now_ms = now;
}

-- `class DeviceStatus`
pub record DeviceStatus : Type 0 where
  pub state : DeviceState
  pub boot_id : Text
  pub event_seq : Option ℕ
  pub session_id : Option Text
  pub attributed : Bool
  pub session_pulses : ℕ
  pub lifetime_pulses : ℕ
  pub uptime_ms : ℕ
  pub arm_remaining_ms : ℕ
  pub next_event_seq : ℕ
  pub retained_results : ℕ
  pub recovery_pulses : ℕ
  pub fault : Text

-- `next(reversed(self.results.values()), None)`
unfoldable pub newest : Results → Option DeviceResult
newest [] = none
newest ((j, r) ∷ []) = some r
newest ((j, r) ∷ x ∷ xs) = newest (x ∷ xs)

-- What the status tells of the event in progress, or else of the newest result.
unfoldable pub shown_event :
    Option ActiveDeviceEvent → Option DeviceResult → Option ℕ × Option Text × Bool × ℕ
shown_event (some a) terminal = (some a.event_seq, a.session_id, a.attributed, a.pulses)
shown_event none (some r) = (some r.event_seq, r.session_id, r.attributed, r.raw_pulses)
shown_event none none = (none, none, false, 0)

-- `max(0, deadline - last_now)` while armed: the truncated difference
unfoldable pub arm_remaining : Option ActiveDeviceEvent → ℕ → ℕ
arm_remaining none last_now = 0
arm_remaining (some a) last_now = elim a.arm_deadline_ms [
  | none ↦ 0
  | some deadline ↦ if is_armed a.state then deadline - last_now else 0
]

unfoldable pub status_of : DeviceSessionMachine → DeviceStatus
unfolding newest shown_event arm_remaining
status_of m =
    let (seq, sid, attributed, pulses) = shown_event m.active (newest m.results) in
    record {
      state = m.state;
      boot_id = m.boot_id;
      event_seq = seq;
      session_id = sid;
      attributed = attributed;
      session_pulses = pulses;
      lifetime_pulses = m.lifetime_pulses;
      uptime_ms = m.last_now_ms;
      arm_remaining_ms = arm_remaining m.active m.last_now_ms;
      next_event_seq = m.next_event_seq;
      retained_results = length m.results;
      recovery_pulses = m.recovery_pulses;
      fault = m.fault;
    }

-- `status`, which ticks first if it is given a time
unfoldable pub status : Option ℤ → DeviceSessionMachine → Outcome DeviceStatus
unfolding validate_now
status none m = (ok (status_of m), m)
status (some now_ms) m = elim (validate_now now_ms) [
  | err e ↦ (err e, m)
  | ok now ↦ let m' = (tick_at now m).1 in (ok (status_of m'), m')
]
