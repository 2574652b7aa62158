-- ===== src/Manager.antt =====
-- The bookkeeping of `DeviceManager` in src/kegpulse/serialio/manager.py: its event queue and what it
-- records of the device. Threads, locks and commands are left out; a raise keeps the state.
pub mod Order
mod Tests
use keg_pulse.Base.{
  ◌==◌, ◌||◌, ℕ, zero, suc, ◌+◌, Bool, true, false, ◌&&◌, Option, none, some, List, [], ◌∷◌, ◌++◌,
  ltb, leb, if◌then◌else◌, not, min, length,
}
use keg_pulse.Base.Text.{Text, codes, ◌=t◌}
use keg_pulse.Protocol.Frames.{Frame, Fields, FrameErrorCode}
use keg_pulse.Protocol.Parser.{FrameParser, feed}
use keg_pulse.Measurement.Numbers.{parse_int}
use keg_pulse.Measurement.Integrity.{field}
use keg_pulse.Coordinator.Events.{ManagerEvent}
use keg_pulse.Simulator.Control.{print_hex}
use keg_pulse.Simulator.Transport.{code_text}

-- `class ConnectionState`
pub data ConnectionState : Type 0 where
  stopped connecting connected degraded reconnecting : ConnectionState

-- `class DeviceManager`, its bookkeeping
pub record DeviceManager : Type 0 where
  pub event_capacity : ℕ
  pub events : List ManagerEvent
  pub parser : FrameParser
  pub state : ConnectionState
  pub detail : Text
  pub identity : Fields
  pub status : Fields
  pub counters : Fields
  pub request_counter : ℕ
  pub overflow_count : ℕ
  pub needs_resynchronization : Bool

-- What the measurement context provider answers: None without a provider, and no identities where
-- it raises
abbrev pub Context : Type 0
Context = Option (Option Text × Option Text)

-- `_queue_event`: whether the event was queued. A full queue is one that stays full while it waits;
-- a `queue.Queue` of size 0 is never full.
unfoldable pub queue_event : ManagerEvent → DeviceManager → Bool × DeviceManager
queue_event event m =
    if m.event_capacity == 0 || ltb (length m.events) m.event_capacity
    then (true, record m { events = m.events ++ (event ∷ []) })
    else (
      false,
      record m {
        overflow_count = m.overflow_count + 1;
        needs_resynchronization = true;
        state = ConnectionState.degraded;
        detail = codes "event queue overflow; result/status resynchronization required";
      },
    )

-- The first n events, and the others
unfoldable pub take_events : ℕ → List ManagerEvent → List ManagerEvent × List ManagerEvent
take_events zero events = ([], events)
take_events (suc n) [] = ([], [])
take_events (suc n) (e ∷ es) = let (taken, rest) = take_events n es in (e ∷ taken, rest)

-- `drain_events`
unfoldable pub drain_events : ℕ → DeviceManager → List ManagerEvent × DeviceManager
unfolding take_events
drain_events maximum m =
    let (output, rest) = take_events (min maximum 1000) m.events in
    (output, record m { events = rest })

-- `_next_request_id`
unfoldable pub next_request_id : DeviceManager → Text × DeviceManager
next_request_id m =
    let value = m.request_counter in
    (
      print_hex 8 value [],
      record m { request_counter = if leb 0xFFFFFFFF value then 1 else value + 1 },
    )

-- An event without the fields that its kind does not have
unfoldable pub plain_event : Text → Option Frame → Text → Text → Text → ManagerEvent
plain_event kind frame detail device boot = record {
  kind = kind;
  frame = frame;
  detail = detail;
  device_id = device;
  boot_id = boot;
  uptime_ms = none;
  context_captured = false;
  keg_id = none;
  calibration_id = none;
}

-- The context of an event, captured now
unfoldable pub with_context : Context → ManagerEvent → ManagerEvent
with_context none event = event
with_context (some (keg, calibration)) event = record event {
  context_captured = true;
  keg_id = keg;
  calibration_id = calibration;
}

-- `fields.get(key, "")`
unfoldable pub text_at : Text → Fields → Text
text_at key fields = elim (field key fields) [ none ↦ [] | some text ↦ text ]

-- Every entry of the first dict is one of the second.
unfoldable pub entries_in : Fields → Fields → Bool
unfolding ◌=t◌
entries_in [] other = true
entries_in ((k, v) ∷ rest) other = elim (field k other) [
  | none ↦ false
  | some w ↦ v =t w && entries_in rest other
]

-- Equality of two dicts
unfoldable pub same_fields : Fields → Fields → Bool
unfolding entries_in
same_fields a b = entries_in a b && entries_in b a

-- `expected_boot and observed_boot != expected_boot`
unfoldable pub boot_changed : Frame → DeviceManager → Bool
unfolding text_at ◌=t◌
boot_changed frame m =
    let expected = text_at (codes "boot") m.identity in
    leb 1 (length expected)
    && elim (field (codes "boot") frame.fields) [ none ↦ true | some boot ↦ not (boot =t expected) ]

-- `_record_status`: false where the changed boot raises
unfoldable pub record_status : Frame → DeviceManager → Bool × DeviceManager
unfolding boot_changed queue_event plain_event text_at
record_status frame m =
    if boot_changed frame m
    then (false, m)
    else if same_fields m.status frame.fields
    then (true, m)
    else (let event =
          plain_event (codes "status") (some frame) [] (text_at (codes "device") m.identity)
            (text_at (codes "boot") m.identity) in
        let (queued, m') = queue_event event m in
        (true, if queued then record m' { status = frame.fields } else m'))

-- `_record_counters`
unfoldable pub record_counters : Context → Frame → DeviceManager → DeviceManager
unfolding queue_event plain_event text_at with_context
record_counters context frame m =
    if same_fields m.counters frame.fields
    then m
    else (let event =
          record (plain_event (codes "counters") (some frame) []
            (text_at (codes "device") m.identity) (text_at (codes "boot") m.identity)) {
              uptime_ms = parse_int (text_at (codes "uptime") m.status);
            } in
        let (queued, m') = queue_event (with_context context event) m in
        if queued then record m' { counters = frame.fields } else m')

-- The result names the device and the boot of the handshake.
unfoldable pub is_expected_result : Frame → DeviceManager → Bool
unfolding text_at ◌=t◌
is_expected_result frame m =
    let device = text_at (codes "device") m.identity in
    let boot = text_at (codes "boot") m.identity in
    leb 1 (length device)
    && leb 1 (length boot)
    && text_at (codes "dev") frame.fields =t device
    && text_at (codes "boot") frame.fields =t boot

-- `_queue_result`: false where an unexpected identity raises
unfoldable pub queue_result : Context → Frame → DeviceManager → Bool × DeviceManager
unfolding is_expected_result queue_event plain_event text_at with_context
queue_result context frame m =
    if is_expected_result frame m
    then (let event =
          plain_event (codes "result") (some frame) [] (text_at (codes "device") m.identity)
            (text_at (codes "boot") m.identity) in
        (true, (queue_event (with_context context event) m).1))
    else (false, m)

-- The errors of `_read_available` as events
unfoldable pub queue_errors : List FrameErrorCode → DeviceManager → DeviceManager
unfolding queue_event plain_event
queue_errors [] m = m
queue_errors (code ∷ codes') m =
    queue_errors codes'
      (queue_event (plain_event (codes "protocol_error") none (code_text code) [] []) m).1

-- `_read_available`, on the bytes that the transport read
unfoldable pub read_available : List ℕ → DeviceManager → List Frame × DeviceManager
unfolding queue_errors
read_available chunk m =
    let fed = feed chunk m.parser in
    (fed.frames, queue_errors fed.errors (record m { parser = fed.parser }))
