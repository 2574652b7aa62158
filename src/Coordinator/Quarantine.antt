-- ===== src/Coordinator/Quarantine.antt =====
-- Readings that src/kegpulse/application/coordinator.py keeps as anomalies instead of counting them.
use keg_pulse.Base.{
  ℕ, Bool, ◌&&◌, Option, none, some, List, [], ◌∷◌, ◌++◌, if◌then◌else◌, ℤ, in_range, pos_part,
}
use keg_pulse.Base.Text.{Text, codes, opt_is}
use keg_pulse.Base.Try.{ok, ◌>>=◌}
use keg_pulse.Protocol.Frames.{Fields}
use keg_pulse.Measurement.Numbers.{parse_int, print_decimal}
use keg_pulse.Measurement.Integrity.{field}
use keg_pulse.Store.Tables.{Database, Transaction, given, truthy, field_of}
use keg_pulse.Store.Anomalies.{Observation, record_measurement_anomaly}
use keg_pulse.Coordinator.Events.{ManagerEvent}

-- What a handler asks of the manager or tells in the log: ACK with a device, a boot and a sequence, or a
-- diagnostic with its code
pub data Action : Type 0 where
  ack : Text → Text → ℕ → Action
  diagnostic : Text → Action

-- What the handlers take from Python and from the other objects: `json.dumps` of a context, the same of
-- a truncated one, `_frame_fingerprint`, a new id, the time, `self.manager.identity`, and whether a request
-- is answered
pub record Surroundings : Type 0 where
  pub dumps : Fields → Option ℤ → Text
  pub dump_keys : Fields → Text
  pub fingerprint : Fields → Text
  pub new_id : Text
  pub now : Text
  pub identity : Fields
  pub answers : Bool

-- The commit of an anomaly, and the diagnostic if it is new
unfoldable pub quarantine : Surroundings → Observation → Text → Database → Transaction (List Action)
quarantine s o code db = do
  (inserted, db') ← record_measurement_anomaly o s.new_id s.now db
  ok (if inserted then diagnostic code ∷ [] else [], db')

-- `identity_key` of an event: a prefix, the device, the boot and a suffix
unfoldable pub event_key : Text → ManagerEvent → Text → Text
event_key kind event suffix =
    kind ++ codes ":" ++ event.device_id ++ codes ":" ++ event.boot_id ++ codes ":" ++ suffix

-- The observation of an event's frame
unfoldable pub observation :
    Surroundings
    → ManagerEvent
    → Fields
    → Text
    → Text
    → Text
    → Option Text
    → Text
    → Option ℤ
    → Observation
observation s event fields key source watched seq reason uptime = record {
  identity_key = key;
  source = source;
  observed_value = given (field watched fields) (codes "unavailable");
  reason = reason;
  context_json = s.dumps fields uptime;
  keys_json = s.dump_keys fields;
  device_id = truthy (some event.device_id);
  boot_id = truthy (some event.boot_id);
  event_seq = seq;
}

-- `usable_sequence`
unfoldable pub usable_sequence : Fields → Option ℕ
usable_sequence fields = elim (parse_int (given (field (codes "seq") fields) [])) [
  | none ↦ none
  | some n ↦ if in_range 1 0xFFFFFFFF n then some (pos_part n) else none
]

-- The attached controller is the one that a device and a boot name.
unfoldable pub is_attached : Surroundings → Text → Text → Bool
is_attached s device boot =
    opt_is (field (codes "device") s.identity) device
    && opt_is (field (codes "boot") s.identity) boot

-- An ACK, and the diagnostic if it is not answered
unfoldable pub send_ack : Surroundings → Text → Text → ℕ → Text → List Action
send_ack s device boot seq pending =
    ack device boot seq ∷ (if s.answers then [] else diagnostic pending ∷ [])

-- The anomaly of a result
unfoldable pub result_observation : Surroundings → ManagerEvent → Fields → Text → Observation
unfolding event_key observation usable_sequence
result_observation s event fields reason =
    let usable = usable_sequence fields in
    observation s event fields
      (event_key (codes "result") event
        (given (field_of print_decimal usable) (s.fingerprint fields)))
      (codes "result") (codes "pulses") (field_of print_decimal usable) reason none

-- The ACK of a quarantined result, if its sequence is one and its controller is attached
unfoldable pub ack_quarantined : Surroundings → ManagerEvent → Option ℕ → List Action
unfolding is_attached send_ack
ack_quarantined s event none = []
ack_quarantined s event (some seq) =
    if is_attached s event.device_id event.boot_id
    then send_ack s event.device_id event.boot_id seq (codes "quarantined_result_ack_pending")
    else []

-- `_quarantine_invalid_result`
unfoldable pub quarantine_invalid_result :
    Surroundings → ManagerEvent → Fields → Text → Database → Transaction (List Action)
unfolding quarantine result_observation ack_quarantined usable_sequence
quarantine_invalid_result s event fields reason db = do
  (told, db') ←
      quarantine s (result_observation s event fields reason)
        (codes "measurement_result_quarantined") db
  ok (told ++ ack_quarantined s event (usable_sequence fields), db')

-- `_quarantine_counter`
unfoldable pub quarantine_counter :
    Surroundings → ManagerEvent → Fields → Text → Database → Transaction (List Action)
unfolding quarantine event_key observation
quarantine_counter s event fields reason db =
    quarantine s
      (observation s event fields (event_key (codes "counter") event (s.fingerprint fields))
        (codes "recovery_counter") (codes "recovery") none reason event.uptime_ms)
      (codes "measurement_counter_quarantined") db

-- `_quarantine_status`
unfoldable pub quarantine_status :
    Surroundings → ManagerEvent → Fields → Text → Database → Transaction (List Action)
unfolding quarantine event_key observation
quarantine_status s event fields reason db =
    quarantine s
      (observation s event fields (event_key (codes "status") event (s.fingerprint fields))
        (codes "status") (codes "lifetime") none reason none)
      (codes "measurement_status_quarantined") db
