-- ===== src/Coordinator/Durable.antt =====
-- What is acknowledged to the device is in the tables: src/kegpulse/application/coordinator.py.
use keg_pulse.Base.{
  ℕ, ◌≡◌, refl, ◌∙◌, ◌⊎◌, inl, inr, Bool, true, ◌&&◌, Option, some, List, All, Bool-cases,
  Option-cases, arith, ==_iff,
}
use keg_pulse.Base.Text.{Text, ◌=t◌, =t_refl}
use keg_pulse.Base.Rows.{find, has_row, find→has_row}
use keg_pulse.Base.Try.{ok, Try-cases}
use keg_pulse.Models.{DeviceResult}
use keg_pulse.Protocol.Frames.{Fields}
use keg_pulse.Measurement.DeviceResults.{device_result}
use keg_pulse.Calibration.Decimals.{Decimals}
use keg_pulse.Store.Tables.{Database, StoreError, PourEvent, truthy, given}
use keg_pulse.Store.Results.{finalize_device_result, is_result_of}
use keg_pulse.Store.Anomalies.{Observation, record_measurement_anomaly}
use keg_pulse.Store.Refinement.{events_of, finalize_device_result-put_once}
use keg_pulse.Coordinator.Events.{ManagerEvent}
use keg_pulse.Coordinator.Quarantine.{
  Action, Surroundings, quarantine, quarantine_invalid_result, result_observation, is_attached,
  send_ack,
}
use keg_pulse.Coordinator.Handling.{Handlers, acknowledge_result, process_result}

-- Nothing is acknowledged but a result that has a row.
abbrev pub IsDurable : Database → Action → Type 0
IsDurable db (Action.ack device boot seq) = has_row (is_result_of device boot seq) db.results ≡ true
IsDurable db (Action.diagnostic code) = Unit

-- The tables are those that the commit of an anomaly left.
pub WasQuarantined : Surroundings → Database → Database → Type 0
WasQuarantined s db db' =
    (o : Observation) × (inserted : Bool) × (record_measurement_anomaly o s.new_id s.now db
      ≡ ok (inserted, db'))

finalize_device_result-has_row :
    (d : Decimals) (canonical : Text → Option Text) (uuid5 : Text → Text) (started : ℕ → Text)
    (r : DeviceResult) (keg_id calibration_id : Option Text) (captured : Bool)
    (pour_id charge_id now : Text) (pour : Option PourEvent) (duplicate : Bool) (db db' : Database)
    → finalize_device_result d canonical uuid5 started r keg_id calibration_id captured pour_id
        charge_id now db
      ≡ ok ((pour, duplicate), db')
    → has_row (is_result_of r.device_id r.boot_id r.event_seq) db'.results ≡ true
unfolding events_of
finalize_device_result-has_row d canonical uuid5 started r keg_id calibration_id captured pour_id
      charge_id now pour duplicate db db' h =
    let put =
      finalize_device_result-put_once d canonical uuid5 started r keg_id calibration_id captured
        pour_id charge_id now pour duplicate db db' h r.device_id r.boot_id r.event_seq in
    let own : events_of db' r.device_id r.boot_id r.event_seq
        ≡ some (given (events_of db r.device_id r.boot_id r.event_seq) r.raw_pulses) =
      put
      ∙ rw (=t_refl r.device_id, =t_refl r.boot_id, (==_iff r.event_seq r.event_seq).1 refl) refl in
    elim (Option-cases (find (is_result_of r.device_id r.boot_id r.event_seq) db'.results)) [
      | inr (row, e) ↦ find→has_row _ db'.results row e
      | inl e ↦ (let lost = rw (events_of, e) at own in absurd (ground arith))
    ]

acknowledge_result-IsDurable :
    (h : Handlers) (r : DeviceResult) (db : Database)
    → has_row (is_result_of r.device_id r.boot_id r.event_seq) db.results ≡ true
    → All (IsDurable db) (acknowledge_result h r)
unfolding acknowledge_result send_ack
acknowledge_result-IsDurable h r db k =
    elim (Bool-cases (is_attached h.surroundings r.device_id r.boot_id)) [
      | inr e ↦ rw (acknowledge_result, e) (tt, tt)
      | inl e ↦ elim (Bool-cases h.surroundings.answers) [
        | inl a ↦ rw (acknowledge_result, e, send_ack, a) (k, tt)
        | inr a ↦ rw (acknowledge_result, e, send_ack, a) (k, (tt, tt))
      ]
    ]

quarantine_invalid_result-WasQuarantined :
    (s : Surroundings) (event : ManagerEvent) (fields : Fields) (reason : Text) (told : List Action)
    (db db' : Database)
    → quarantine_invalid_result s event fields reason db ≡ ok (told, db')
    → WasQuarantined s db db'
unfolding quarantine_invalid_result quarantine WasQuarantined
quarantine_invalid_result-WasQuarantined s event fields reason told db db' h =
    let o = result_observation s event fields reason in
    elim (Try-cases (record_measurement_anomaly o s.new_id s.now db)) [
      | inr (e, q) ↦ absurd (ground arith)
      | inl ((inserted, db1), q) ↦ let same : db' ≡ db1 = ground arith in (o, inserted, rw same q)
    ]

-- When the handling of a result returns, either everything that it acknowledged is the event of a row of
-- the results, or the tables are those that the commit of an anomaly left.
pub process_result-IsDurable :
    (h : Handlers) (event : ManagerEvent) (fields : Fields) (actions : List Action)
    (db db' : Database)
    → process_result h event fields db ≡ ok (actions, db')
    → All (IsDurable db') actions ⊎ WasQuarantined h.surroundings db db'
unfolding process_result
process_result-IsDurable h event fields actions db db' k = elim (Try-cases (device_result fields)) [
  | inr (e, q) ↦ inr (
      quarantine_invalid_result-WasQuarantined h.surroundings event fields (h.result_text e) actions
        db db' (rw (process_result, q) at k))
  | inl (r, q) ↦
      elim (Bool-cases (
        r.device_id =t given (truthy (some event.device_id)) r.device_id
        && r.boot_id =t given (truthy (some event.boot_id)) r.boot_id)) [
          | inr z ↦ absurd (ground arith)
          | inl z ↦
              elim (Try-cases (
                finalize_device_result h.decimals h.canonical h.uuid5 h.started r event.keg_id
                  event.calibration_id event.context_captured h.pour_id h.charge_id
                  h.surroundings.now db)) [
                    | inl (((pour, duplicate), db1), y) ↦
                        let same : db' ≡ db1 = ground arith in
                        let told : actions ≡ acknowledge_result h r = ground arith in
                        let row =
                          finalize_device_result-has_row h.decimals h.canonical h.uuid5 h.started r
                            event.keg_id event.calibration_id event.context_captured h.pour_id
                            h.charge_id h.surroundings.now pour duplicate db db1 y in
                        inl (rw (same, told) (acknowledge_result-IsDurable h r db1 row))
                    | inr (StoreError.rejected e, y) ↦ inr (
                        quarantine_invalid_result-WasQuarantined h.surroundings event fields
                          (h.store_text (StoreError.rejected e)) actions db db'
                          (rw (process_result, q, z, y) at k))
                    | inr (e, y) ↦ absurd (ground arith)
                  ]
        ]
]
