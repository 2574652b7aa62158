-- ===== src/Coordinator/Handling.antt =====
-- `_process_event` of src/kegpulse/application/coordinator.py, for the events with measurements.
use keg_pulse.Base.{
  ℕ, Bool, true, false, ◌&&◌, not, Option, none, some, List, [], ◌∷◌, ◌==◌, if◌then◌else◌, pos_part,
}
use keg_pulse.Base.Text.{Text, codes, ◌=t◌, opt_is, opt_eq}
use keg_pulse.Base.Try.{ok, err, ◌>>=◌}
use keg_pulse.Models.{DeviceResult}
use keg_pulse.Protocol.Frames.{Fields}
use keg_pulse.Measurement.Integrity.{field, parse_counter_snapshot, parse_status_pulse_snapshot}
use keg_pulse.Measurement.DeviceResults.{ResultError, device_result, is_device_id}
use keg_pulse.Calibration.Decimals.{Decimals}
use keg_pulse.Store.Tables.{
  Database, Transaction, StoreError, SessionStatus, PourEvent, given, truthy,
}
use keg_pulse.Store.Sessions.{active_provisional, update_provisional_status}
use keg_pulse.Store.Results.{finalize_device_result}
use keg_pulse.Store.Recovery.{checkpoint_recovery_pulses}
use keg_pulse.Coordinator.Events.{ManagerEvent}
use keg_pulse.Coordinator.Quarantine.{
  Action, Surroundings, quarantine_invalid_result, quarantine_counter, quarantine_status,
  is_attached, send_ack,
}

-- What the handlers use besides: `uuid.UUID`, `uuid.uuid5`, `now` less a duration, ids for a pour and
-- its charge, and the texts of the exceptions
pub record Handlers : Type 1 where
  pub decimals : Decimals
  pub surroundings : Surroundings
  pub canonical : Text → Option Text
  pub uuid5 : Text → Text
  pub started : ℕ → Text
  pub pour_id : Text
  pub charge_id : Text
  pub result_text : ResultError → Text
  pub store_text : StoreError → Text

-- `text.replace("-", "")`
unfoldable pub without_dashes : Text → Text
without_dashes [] = []
without_dashes (c ∷ cs) = let rest = without_dashes cs in if c == b'-' then rest else c ∷ rest

-- `{"armed", "pouring", "settling"}`, as the statuses that they name
unfoldable pub mirrored : Text → Option SessionStatus
mirrored state =
    if state =t codes "armed"
    then some SessionStatus.armed
    else if state =t codes "pouring"
    then some SessionStatus.pouring
    else if state =t codes "settling"
    then some SessionStatus.settling
    else none

abbrev pub same_status : SessionStatus → SessionStatus → Bool
same_status SessionStatus.armed SessionStatus.armed = true
same_status SessionStatus.pouring SessionStatus.pouring = true
same_status SessionStatus.settling SessionStatus.settling = true
same_status _ _ = false

-- `_mirror_session_state`
unfoldable pub mirror_session_state : Fields → Text → Database → Transaction (Unit {0})
unfolding without_dashes mirrored
mirror_session_state status now db = elim (active_provisional db) [
  | none ↦ ok (tt, db)
  | some p ↦
      if not (opt_is (field (codes "sid") status) (without_dashes p.session_id))
      then ok (tt, db)
      else elim (mirrored (given (field (codes "state") status) [])) [
        | none ↦ ok (tt, db)
        | some state ↦
            if same_status state p.status
            then ok (tt, db)
            else update_provisional_status p.session_id state now db
      ]
]

module _ (h : Handlers) where
  abbrev s : Surroundings
  s = h.surroundings

  -- The ACK of a result that is durable, to the controller that sent it
  unfoldable pub acknowledge_result : DeviceResult → List Action
  acknowledge_result r =
      if is_attached s r.device_id r.boot_id
      then send_ack s r.device_id r.boot_id r.event_seq (codes "ack_pending")
      else Action.diagnostic (codes "ack_deferred_identity_changed") ∷ []

  -- The part of `_process_event` for "result". A raise stands for the retry of the event.
  unfoldable pub process_result : ManagerEvent → Fields → Database → Transaction (List Action)
  unfolding acknowledge_result
  process_result event fields db = elim (device_result fields) [
    | err e ↦ quarantine_invalid_result s event fields (h.result_text e) db
    | ok r ↦
        if not (
          r.device_id =t given (truthy (some event.device_id)) r.device_id
          && r.boot_id =t given (truthy (some event.boot_id)) r.boot_id)
        then err StoreError.bad_value
        else elim (finalize_device_result h.decimals h.canonical h.uuid5 h.started r event.keg_id
            event.calibration_id event.context_captured h.pour_id h.charge_id s.now db) [
              | err (StoreError.rejected e) ↦
                  quarantine_invalid_result s event fields (h.store_text (StoreError.rejected e)) db
              | err e ↦ err e
              | ok (answer, db') ↦ ok (acknowledge_result r, db')
            ]
  ]

  -- The part for "status"
  unfoldable pub process_status : ManagerEvent → Fields → Database → Transaction (List Action)
  unfolding mirror_session_state
  process_status event fields db = elim (parse_status_pulse_snapshot fields) [
    | err e ↦ quarantine_status s event fields (h.store_text (StoreError.rejected e)) db
    | ok snapshot ↦
        if opt_eq (field (codes "boot") fields) (field (codes "boot") s.identity)
        then (do (u, db') ← mirror_session_state fields s.now db; ok ([], db'))
        else ok ([], db)
  ]

  -- The diagnostic of a pour that is new
  abbrev pub materialized : Option PourEvent × Bool → List Action
  materialized (some pour, false) =
      Action.diagnostic (codes "device_recovery_pulses_materialized") ∷ []
  materialized _ = []

  -- `_checkpoint_recovery_counter`; an accepted snapshot's uptime is not negative.
  unfoldable pub checkpoint_recovery_counter :
      ManagerEvent → Fields → Database → Transaction (List Action)
  checkpoint_recovery_counter event fields db = elim event.uptime_ms [
    | none ↦ err StoreError.bad_value
    | some uptime ↦
        if not (is_device_id event.device_id && is_device_id event.boot_id)
        then err StoreError.bad_value
        else elim (parse_counter_snapshot fields uptime) [
          | err e ↦ quarantine_counter s event fields (h.store_text (StoreError.rejected e)) db
          | ok counters ↦
              elim (checkpoint_recovery_pulses h.decimals h.uuid5
                (record {
                  device_id = event.device_id;
                  boot_id = event.boot_id;
                  recovery_pulses = counters.recovery_pulses;
                  accepted_pulses = counters.accepted_pulses;
                  device_uptime_ms = pos_part uptime;
                })
                event.keg_id event.calibration_id event.context_captured h.pour_id s.now db) [
                  | ok (answer, db') ↦ ok (materialized answer, db')
                  | err (StoreError.rejected e) ↦
                      quarantine_counter s event fields (h.store_text (StoreError.rejected e)) db
                  | err StoreError.conflict ↦
                      quarantine_counter s event fields (h.store_text StoreError.conflict) db
                  | err e ↦ err e
                ]
        ]
  ]
