-- ===== src/Coordinator/Events.antt =====
-- The manager's events and what the coordinator of src/kegpulse/application/coordinator.py compares
-- of them. Deadlines are milliseconds.
use keg_pulse.Base.{
  ℕ, ◌-◌, ◌*◌, ◌^◌, Bool, true, false, ◌&&◌, ◌||◌, Option, none, some, List, [], ◌∷◌, leb,
  if◌then◌else◌, not, min, ℤ, pos, negsuc,
}
use keg_pulse.Base.Text.{Text, codes, ◌=t◌, opt_eq}
use keg_pulse.Protocol.Frames.{Frame}
use keg_pulse.Measurement.Numbers.{parse_int}
use keg_pulse.Measurement.Integrity.{field}

-- `class ManagerEvent`
pub record ManagerEvent : Type 0 where
  pub kind : Text
  pub frame : Option Frame
  pub detail : Text
  pub device_id : Text
  pub boot_id : Text
  pub uptime_ms : Option ℤ
  pub context_captured : Bool
  pub keg_id : Option Text
  pub calibration_id : Option Text

-- An entry of `self._event_retries`
pub record Retry : Type 0 where
  pub deadline : ℕ
  pub attempt : ℕ
  pub event : ManagerEvent

abbrev pub Queue : Type 0
Queue = List Retry

unfoldable pub is_result : ManagerEvent → Bool
is_result event = event.kind =t codes "result"

unfoldable pub is_counters : ManagerEvent → Bool
is_counters event = event.kind =t codes "counters"

-- `event.kind in {"result", "counters"}`
unfoldable pub is_measurement : ManagerEvent → Bool
is_measurement event = is_result event || is_counters event

-- The last part of `_retry_identity`
unfoldable pub semantic_id : ManagerEvent → Text
semantic_id event = elim (is_result event) [
  | false ↦ []
  | true ↦ elim event.frame [
    | none ↦ []
    | some frame ↦ elim (field (codes "seq") frame.fields) [ none ↦ [] | some seq ↦ seq ]
  ]
]

-- Equality of `_retry_identity`
unfoldable pub same_identity : ManagerEvent → ManagerEvent → Bool
unfolding semantic_id
same_identity a b =
    a.kind =t b.kind
    && a.device_id =t b.device_id
    && a.boot_id =t b.boot_id
    && semantic_id a =t semantic_id b

-- Equality of `_counter_stream`, for an event that has one
unfoldable pub same_stream : ManagerEvent → ManagerEvent → Bool
same_stream a b =
    is_counters a && is_counters b && a.device_id =t b.device_id && a.boot_id =t b.boot_id

-- `_counter_value`
unfoldable pub counter_value : ManagerEvent → Option ℤ
counter_value event = elim (is_counters event) [
  | false ↦ none
  | true ↦ elim event.frame [
    | none ↦ none
    | some frame ↦ elim (field (codes "recovery") frame.fields) [
      | none ↦ none
      | some text ↦ parse_int text
    ]
  ]
]

-- Equality of `_measurement_context`
unfoldable pub same_context : ManagerEvent → ManagerEvent → Bool
unfolding opt_eq
same_context a b =
    (if a.context_captured then b.context_captured else not b.context_captured)
    && opt_eq a.keg_id b.keg_id
    && opt_eq a.calibration_id b.calibration_id

-- `_retry_delay`, in milliseconds
unfoldable pub retry_delay : ℕ → ℕ
retry_delay attempt = min (100 * 2 ^ min (attempt - 1) 6) 5000

-- `a <= b` on integers
unfoldable pub leb_ℤ : ℤ → ℤ → Bool
leb_ℤ (pos m) (pos n) = leb m n
leb_ℤ (pos m) (negsuc n) = false
leb_ℤ (negsuc m) (pos n) = true
leb_ℤ (negsuc m) (negsuc n) = leb n m

-- The entry before those of a queue
abbrev pub with_head : Retry → Option Queue → Option Queue
with_head r none = none
with_head r (some q) = some (r ∷ q)

-- The first entry that is not a measurement is dropped; None if there is none.
unfoldable pub drop_replaceable : Queue → Option Queue
unfolding is_measurement
drop_replaceable [] = none
drop_replaceable (r ∷ q) =
    let rest = drop_replaceable q in if is_measurement r.event then with_head r rest else some q
