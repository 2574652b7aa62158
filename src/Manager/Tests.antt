-- ===== src/Manager/Tests.antt =====
-- The event queue of the manager on a concrete event.
use keg_pulse.Base.{◌+◌, ◌≤◌, ◌<◌, ◌≡◌, ◌⊎◌, false, List, [], ◌∷◌, ◌++◌, none, length}
use keg_pulse.Base.Text.{codes}
use keg_pulse.Coordinator.Events.{ManagerEvent}
use keg_pulse.Manager.{ConnectionState, DeviceManager}
use keg_pulse.Manager.Order.{Use, use_all, use_all-InOrder}

abbrev connection : ManagerEvent
connection = record {
  kind = codes "connection";
  frame = none;
  detail = codes "stopped";
  device_id = [];
  boot_id = [];
  uptime_ms = none;
  context_captured = false;
  keg_id = none;
  calibration_id = none;
}

-- A queue that is full
abbrev full : DeviceManager
full = record {
  event_capacity = 1;
  events = connection ∷ [];
  parser = record { max_bytes = 256; buffer = []; discarding = false };
  state = ConnectionState.connected;
  detail = [];
  identity = [];
  status = [];
  counters = [];
  request_counter = 1;
  overflow_count = 0;
  needs_resynchronization = false;
}

-- The queue is full, then two events are drained, and then there is room again.
abbrev uses : List Use
uses = Use.queues connection ∷ Use.drains 2 ∷ Use.queues connection ∷ []

use_all-InOrder_example :
    (full.events ++ (use_all uses full).taken
      ≡ (use_all uses full).delivered ++ (use_all uses full).manager.events)
    × ((use_all uses full).manager.overflow_count ≡ 0 + length (use_all uses full).refused)
    × (((use_all uses full).refused ≡ []) ⊎ ((0 < 1) × (1 ≤ 1 + length (use_all uses full).taken)))
use_all-InOrder_example = use_all-InOrder uses full
