-- ===== src/Measurement/States.antt =====
-- The texts of `DeviceState` (src/kegpulse/domain/models.py), as frames carry them.
use keg_pulse.Base.{◌≡◌, refl, Option, none, some, if◌then◌else◌}
use keg_pulse.Base.Text.{Text, codes, ◌=t◌}
use keg_pulse.Models.{DeviceState}

-- `state.value`
unfoldable pub state_text : DeviceState → Text
state_text DeviceState.disconnected = codes "disconnected"
state_text DeviceState.connecting = codes "connecting"
state_text DeviceState.idle = codes "idle"
state_text DeviceState.armed = codes "armed"
state_text DeviceState.pouring = codes "pouring"
state_text DeviceState.settling = codes "settling"
state_text DeviceState.complete = codes "complete"
state_text DeviceState.timed_out = codes "timed_out"
state_text DeviceState.interrupted = codes "interrupted"
state_text DeviceState.degraded = codes "degraded"

-- `DeviceState(text)`, or None where that raises a ValueError
unfoldable pub parse_state : Text → Option DeviceState
unfolding ◌=t◌
parse_state t =
    if t =t codes "disconnected"
    then some DeviceState.disconnected
    else if t =t codes "connecting"
    then some DeviceState.connecting
    else if t =t codes "idle"
    then some DeviceState.idle
    else if t =t codes "armed"
    then some DeviceState.armed
    else if t =t codes "pouring"
    then some DeviceState.pouring
    else if t =t codes "settling"
    then some DeviceState.settling
    else if t =t codes "complete"
    then some DeviceState.complete
    else if t =t codes "timed_out"
    then some DeviceState.timed_out
    else if t =t codes "interrupted"
    then some DeviceState.interrupted
    else if t =t codes "degraded"
    then some DeviceState.degraded
    else none

-- Every state is read back from its text.
pub parse_state-state_text : (s : DeviceState) → parse_state (state_text s) ≡ some s
unfolding parse_state state_text
parse_state-state_text DeviceState.disconnected = refl
parse_state-state_text s = refl
