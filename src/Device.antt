-- ===== src/Device.antt =====
-- The device session machine of src/kegpulse/domain/device_machine.py.
pub mod Defs
pub mod Tick
pub mod Methods
pub mod Pulse
pub mod Store
pub mod Invariant
pub mod Preserve
pub mod Accounting
pub mod History
pub mod Balance
pub mod Timing
pub mod Retention
pub mod Delivery
pub mod Deadline
mod Tests
