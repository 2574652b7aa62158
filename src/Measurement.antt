-- ===== src/Measurement.antt =====
-- Device readings on the host: what is accepted as a measurement.
pub mod Numbers
pub mod Integrity
pub mod Plausible
pub mod States
pub mod DeviceResults
pub mod Accepted
pub mod Reconciliation
pub mod Counters
mod Tests
