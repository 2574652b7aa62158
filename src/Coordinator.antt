-- ===== src/Coordinator.antt =====
-- The retry queue of src/kegpulse/application/coordinator.py.
pub mod Events
pub mod RetryQueue
pub mod Counters
pub mod Bounded
pub mod Quarantine
pub mod Handling
pub mod Durable
pub mod Arming
mod Tests
