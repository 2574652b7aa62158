-- ===== src/Security.antt =====
-- Sessions and access control of src/kegpulse/security.py.
pub mod Sessions
pub mod Access
pub mod Hosts
pub mod Live
pub mod Stored
pub mod Guards
pub mod Throttle
mod Tests
