-- ===== src/Simulator.antt =====
-- The simulated device of src/kegpulse/serialio/simulator.py.
pub mod Replies
pub mod Handle
pub mod Dispatch
pub mod Transport
pub mod Control
pub mod RoundTrip
mod Tests
