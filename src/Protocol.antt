-- ===== src/Protocol.antt =====
-- The KP1 serial protocol of src/kegpulse/protocol/frames.py.
pub mod Bytes
pub mod BytesLaws
pub mod Frames
pub mod Tokens
pub mod Seal
pub mod RoundTrip
pub mod Parser
pub mod Stream
pub mod Lines
mod Tests
