-- ===== src/Store.antt =====
-- `Repository` of src/kegpulse/persistence/repository.py over the tables of src/kegpulse/migrations.
pub mod Tables
pub mod Participants
pub mod Charges
pub mod Kegs
pub mod Sessions
pub mod Results
pub mod Recovery
pub mod Calibrations
pub mod Captures
pub mod Anomalies
pub mod Frame
pub mod Recorded
pub mod ExactlyOnce
pub mod Ledger
pub mod Balance
pub mod Accounts
pub mod Counted
pub mod Checkpoints
pub mod Refinement
pub mod OneActive
pub mod Runs
mod Tests
