-- ===== src/Calibration.antt =====
-- Volumes, inventory and calibration: units.py, inventory.py and calibration.py of
-- src/kegpulse/domain.
pub mod Decimals
pub mod Units
pub mod Inventory
pub mod Samples
pub mod Analysis
pub mod Whole
