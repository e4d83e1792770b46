-- ===== src/Updates.antt =====
-- The scheduled update checks of backend/morning_updates.py.
pub mod Lease
pub mod Report
pub mod Reboot
