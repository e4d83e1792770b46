-- ===== src/Poller.antt =====
-- backend/poller.py: what one poll does to a device record, to its alert rules and to its history.
pub mod Alerts
pub mod Record
pub mod Append
