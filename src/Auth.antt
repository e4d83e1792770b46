-- ===== src/Auth.antt =====
-- backend/auth.py: accounts, cookie sessions and the throttle of failed logins.
pub mod Document
pub mod Throttle
pub mod Users
pub mod Sessions
