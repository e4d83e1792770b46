-- ===== src/Push.antt =====
-- Push subscriptions and the durable notifications beside them: backend/push.py.
pub mod Subscriptions
pub mod Category
pub mod Notifications
