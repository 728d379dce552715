-- ===== src/Notifications.antt =====
-- internal/notifications: what is sent after a submission.
pub mod Webhooks
pub mod Broker
