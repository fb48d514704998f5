-- ===== src/Notify.antt =====
-- The push notifications of app/notification_hub.py and app/notification_events.py.
pub mod Detect
pub mod Hub
