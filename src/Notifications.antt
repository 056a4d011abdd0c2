-- ===== src/Notifications.antt =====
-- backend/src/modules/notifications: a user's notifications.
pub mod Cursor
pub mod Service
pub mod Walk
pub mod Reading
mod Tests
