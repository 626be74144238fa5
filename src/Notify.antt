-- ===== src/Notify.antt =====
-- The notifications, src/notify of the repository.
pub mod Dispatcher
pub mod Events
