-- ===== src/Service.antt =====
-- internal/service: what the handlers ask for, over the store.
pub mod Users
pub mod Notifications
pub mod LiveActivity
