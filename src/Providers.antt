-- ===== src/Providers.antt =====
-- internal/apns and internal/fcm: the clients of the providers.
pub mod Http
pub mod Apns
pub mod Fcm
