-- ===== src/Server.antt =====
-- internal/server: the HTTP handlers' own logic.
pub mod Pagination
pub mod Responses
pub mod Queue
pub mod Handlers
