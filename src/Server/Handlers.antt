-- ===== src/Server/Handlers.antt =====
-- internal/server: the handlers of the routes. An argument is a parameter of the path, a value of the
-- query or the decoded body; ids that are drawn are arguments too.
pub mod Users
pub mod Topics
pub mod Send
pub mod LiveActivity
