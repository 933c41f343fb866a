-- ===== src/Model.antt =====
-- internal/model: the types that the other packages exchange, and their parsers.
pub mod Push
pub mod LiveActivity
pub mod Task
