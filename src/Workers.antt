-- ===== src/Workers.antt =====
-- internal/workers: the masters that fan jobs out, the senders and the outcome workers.
pub mod Dispatch
pub mod Fanout
pub mod FanoutLa
pub mod Loops
pub mod Outcome
