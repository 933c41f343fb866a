-- ===== src/Storage.antt =====
-- internal/storage: the tables and the statements that read and write them.
pub mod Tables
pub mod World
pub mod Outcome
pub mod Paging
pub mod PushJobs
pub mod Tokens
pub mod Directory
pub mod Topics
pub mod Listings
pub mod LaJobs
pub mod AllOrNothing
pub mod LaDispatches
pub mod LaTokens
pub mod LaOutcomes
