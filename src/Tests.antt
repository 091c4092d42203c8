-- ===== src/Tests.antt =====
-- The theorems at concrete inputs.
pub mod Texts
pub mod Runs
pub mod Requests
pub mod Claims
pub mod Threads
pub mod Loops
pub mod Desk
pub mod Seeding
pub mod Schemas
pub mod Scripts
pub mod Queue
pub mod Load
pub mod Queued
pub mod Session
