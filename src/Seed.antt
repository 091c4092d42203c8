-- ===== src/Seed.antt =====
-- The development data: backend/scripts/seed.py.
pub mod Rows
pub mod Accounts
pub mod Desk
pub mod Articles
pub mod Database
pub mod Run
pub mod Indexes
pub mod Keeps
pub mod Written
pub mod Growth
pub mod Atomic
pub mod Twice
pub mod Categories
pub mod Values
pub mod Accepted
pub mod Stored
