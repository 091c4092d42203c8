-- ===== src/Migrations.antt =====
-- The database's schema and the revisions that make it: alembic/versions/*.py.
pub mod Schema
pub mod Sound
pub mod Effect
pub mod Baseline
pub mod Revisions
pub mod Frame
pub mod Steps
pub mod Metadata
pub mod Equality
pub mod History
pub mod Declared
pub mod Migrator
pub mod Values
pub mod Rows
pub mod Inserts
pub mod Undone
