-- ===== src/Sample.antt =====
-- Concrete parameters for the tests.
pub mod Codec
pub mod World
pub mod Services
pub mod Response
pub mod Database
pub mod Postgres
pub mod Queue
pub mod Web
pub mod Desk
