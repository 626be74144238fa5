-- ===== src/Config.antt =====
-- The configuration, src/config of the repository.
pub mod Schema
pub mod Validation
pub mod Check
