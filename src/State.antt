-- ===== src/State.antt =====
-- The persistent state, src/state of the repository.
pub mod Schema
pub mod Lock
pub mod Store
pub mod Audit
