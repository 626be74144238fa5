-- ===== src/Cli/Config.antt =====
-- The configuration of src/cli/commands/config.rs.
pub mod Env
pub mod Overrides
pub mod Default
pub mod Files
