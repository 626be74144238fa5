-- ===== src/Opencode.antt =====
-- src/opencode: the assistant's server process.
pub mod Process
