-- ===== src/Cli.antt =====
-- The commands of the command line, src/cli of the repository.
pub mod Session
pub mod Config
