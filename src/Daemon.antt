-- ===== src/Daemon.antt =====
-- The daemon, src/daemon of the repository.
pub mod State
pub mod Pid
pub mod Core
pub mod Shutdown
