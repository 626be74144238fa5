-- ===== src/Tests.antt =====
-- Tests on concrete inputs, and the theorems applied at inputs that meet their hypotheses.
mod Floats
mod Backoff
mod Classifier
mod SameSession
mod NewSession
mod Daemon
mod Monitor
mod Bot
mod Config
mod Store
mod Audit
mod Backup
mod Process
mod Pid
mod Http
mod Executor
mod Shutdown
mod Client
mod Watcher
mod Opencode
mod Mcp
mod Core
mod Detection
mod Overrides
