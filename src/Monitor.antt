-- ===== src/Monitor.antt =====
-- The session monitor, src/monitor of the repository.
pub mod Session
pub mod Frontmatter
pub mod Classifier
pub mod Events
pub mod Parser
pub mod Core
pub mod Process
pub mod Watcher
pub mod Detection
