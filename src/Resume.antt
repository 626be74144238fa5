-- ===== src/Resume.antt =====
-- The resume subsystem, src/resume of the repository.
pub mod Backoff
pub mod Backup
pub mod Outcome
pub mod Context
pub mod Selector
pub mod Effects
pub mod Steps
pub mod NextStep
pub mod Prompt
pub mod SameSession
pub mod NewSession
