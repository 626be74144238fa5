-- ===== src/Monitor/Classifier.antt =====
-- The stop reason classifier, src/monitor/classifier.rs.
pub mod Types
pub mod Detect
pub mod Classify
pub mod Verdicts
pub mod ContextSize
