-- ===== src/Scoring.antt =====
-- app/scoring
pub mod Selection
pub mod Batch
pub mod Matcher
pub mod Retry
