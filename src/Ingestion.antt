-- ===== src/Ingestion.antt =====
-- app/ingestion
pub mod Types
pub mod Dedup
pub mod Normalize
pub mod FetchScope
pub mod Persist
pub mod Runner
pub mod Registry
pub mod Lifecycle
pub mod Service
