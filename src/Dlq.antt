-- ===== src/Dlq.antt =====
-- app/dlq
pub mod Service
pub mod Retry
