-- ===== src/Scheduler.antt =====
-- app/scheduler
pub mod Runs
pub mod Service
pub mod Triggers
pub mod Config
