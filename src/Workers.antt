-- ===== src/Workers.antt =====
-- src/workers.
pub mod Retry
pub mod Task
pub mod Worker
