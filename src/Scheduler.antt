-- ===== src/Scheduler.antt =====
-- src/scheduler: cron expressions, the runs of the due slots, and the leader's tick.
pub mod Cron
pub mod Due
pub mod Once
pub mod Tick
pub mod Slots
mod Examples
