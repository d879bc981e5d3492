-- ===== src/Queues.antt =====
-- src/queues: the task queue and the lock, over the commands of Redis.antt.
pub mod TaskQueue
pub mod Lock
