-- ===== src/Queue.antt =====
-- backend/src/system/queue: the states of a job, the queues in Redis, and the queue service.
pub mod States
pub mod Scripts
pub mod Service
mod Examples
