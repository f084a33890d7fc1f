-- ===== src/Tasks.antt =====
-- backend/src/task-queue: tasks that wait for their time.
pub mod Time
pub mod Commands
pub mod Redis
pub mod Queue
mod Examples
