-- ===== src/Cynosure.antt =====
-- backend/src/cynosure/job-executor: how jobs are run by Cynosure.
pub mod States
pub mod Acts
pub mod Executor
pub mod Poll
mod Examples
