-- ===== src/BuildSystem.antt =====
-- backend/src/system: what the build system does on the events of the queue, of the executor and of
-- the repositories.
pub mod Actions
pub mod Effects
pub mod Transition
pub mod Release
pub mod Events
mod Examples
