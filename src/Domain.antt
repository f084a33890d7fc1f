-- ===== src/Domain.antt =====
-- backend/src/domain-model: the values that the services exchange, and their texts.
pub mod Source
pub mod Refs
pub mod JobRef
pub mod DependencyRef
pub mod Version
mod Examples
