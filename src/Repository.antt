-- ===== src/Repository.antt =====
-- backend/src/repositories/repository: the model of a repository's branches and releases, how it
-- is built from the refs, and what is read from it.
pub mod Model
pub mod Normalized
pub mod Converter
pub mod Reader
pub mod Raw
pub mod Ordered
mod Examples
