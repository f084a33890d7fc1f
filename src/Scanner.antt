-- ===== src/Scanner.antt =====
-- backend/src/repositories/scanner: what repositories depend on.
pub mod Graph
mod Examples
