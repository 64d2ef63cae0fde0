-- ===== src/Chain.antt =====
-- The source chain of an agent (core/src/agent): its iterators and queries.
pub mod Store
pub mod Query
pub mod Agent
