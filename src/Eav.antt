-- ===== src/Eav.antt =====
-- The entity-attribute-value store, in which the DHT keeps its metadata: core_types/src/eav,
-- core_types/src/crud_status.rs and cas_implementations/src/eav/memory.rs.
pub mod Attribute
pub mod Eavi
pub mod Sorted
pub mod Query
pub mod Storage
pub mod CrudStatus
