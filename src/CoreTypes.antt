-- ===== src/CoreTypes.antt =====
-- The types that the parts of the program share (core_types).
pub mod Errors
pub mod EntryType
pub mod Link
pub mod Header
pub mod Entry
