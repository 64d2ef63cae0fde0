-- ===== src/WasmMemory.antt =====
-- wasm_utils/src/memory and core_types/src/bits_n_pieces.rs: the memory that a zome shares with
-- the ribosome, its stack allocator, and the 64 bit codes by which the two speak of it.
pub mod Bits
pub mod Codes
pub mod Allocation
pub mod Stack
pub mod Encoding
pub mod Text
