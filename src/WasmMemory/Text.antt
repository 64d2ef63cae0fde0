-- ===== src/WasmMemory/Text.antt =====
-- wasm_utils/src/memory/write.rs and read.rs: strings in the memory of the wasm instance. The
-- memory is a function from addresses to bytes; a string is its bytes. `none` is a panic (or, for
-- a read that runs out of memory, undefined behaviour).
pub mod Reads
use holochain_rust.Prelude.{
  ltb, if◌then◌else◌, ◌==◌, length, Result, ok, err, ℕ, zero, suc, ◌+◌, ◌-◌, ◌%◌, ◌^◌, true, false,
  Option, none, some, List, [], ◌∷◌, nat_eq,
}
use holochain_rust.WasmMemory.Allocation
use holochain_rust.WasmMemory.Allocation.{
  AllocationError, out_of_bounds, WasmAllocation, AllocationResult,
}
use holochain_rust.WasmMemory.Stack.{WasmStack, next_allocation, allocate}

abbrev pub Memory : Type 0
Memory = ℕ → ℕ

pub record WasmState : Type 0 where
  pub stack : WasmStack
  pub memory : Memory

abbrev pub store : Memory → ℕ → ℕ → Memory
store m p b q = if p == q then b else m q

-- The loop of `write_in_wasm_memory`, from index `i`: `ptr_safe[i] = byte` panics at the length
-- of the slice.
unfoldable pub write_bytes : Memory → ℕ → ℕ → ℕ → List ℕ → Option Memory
write_bytes m ptr i length [] = some m
write_bytes m ptr i length (byte ∷ bytes) =
    let rest = write_bytes (store m (ptr + i) byte) ptr (i + 1) length bytes in
    if ltb i length then rest else none

-- The part of `write_in_wasm_memory` after a successful `allocate`, which returned `ptr`.
unfoldable pub write_allocated :
    Memory → WasmStack → ℕ → ℕ → List ℕ → Option (AllocationResult × WasmState)
unfolding write_bytes Allocation.new
write_allocated m stack ptr length bytes = elim (write_bytes m ptr 0 length bytes) [
  | none ↦ none
  | some m' ↦ some (Allocation.new ptr length, record { stack = stack; memory = m' })
]

unfoldable pub write_after_allocate :
    WasmState
    → ℕ
    → List ℕ
    → Result ℕ AllocationError × WasmStack
    → Option (AllocationResult × WasmState)
unfolding write_allocated
write_after_allocate s length bytes (err e, stack) =
    some (err e, record { stack = stack; memory = s.memory })
write_after_allocate s length bytes (ok ptr, stack) =
    write_allocated s.memory stack ptr length bytes

unfoldable pub write_at_next :
    WasmState → ℕ → List ℕ → AllocationResult → Option (AllocationResult × WasmState)
unfolding write_after_allocate allocate
write_at_next s length bytes (err e) = some (err e, s)
write_at_next s length bytes (ok a) = write_after_allocate s length bytes (allocate s.stack a)

unfoldable pub write_in_wasm_memory : WasmState → List ℕ → ℕ → Option (AllocationResult × WasmState)
unfolding write_at_next next_allocation
write_in_wasm_memory s bytes length = write_at_next s length bytes (next_allocation s.stack length)

-- The length is cut to 32 bits before it is compared with the maximum.
unfoldable pub write_string : WasmState → List ℕ → Option (AllocationResult × WasmState)
unfolding write_in_wasm_memory
write_string s bytes =
    let len = length bytes % 2 ^ 32 in
    if ltb Allocation.max len then some (err out_of_bounds, s) else write_in_wasm_memory s bytes len

-- `CStr::from_ptr` reads up to the first zero byte; the fuel is the memory that is left.
unfoldable pub read_str_raw : ℕ → Memory → ℕ → Option (List ℕ)
read_str_raw zero m ptr = none
read_str_raw (suc fuel) m ptr = elim (m ptr == 0) [
  | true ↦ some []
  | false ↦ elim (read_str_raw fuel m (ptr + 1)) [ none ↦ none | some r ↦ some (m ptr ∷ r) ]
]

-- `WasmAllocation::read_to_string`: the length of the allocation is not read.
unfoldable pub read_to_string : Memory → WasmAllocation → Option (List ℕ)
unfolding read_str_raw
read_to_string m a = read_str_raw (2 ^ 32 - a.offset) m a.offset
