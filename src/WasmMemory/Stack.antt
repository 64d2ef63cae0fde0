-- ===== src/WasmMemory/Stack.antt =====
-- wasm_utils/src/memory/stack.rs. A method on `&mut self` returns its result and the new stack.
pub mod Discipline
use holochain_rust.Prelude.{
  ltb, if◌then◌else◌, ◌==◌, length, Result, ok, err, and_then, ℕ, ◌+◌, ◌%◌, ◌^◌, not, nat_eq,
}
use holochain_rust.WasmMemory.Allocation
use holochain_rust.WasmMemory.Allocation.{
  AllocationError, out_of_bounds, bad_stack_alignment, WasmAllocation, AllocationResult,
}

pub record WasmStack : Type 0 where
  pub top : ℕ

abbrev pub min : ℕ
min = 0

unfoldable pub new : WasmStack
new = record { top = min }

unfoldable pub next_allocation : WasmStack → ℕ → AllocationResult
unfolding Allocation.new
next_allocation s length = Allocation.new s.top length

-- `MemoryInt` addition, which wraps in a release build.
abbrev pub add_u32 : ℕ → ℕ → ℕ
add_u32 a b = (a + b) % 2 ^ 32

-- On success the old top is returned.
unfoldable pub allocate : WasmStack → WasmAllocation → Result ℕ AllocationError × WasmStack
allocate s a =
    if not (s.top == a.offset)
    then (err bad_stack_alignment, s)
    else if ltb Allocation.max (s.top + a.length)
    then (err out_of_bounds, s)
    else (ok s.top, record { top = add_u32 a.offset a.length })

unfoldable pub deallocate : WasmStack → WasmAllocation → Result ℕ AllocationError × WasmStack
deallocate s a =
    if not (s.top == add_u32 a.offset a.length)
    then (err bad_stack_alignment, s)
    else if ltb a.offset min
    then (err out_of_bounds, s)
    else (ok s.top, record { top = a.offset })

-- `impl TryFrom<WasmAllocation> for WasmStack`
unfoldable pub try_from : WasmAllocation → Result WasmStack AllocationError
unfolding allocate
try_from a = let (r, stack) = allocate (record { top = a.offset }) a in and_then r (λ _. ok stack)
