-- ===== src/WasmMemory/Allocation.antt =====
-- wasm_utils/src/memory/allocation.rs. An `Offset` and a `Length` are 32 bit words.
use holochain_rust.Prelude.{ltb, if◌then◌else◌, ◌==◌, Result, ok, err, ℕ, ◌+◌, nat_eq}
use holochain_rust.WasmMemory.Bits.{u32_max}

pub data AllocationError : Type 0 where
  out_of_bounds zero_length bad_stack_alignment serialization : AllocationError

pub record WasmAllocation : Type 0 where
  pub offset : ℕ
  pub length : ℕ

abbrev pub AllocationResult : Type 0
AllocationResult = Result WasmAllocation AllocationError

-- `WasmAllocation::max`
abbrev pub max : ℕ
max = u32_max

-- `WasmAllocation::new`: the sum is taken in 64 bits, where it does not wrap.
unfoldable pub new : ℕ → ℕ → AllocationResult
new offset length =
    if ltb max (offset + length)
    then err out_of_bounds
    else if length == 0
    then err zero_length
    else ok (record { offset = offset; length = length })
