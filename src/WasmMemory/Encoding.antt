-- ===== src/WasmMemory/Encoding.antt =====
-- wasm_utils/src/memory/ribosome.rs: allocations and their errors as 64 bit ribosome codes.
-- An outer `none` is a panic.
pub mod RoundTrip
use holochain_rust.Prelude.{length, Result, ok, err, ℕ, Option, none, some}
use holochain_rust.WasmMemory.Bits.{u64_split_bits, u64_merge_bits}
use holochain_rust.WasmMemory.Codes.{
  RibosomeErrorCode, out_of_memory, zero_sized_allocation, not_an_allocation, RibosomeEncodedValue,
  success, allocation, failure, to_encoding_bits, from_encoding_bits,
}
use holochain_rust.WasmMemory.Allocation
use holochain_rust.WasmMemory.Allocation.{
  AllocationError, out_of_bounds, zero_length, bad_stack_alignment, serialization, WasmAllocation,
  AllocationResult,
}
use holochain_rust.WasmMemory.Stack
use holochain_rust.WasmMemory.Stack.{WasmStack}

-- `impl TryFrom<RibosomeEncodedAllocation> for WasmAllocation`
unfoldable pub try_from_encoded_allocation : ℕ → AllocationResult
unfolding u64_split_bits Allocation.new
try_from_encoded_allocation bits =
    let (offset, length) = u64_split_bits bits in Allocation.new offset length

-- `impl From<WasmAllocation> for RibosomeEncodedAllocation`
unfoldable pub to_encoded_allocation : WasmAllocation → ℕ
to_encoded_allocation a = u64_merge_bits a.offset a.length

-- `impl From<AllocationError> for RibosomeErrorCode`
unfoldable pub error_code : AllocationError → RibosomeErrorCode
error_code out_of_bounds = out_of_memory
error_code zero_length = zero_sized_allocation
error_code bad_stack_alignment = not_an_allocation
error_code serialization = not_an_allocation

-- `AllocationError::as_ribosome_encoding`
unfoldable pub error_as_ribosome_encoding : AllocationError → ℕ
unfolding error_code to_encoding_bits
error_as_ribosome_encoding e = to_encoding_bits (failure (error_code e))

-- The `match` of `WasmAllocation::try_from_ribosome_encoding`
unfoldable pub allocation_of_value : RibosomeEncodedValue → AllocationResult
unfolding try_from_encoded_allocation
allocation_of_value success = err zero_length
allocation_of_value (failure c) = err out_of_bounds
allocation_of_value (allocation bits) = try_from_encoded_allocation bits

-- `WasmAllocation::try_from_ribosome_encoding`
unfoldable pub try_from_ribosome_encoding : ℕ → Option AllocationResult
unfolding from_encoding_bits allocation_of_value
try_from_ribosome_encoding bits = elim (from_encoding_bits bits) [
  | none ↦ none
  | some v ↦ some (allocation_of_value v)
]

-- `WasmAllocation::as_ribosome_encoding`
unfoldable pub as_ribosome_encoding : WasmAllocation → ℕ
unfolding to_encoded_allocation to_encoding_bits
as_ribosome_encoding a = to_encoding_bits (allocation (to_encoded_allocation a))

unfoldable pub stack_of_allocation : AllocationResult → Result WasmStack AllocationError
unfolding Stack.try_from
stack_of_allocation (err e) = err e
stack_of_allocation (ok a) = Stack.try_from a

-- The final `map_err`: the error goes through its encoding.
unfoldable pub stack_or_code :
    Result WasmStack AllocationError → Option (Result WasmStack RibosomeEncodedValue)
unfolding error_as_ribosome_encoding from_encoding_bits
stack_or_code (ok s) = some (ok s)
stack_or_code (err e) = elim (from_encoding_bits (error_as_ribosome_encoding e)) [
  | none ↦ none
  | some v ↦ some (err v)
]

-- `WasmStack::try_from_ribosome_encoding`
unfoldable pub stack_try_from_ribosome_encoding : ℕ → Option (Result WasmStack RibosomeEncodedValue)
unfolding try_from_ribosome_encoding stack_of_allocation stack_or_code
stack_try_from_ribosome_encoding bits = elim (try_from_ribosome_encoding bits) [
  | none ↦ none
  | some r ↦ stack_or_code (stack_of_allocation r)
]

unfoldable pub return_code_for_allocation_result : AllocationResult → RibosomeEncodedValue
unfolding to_encoded_allocation error_code
return_code_for_allocation_result (ok a) = allocation (to_encoded_allocation a)
return_code_for_allocation_result (err e) = failure (error_code e)
