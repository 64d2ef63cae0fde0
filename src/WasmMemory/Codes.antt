-- ===== src/WasmMemory/Codes.antt =====
-- core_types/src/error/ribosome_error.rs: the codes that zome functions return.
use holochain_rust.Prelude.{if◌then◌else◌, ◌==◌, ℕ, ◌*◌, ◌^◌, String, Option, none, some, nat_eq}
use holochain_rust.WasmMemory.Bits.{u64_split_bits}

-- A `RibosomeEncodedAllocation` is the 64 bit word itself.
pub data RibosomeErrorCode : Type 0 where
  unspecified argument_deserialization_failed out_of_memory : RibosomeErrorCode
  received_wrong_action_result callback_failed recursive_call_forbidden : RibosomeErrorCode
  response_serialization_failed not_an_allocation zero_sized_allocation : RibosomeErrorCode
  unknown_entry_type mismatch_wasm_call_data_type entry_not_found : RibosomeErrorCode
  workflow_failed : RibosomeErrorCode

pub data RibosomeEncodedValue : Type 0 where
  success : RibosomeEncodedValue
  allocation : ℕ → RibosomeEncodedValue
  failure : RibosomeErrorCode → RibosomeEncodedValue

-- The number before `<< 32` in the declaration of the enum.
pub code_number : RibosomeErrorCode → ℕ
code_number unspecified = 1
code_number argument_deserialization_failed = 2
code_number out_of_memory = 3
code_number received_wrong_action_result = 4
code_number callback_failed = 5
code_number recursive_call_forbidden = 6
code_number response_serialization_failed = 7
code_number not_an_allocation = 8
code_number zero_sized_allocation = 9
code_number unknown_entry_type = 10
code_number mismatch_wasm_call_data_type = 11
code_number entry_not_found = 12
code_number workflow_failed = 13

-- `code as RibosomeRuntimeBits as RibosomeEncodingBits`: the discriminant, `n << 32`
unfoldable pub discriminant : RibosomeErrorCode → ℕ
unfolding code_number
discriminant c = code_number c * 2 ^ 32

-- `none` is the panic at 0.
unfoldable pub from_code_int : ℕ → Option RibosomeErrorCode
from_code_int code =
    if code == 0
    then none
    else if code == 2
    then some argument_deserialization_failed
    else if code == 3
    then some out_of_memory
    else if code == 4
    then some received_wrong_action_result
    else if code == 5
    then some callback_failed
    else if code == 6
    then some recursive_call_forbidden
    else if code == 7
    then some response_serialization_failed
    else if code == 8
    then some not_an_allocation
    else if code == 9
    then some zero_sized_allocation
    else if code == 10
    then some unknown_entry_type
    else if code == 12
    then some entry_not_found
    else if code == 13
    then some workflow_failed
    else some unspecified

-- `RibosomeErrorCode::from_return_code`; `none` is the panic.
unfoldable pub from_return_code : RibosomeEncodedValue → Option RibosomeErrorCode
from_return_code (failure c) = some c
from_return_code _ = none

-- `impl From<RibosomeEncodedValue> for RibosomeEncodingBits`
unfoldable pub to_encoding_bits : RibosomeEncodedValue → ℕ
unfolding discriminant
to_encoding_bits success = 0
to_encoding_bits (allocation bits) = bits
to_encoding_bits (failure code) = discriminant code

abbrev pub as_failure : Option RibosomeErrorCode → Option RibosomeEncodedValue
as_failure none = none
as_failure (some c) = some (failure c)

-- `impl From<RibosomeEncodingBits> for RibosomeEncodedValue`; `none` is a panic.
unfoldable pub from_encoding_bits : ℕ → Option RibosomeEncodedValue
unfolding u64_split_bits from_code_int
from_encoding_bits i =
    if i == 0
    then some success
    else let (code_int, maybe_allocation_length) = u64_split_bits i in
      if maybe_allocation_length == 0
      then as_failure (from_code_int code_int)
      else some (allocation i)

unfoldable pub as_str : RibosomeErrorCode → String
as_str unspecified = "Unspecified"
as_str argument_deserialization_failed = "Argument deserialization failed"
as_str out_of_memory = "Out of memory"
as_str received_wrong_action_result = "Received wrong action result"
as_str callback_failed = "Callback failed"
as_str recursive_call_forbidden = "Recursive call forbidden"
as_str response_serialization_failed = "Response serialization failed"
as_str not_an_allocation = "Not an allocation"
as_str zero_sized_allocation = "Zero-sized allocation"
as_str unknown_entry_type = "Unknown entry type"
as_str mismatch_wasm_call_data_type = "Mismatched WasmCallData type"
as_str entry_not_found = "Entry Could Not Be Found"
as_str workflow_failed = "Workflow failed"
