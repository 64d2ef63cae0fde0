-- ===== src/WasmMemory/Encoding/RoundTrip.antt =====
-- What survives the passage through a 64 bit code.
use holochain_rust.Prelude.{
  Option-cases, ok, ℕ, ◌+◌, ◌/◌, ◌%◌, ◌^◌, ◌<◌, ◌≡◌, refl, ◌≢◌, ◌↔◌, inl, inr, none, some, arith,
}
use holochain_rust.WasmMemory.Bits.Split.{u64_merge_bits_lem}
use holochain_rust.WasmMemory.Codes.{
  unspecified, mismatch_wasm_call_data_type, RibosomeEncodedValue, success, allocation, failure,
  to_encoding_bits, from_encoding_bits, from_code_int,
}
use holochain_rust.WasmMemory.Allocation.{WasmAllocation}
use holochain_rust.WasmMemory.Stack.Discipline.{IsValid}
use holochain_rust.WasmMemory.Encoding.{
  try_from_ribosome_encoding, as_ribosome_encoding, stack_try_from_ribosome_encoding,
}

from_code_int-none : (code : ℕ) → from_code_int code ≡ none → code ≡ 0
unfolding from_code_int
from_code_int-none code h = ground arith

from_encoding_bits-ne-none : (i : ℕ) → i < 2 ^ 64 → from_encoding_bits i ≢ none
unfolding from_encoding_bits
from_encoding_bits-ne-none i h e = ground (arith, from_code_int-none (i / 2 ^ 32 % 2 ^ 32))

-- Decoding a 64 bit word never reaches the panic of `from_code_int`.
pub from_encoding_bits-total :
    (i : ℕ) → i < 2 ^ 64 → (v : RibosomeEncodedValue) × (from_encoding_bits i ≡ some v)
from_encoding_bits-total i h = elim (Option-cases (from_encoding_bits i)) [
  | inl e ↦ absurd (from_encoding_bits-ne-none i h e)
  | inr found ↦ found
]

-- A value that the encoding can hold: an allocation word has a length and 64 bits.
abbrev pub IsEncodable : RibosomeEncodedValue → Type 0
IsEncodable success = Unit
IsEncodable (allocation bits) = (bits < 2 ^ 64) × (0 < bits % 2 ^ 32)
IsEncodable (failure c) = Unit

-- What decoding makes of a value: the same, but for the code 11, which decodes to `Unspecified`.
abbrev pub decoded : RibosomeEncodedValue → RibosomeEncodedValue
decoded (failure mismatch_wasm_call_data_type) = failure unspecified
decoded v = v

-- Encoding a value and decoding the word gives the value back, with one exception: the error
-- `MismatchWasmCallDataType` comes back as `Unspecified`.
pub decode-encode :
    (v : RibosomeEncodedValue)
    → IsEncodable v
    → from_encoding_bits (to_encoding_bits v) ≡ some (decoded v)
unfolding from_encoding_bits to_encoding_bits
decode-encode success h = refl
decode-encode (allocation bits) h = ground arith
decode-encode (failure unspecified) h = refl
decode-encode (failure mismatch_wasm_call_data_type) h = refl
decode-encode (failure c) h = refl

-- A valid allocation survives its encoding.
pub allocation_round_trip :
    (a : WasmAllocation)
    → IsValid a
    → try_from_ribosome_encoding (as_ribosome_encoding a) ≡ some (ok a)
unfolding try_from_ribosome_encoding as_ribosome_encoding
allocation_round_trip a v =
    ground (arith, u64_merge_bits_lem a.offset a.length (omega arith) (omega arith))

-- What a word decodes to as an allocation: the halves are the offset and the length, and the
-- word is accepted exactly if they form a valid allocation.
pub try_from_ribosome_encoding_iff :
    (bits : ℕ) (a : WasmAllocation)
    → bits < 2 ^ 64
    → (try_from_ribosome_encoding bits ≡ some (ok a))
      ↔ (IsValid a × (a.offset ≡ bits / 2 ^ 32) × (a.length ≡ bits % 2 ^ 32))
unfolding try_from_ribosome_encoding
try_from_ribosome_encoding_iff bits a h = (
  λ e. (record { nonempty = ground arith; in_memory = ground arith }, ground arith, ground arith),
  λ e. ground arith,
)

-- A word that encodes a valid allocation becomes the stack that ends with it.
pub stack_from_allocation :
    (a : WasmAllocation)
    → IsValid a
    → stack_try_from_ribosome_encoding (as_ribosome_encoding a)
      ≡ some (ok (record { top = a.offset + a.length }))
unfolding stack_try_from_ribosome_encoding as_ribosome_encoding
stack_from_allocation a v =
    ground (arith, u64_merge_bits_lem a.offset a.length (omega arith) (omega arith))
