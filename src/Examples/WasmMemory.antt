-- ===== src/Examples/WasmMemory.antt =====
-- Runs of the memory of a wasm instance.
use holochain_rust.Prelude.{
  ok, ℕ, ◌/◌, ◌%◌, ◌^◌, ◌≡◌, refl, ◌≢◌, ◌↔◌, some, List, [], ◌∷◌, arith, string_eq, nat_eq,
}
use holochain_rust.WasmMemory.Allocation
use holochain_rust.WasmMemory.Codes.{
  mismatch_wasm_call_data_type, to_encoding_bits, from_encoding_bits, failure, unspecified,
}
use holochain_rust.WasmMemory.Stack.Discipline.{deallocate-allocate, IsValid, new-IsValid}
use holochain_rust.WasmMemory.Encoding.RoundTrip.{
  decode-encode, IsEncodable, try_from_ribosome_encoding_iff,
}
use holochain_rust.WasmMemory.Text.Reads.{
  HasBytes, SameOutside, read-write_stale, write_string_lem, read-write,
}
use holochain_rust.WasmMemory.Stack.{WasmStack, allocate, deallocate}
use holochain_rust.WasmMemory.Text.{write_string, WasmState, read_to_string, store}
use holochain_rust.WasmMemory.Allocation.{WasmAllocation}
use holochain_rust.WasmMemory.Encoding.{try_from_ribosome_encoding}

abbrev small_stack : WasmStack
small_stack = record { top = 16 }

abbrev grown_stack : WasmStack
grown_stack = record { top = 20 }

abbrev four_bytes : WasmAllocation
four_bytes = record { offset = 16; length = 4 }

four_bytes-IsValid : IsValid four_bytes
four_bytes-IsValid = record { nonempty = omega arith; in_memory = omega arith }

accepts_four : Allocation.new 16 4 ≡ ok four_bytes
unfolding Allocation.new
accepts_four = refl

new-IsValid_example : IsValid four_bytes × (four_bytes.offset ≡ 16) × (four_bytes.length ≡ 4)
new-IsValid_example = new-IsValid 16 4 {a = four_bytes} accepts_four

allocates_four : allocate small_stack four_bytes ≡ (ok 16, grown_stack)
unfolding allocate
allocates_four = refl

deallocate-allocate_example : deallocate grown_stack four_bytes ≡ (ok 20, small_stack)
deallocate-allocate_example =
    deallocate-allocate small_stack grown_stack four_bytes {old = 16} four_bytes-IsValid
      allocates_four

mismatch-IsEncodable : IsEncodable (failure mismatch_wasm_call_data_type)
mismatch-IsEncodable = tt

decode-encode_example :
    from_encoding_bits (to_encoding_bits (failure mismatch_wasm_call_data_type))
    ≡ some (failure unspecified)
decode-encode_example = decode-encode (failure mismatch_wasm_call_data_type) mismatch-IsEncodable

try_from_ribosome_encoding_iff_example :
    (try_from_ribosome_encoding 68719476740 ≡ some (ok four_bytes)) ↔ (
      IsValid four_bytes
      × (four_bytes.offset ≡ 68719476740 / 2 ^ 32)
      × (four_bytes.length ≡ 68719476740 % 2 ^ 32))
try_from_ribosome_encoding_iff_example =
    try_from_ribosome_encoding_iff 68719476740 four_bytes (omega arith)

abbrev letters : List ℕ
letters = 104 ∷ 105 ∷ []

abbrev clean : WasmState
clean = record { stack = small_stack; memory = λ q. 0 }

abbrev used : WasmState
used = record { stack = small_stack; memory = λ q. 97 }

abbrev two_bytes : WasmAllocation
two_bytes = record { offset = 16; length = 2 }

write_string_lem_example :
    (t : WasmState) × (write_string clean letters ≡ some (ok two_bytes, t))
    × (t.stack.top ≡ 18)
    × HasBytes t.memory 16 letters
    × SameOutside clean.memory t.memory 16 18
write_string_lem_example = write_string_lem clean letters (omega arith) (omega arith)

-- what a write of the letters leaves
abbrev written : WasmState → WasmState
written s = record { stack = record { top = 18 }; memory = store (store s.memory 16 104) 17 105 }

writes_clean : write_string clean letters ≡ some (ok two_bytes, written clean)
unfolding write_string
writes_clean = refl

writes_used : write_string used letters ≡ some (ok two_bytes, written used)
unfolding write_string
writes_used = refl

read-write_example : read_to_string (written clean).memory two_bytes ≡ some letters
read-write_example =
    read-write clean (written clean) letters two_bytes (omega arith) (omega arith)
      (omega arith, (omega arith, tt)) refl writes_clean

read-write_stale_example : read_to_string (written used).memory two_bytes ≢ some letters
read-write_stale_example =
    read-write_stale used (written used) letters two_bytes (omega arith) (omega arith)
      (λ e. omega (arith, e)) writes_used
