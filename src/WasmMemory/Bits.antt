-- ===== src/WasmMemory/Bits.antt =====
-- core_types/src/bits_n_pieces.rs: halves of machine words. A word is a native number, and a cast
-- to a narrower word is the remainder.
pub mod Split
use Prim.Native.Nat.{bit_or}
use holochain_rust.Prelude.{ℕ, ◌-◌, ◌*◌, ◌/◌, ◌%◌, ◌^◌}

abbrev pub u16_max : ℕ
u16_max = 2 ^ 16 - 1

abbrev pub u32_max : ℕ
u32_max = 2 ^ 32 - 1

unfoldable pub u32_high_bits : ℕ → ℕ
u32_high_bits i = i / 2 ^ 16 % 2 ^ 16

unfoldable pub u32_low_bits : ℕ → ℕ
u32_low_bits i = i % 2 ^ 16

unfoldable pub u32_split_bits : ℕ → ℕ × ℕ
unfolding u32_high_bits u32_low_bits
u32_split_bits i = (u32_high_bits i, u32_low_bits i)

unfoldable pub u32_merge_bits : ℕ → ℕ → ℕ
u32_merge_bits high low = bit_or (high * 2 ^ 16 % 2 ^ 32) low

unfoldable pub u64_high_bits : ℕ → ℕ
u64_high_bits i = i / 2 ^ 32 % 2 ^ 32

unfoldable pub u64_low_bits : ℕ → ℕ
u64_low_bits i = i % 2 ^ 32

unfoldable pub u64_split_bits : ℕ → ℕ × ℕ
unfolding u64_high_bits u64_low_bits
u64_split_bits i = (u64_high_bits i, u64_low_bits i)

unfoldable pub u64_merge_bits : ℕ → ℕ → ℕ
u64_merge_bits high low = bit_or (high * 2 ^ 32 % 2 ^ 64) low
