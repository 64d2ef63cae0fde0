-- ===== src/WasmMemory/Bits/Split.antt =====
-- Splitting and merging words are inverse.
use Prim.Native.Nat.{bit_or, bit_or-bitwise, digits, max}
use native.Mathlib.Nat.{pow-suc}
use holochain_rust.Prelude.{ℕ, zero, suc, ◌+◌, ◌*◌, ◌/◌, ◌%◌, ◌^◌, ◌≤◌, ◌<◌, ◌≡◌, refl, ap, arith}
use holochain_rust.WasmMemory.Bits.{u32_split_bits, u32_merge_bits, u64_split_bits, u64_merge_bits}

abbrev or_digits : ℕ → ℕ → ℕ → ℕ
or_digits n a b = digits (λ b. b) max n a b

or_digits_fuel : (n m a b : ℕ) → a ≤ n → a ≤ m → or_digits n a b ≡ or_digits m a b
or_digits_fuel zero zero a b p q = refl
or_digits_fuel zero (suc m) zero b p q = refl
or_digits_fuel zero (suc m) (suc a) b p q = absurd (omega arith)
or_digits_fuel (suc n) zero zero b p q = refl
or_digits_fuel (suc n) zero (suc a) b p q = absurd (omega arith)
or_digits_fuel (suc n) (suc m) zero b p q = refl
or_digits_fuel (suc n) (suc m) (suc a) b p q =
    omega (arith, or_digits_fuel n m (suc a / 2) (b / 2) (omega arith) (omega arith))

zero-bit_or : (b : ℕ) → bit_or 0 b ≡ b
zero-bit_or b = bit_or-bitwise 0 b

bit_or_step : (a b : ℕ) → bit_or a b ≡ bit_or (a / 2) (b / 2) * 2 + max (a % 2) (b % 2)
bit_or_step zero b = omega (arith, zero-bit_or b, zero-bit_or (b / 2))
bit_or_step (suc a) b = omega (
  arith,
  bit_or-bitwise (suc a) b,
  bit_or-bitwise (suc a / 2) (b / 2),
  or_digits_fuel a (suc a / 2) (suc a / 2) (b / 2) (omega arith) (omega arith),
)

bit_or-zero_fuel : (n a : ℕ) → a ≤ n → bit_or a 0 ≡ a
bit_or-zero_fuel n zero h = zero-bit_or 0
bit_or-zero_fuel zero (suc a) h = absurd (omega arith)
bit_or-zero_fuel (suc n) (suc a) h =
    omega (arith, bit_or_step (suc a) 0, bit_or-zero_fuel n (suc a / 2) (omega arith))

half-double : (a : ℕ) → a * 2 / 2 ≡ a
half-double a = omega arith

double-bit_or : (a b : ℕ) → bit_or (a * 2) b ≡ bit_or a (b / 2) * 2 + b % 2
double-bit_or a b =
    omega (arith, bit_or_step (a * 2) b, ap (λ (n : ℕ). bit_or n (b / 2)) (half-double a))

shift-suc : (h k : ℕ) → h * 2 ^ suc k ≡ h * 2 ^ k * 2
shift-suc h k = omega (arith, ap (λ (n : ℕ). h * n) (pow-suc 2 k))

-- Where the low word fits below the shift, `|` is a sum.
bit_or-shifted : (k h l : ℕ) → l < 2 ^ k → bit_or (h * 2 ^ k) l ≡ h * 2 ^ k + l
bit_or-shifted zero h zero p = omega (arith, bit_or-zero_fuel (h * 1) (h * 1) (omega arith))
bit_or-shifted zero h (suc l) p = absurd (omega arith)
bit_or-shifted (suc k) h l p = rw (shift-suc h k) (
    omega
      (arith, double-bit_or (h * 2 ^ k) l, bit_or-shifted k h (l / 2) (omega (arith, pow-suc 2 k))))

-- Where both words fit, merging is a sum.
pub u64_merge_bits_lem :
    (high low : ℕ) → high < 2 ^ 32 → low < 2 ^ 32 → u64_merge_bits high low ≡ high * 2 ^ 32 + low
unfolding u64_merge_bits
u64_merge_bits_lem high low p q =
    rw (let e : high * 2 ^ 32 % 2 ^ 64 ≡ high * 2 ^ 32 = omega arith in e)
      (bit_or-shifted 32 high low q)

u32_merge_bits_lem :
    (high low : ℕ) → high < 2 ^ 16 → low < 2 ^ 16 → u32_merge_bits high low ≡ high * 2 ^ 16 + low
unfolding u32_merge_bits
u32_merge_bits_lem high low p q =
    rw (let e : high * 2 ^ 16 % 2 ^ 32 ≡ high * 2 ^ 16 = omega arith in e)
      (bit_or-shifted 16 high low q)

-- Splitting a merged pair of words of 32 bits gives the pair back.
pub u64_split-merge :
    (high low : ℕ)
    → high < 2 ^ 32
    → low < 2 ^ 32
    → u64_split_bits (u64_merge_bits high low) ≡ (high, low)
unfolding u64_split_bits
u64_split-merge high low p q = ground (arith, u64_merge_bits_lem high low p q)

-- Merging the halves of a word of 64 bits gives the word back.
pub u64_merge-split :
    (i : ℕ) → i < 2 ^ 64 → u64_merge_bits (u64_split_bits i).0 (u64_split_bits i).1 ≡ i
unfolding u64_split_bits
u64_merge-split i p =
    omega (arith, u64_merge_bits_lem (i / 2 ^ 32 % 2 ^ 32) (i % 2 ^ 32) (omega arith) (omega arith))

-- Splitting and merging are inverse for words of 32 bits, in both directions.
pub u32_split-merge_iff :
    (high low i : ℕ)
    → high < 2 ^ 16
    → low < 2 ^ 16
    → i < 2 ^ 32
    → (u32_split_bits (u32_merge_bits high low) ≡ (high, low))
      × (u32_merge_bits (u32_split_bits i).0 (u32_split_bits i).1 ≡ i)
unfolding u32_split_bits
u32_split-merge_iff high low i p q r = (
  ground (arith, u32_merge_bits_lem high low p q),
  omega (arith, u32_merge_bits_lem (i / 2 ^ 16 % 2 ^ 16) (i % 2 ^ 16) (omega arith) (omega arith)),
)
