-- ===== src/WasmMemory/Text/Reads.antt =====
-- What a read gives back of what was written.
use holochain_rust.Prelude.{
  length, ok, ℕ, zero, suc, ◌+◌, ◌-◌, ◌%◌, ◌^◌, ◌≤◌, ◌<◌, ◌≡◌, refl, sym, ap, ◌∙◌, ◌≢◌, ◌⊎◌, inl,
  inr, some, List, [], ◌∷◌, arith, nat_eq,
}
use holochain_rust.WasmMemory.Text.{
  Memory, store, write_bytes, write_string, WasmState, read_to_string, read_str_raw,
}
use holochain_rust.WasmMemory.Allocation.{WasmAllocation}
use holochain_rust.WasmMemory.Stack.{WasmStack}
use holochain_rust.WasmMemory.Bits.{u32_max}

-- The bytes stand in memory from an address on.
abbrev pub HasBytes : Memory → ℕ → List ℕ → Type 0
HasBytes m p [] = Unit
HasBytes m p (b ∷ bs) = (m p ≡ b) × HasBytes m (p + 1) bs

abbrev pub NonZero : List ℕ → Type 0
NonZero [] = Unit
NonZero (b ∷ bs) = (0 < b) × NonZero bs

-- A memory outside of a range is as it was.
abbrev pub SameOutside : Memory → Memory → ℕ → ℕ → Type 0
SameOutside m m' lo hi = (q : ℕ) → (q < lo) ⊎ (hi ≤ q) → m' q ≡ m q

write_bytes_lem :
    (bs : List ℕ) (m : Memory) (p i n : ℕ)
    → i + length bs ≤ n
    → (m' : Memory) × (write_bytes m p i n bs ≡ some m')
      × HasBytes m' (p + i) bs
      × SameOutside m m' (p + i) (p + i + length bs)
unfolding write_bytes
write_bytes_lem [] m p i n h = (m, refl, tt, λ q out. refl)
write_bytes_lem (b ∷ bs) m p i n h =
    let (m', written, has, same) =
      write_bytes_lem bs (store m (p + i) b) p (i + 1) n (omega arith) in
    let shifted : p + i + 1 ≡ p + (i + 1) = omega arith in
    (
      m',
      ground arith,
      (ground (arith, same (p + i) (inl (omega arith))), rw shifted has),
      λ q out. elim out [
        | inl below ↦ ground (arith, same q (inl (omega arith)))
        | inr above ↦ ground (arith, same q (inr (omega arith)))
      ],
    )

read_str_raw_lem :
    (bs : List ℕ) (fuel : ℕ) (m : Memory) (p : ℕ)
    → length bs < fuel
    → NonZero bs
    → HasBytes m p bs
    → m (p + length bs) ≡ 0
    → read_str_raw fuel m p ≡ some bs
unfolding read_str_raw
read_str_raw_lem bs zero m p h nz has z = absurd (omega arith)
read_str_raw_lem [] (suc fuel) m p h nz has z =
    let here : m p ≡ 0 = ap m (let e : p ≡ p + 0 = omega arith in e) ∙ z in ground arith
read_str_raw_lem (b ∷ bs) (suc fuel) m p h nz has z =
    let next : m (p + 1 + length bs) ≡ 0 =
      ap m (let e : p + 1 + length bs ≡ p + suc (length bs) = omega arith in e) ∙ z in
    ground (arith, read_str_raw_lem bs fuel m (p + 1) (omega arith) nz.1 has.1 next)

-- A read that stops at the length of the bytes has met a zero there.
read_str_raw-stops :
    (bs : List ℕ) (fuel : ℕ) (m : Memory) (p : ℕ)
    → read_str_raw fuel m p ≡ some bs
    → m (p + length bs) ≡ 0
unfolding read_str_raw
read_str_raw-stops bs zero m p e = cc
read_str_raw-stops [] (suc fuel) m p e =
    let here : m p ≡ 0 = ground arith in ap m (let d : p + 0 ≡ p = omega arith in d) ∙ here
read_str_raw-stops (b ∷ bs) (suc fuel) m p e =
    let tail : read_str_raw fuel m (p + 1) ≡ some bs = ground arith in
    ap m (let d : p + suc (length bs) ≡ p + 1 + length bs = omega arith in d)
    ∙ read_str_raw-stops bs fuel m (p + 1) tail

abbrev pub allocated : WasmStack → List ℕ → WasmAllocation
allocated s bytes = record { offset = s.top; length = length bytes }

-- A string that is not empty and fits in the memory above the top is written there: the result is
-- the allocation of exactly its bytes, the new top is their end, they stand in memory, and all
-- else in memory is as it was.
pub write_string_lem :
    (s : WasmState) (bytes : List ℕ)
    → 0 < length bytes
    → s.stack.top + length bytes ≤ u32_max
    → (t : WasmState) × (write_string s bytes ≡ some (ok (allocated s.stack bytes), t))
      × (t.stack.top ≡ s.stack.top + length bytes)
      × HasBytes t.memory s.stack.top bytes
      × SameOutside s.memory t.memory s.stack.top (s.stack.top + length bytes)
unfolding write_string
write_string_lem s bytes p q =
    let (m', written, has, same) =
      write_bytes_lem bytes s.memory s.stack.top 0 (length bytes) (omega arith) in
    let fits : length bytes % 2 ^ 32 ≡ length bytes = omega arith in
    let start : s.stack.top + 0 ≡ s.stack.top = omega arith in
    (
      record { stack = record { top = s.stack.top + length bytes }; memory = m' },
      rw fits (ground (arith, written)),
      refl,
      rw start at has,
      rw start at same,
    )

-- Where the byte after a string is zero, and the string has no zero byte, reading the allocation
-- gives back what was written.
pub read-write :
    (s t : WasmState) (bytes : List ℕ) (a : WasmAllocation)
    → 0 < length bytes
    → s.stack.top + length bytes ≤ u32_max
    → NonZero bytes
    → s.memory (s.stack.top + length bytes) ≡ 0
    → write_string s bytes ≡ some (ok a, t)
    → read_to_string t.memory a ≡ some bytes
unfolding read_to_string
read-write s t bytes a p q nz z e =
    let (t', run, top, has, same) = write_string_lem s bytes p q in
    let place : a ≡ allocated s.stack bytes = cc (run, e) in
    let written : t ≡ t' = cc (run, e) in
    rw (place, written)
      (read_str_raw_lem bytes (2 ^ 32 - s.stack.top) t'.memory s.stack.top (omega arith) nz has
        (same (s.stack.top + length bytes) (inr (omega arith)) ∙ z))

-- Where the byte after the string is not zero, as it is over memory that was used before, reading
-- the allocation never gives back what was written.
pub read-write_stale :
    (s t : WasmState) (bytes : List ℕ) (a : WasmAllocation)
    → 0 < length bytes
    → s.stack.top + length bytes ≤ u32_max
    → s.memory (s.stack.top + length bytes) ≢ 0
    → write_string s bytes ≡ some (ok a, t)
    → read_to_string t.memory a ≢ some bytes
unfolding read_to_string
read-write_stale s t bytes a p q z e r =
    let (t', run, top, has, same) = write_string_lem s bytes p q in
    let place : a ≡ allocated s.stack bytes = cc (run, e) in
    let written : t ≡ t' = cc (run, e) in
    let read : read_to_string t'.memory (allocated s.stack bytes) ≡ some bytes =
      rw (place, written) at r in
    z (
      sym (same (s.stack.top + length bytes) (inr (omega arith)))
      ∙ read_str_raw-stops bytes (2 ^ 32 - s.stack.top) t'.memory s.stack.top read)
