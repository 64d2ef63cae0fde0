-- ===== src/WasmMemory/Stack/Discipline.antt =====
-- The allocator is a stack: what is allocated lies between the old top and the new one, and
-- deallocation undoes the last allocation and nothing else.
use holochain_rust.Prelude.{length, ok, err, ℕ, ◌+◌, ◌≤◌, ◌<◌, ◌≡◌, refl, arith}
use holochain_rust.WasmMemory.Bits.{u32_max}
use holochain_rust.WasmMemory.Allocation
use holochain_rust.WasmMemory.Allocation.{
  out_of_bounds, zero_length, bad_stack_alignment, WasmAllocation,
}
use holochain_rust.WasmMemory.Stack.{WasmStack, next_allocation, allocate, deallocate}

pub record IsValid (a : WasmAllocation) : Type 0 where
  pub nonempty : 0 < a.length
  pub in_memory : a.offset + a.length ≤ u32_max

-- What `WasmAllocation::new` accepts is a valid allocation of the offset and the length given.
pub new-IsValid :
    (offset length : ℕ) {a : WasmAllocation}
    → Allocation.new offset length ≡ ok a
    → IsValid a × (a.offset ≡ offset) × (a.length ≡ length)
unfolding Allocation.new
new-IsValid offset length h = ground arith

-- Every valid allocation is accepted; the other requests have the error of their kind.
pub new_complete :
    (a : WasmAllocation)
    → (IsValid a → Allocation.new a.offset a.length ≡ ok a)
      × (u32_max < a.offset + a.length → Allocation.new a.offset a.length ≡ err out_of_bounds)
      × (a.offset ≤ u32_max → a.length ≡ 0 → Allocation.new a.offset a.length ≡ err zero_length)
unfolding Allocation.new
new_complete a = (λ v. ground arith, λ h. ground arith, λ h e. ground arith)

-- A request that is not empty and fits in memory above the top is granted: the allocation starts
-- at the old top, which is what `allocate` returns, and the new top is its end.
next-allocate :
    (s : WasmStack) (n : ℕ)
    → 0 < n
    → s.top + n ≤ u32_max
    → (a : WasmAllocation) × (next_allocation s n ≡ ok a)
      × (allocate s a ≡ (ok s.top, record { top = s.top + n }))
      × (a.offset ≡ s.top)
      × (a.length ≡ n)
unfolding next_allocation allocate
next-allocate s n p q =
    (record { offset = s.top; length = n }, ground arith, ground arith, refl, refl)

-- Deallocation of what was just allocated restores the stack.
pub deallocate-allocate :
    (s t : WasmStack) (a : WasmAllocation) {old : ℕ}
    → IsValid a
    → allocate s a ≡ (ok old, t)
    → deallocate t a ≡ (ok t.top, s)
unfolding allocate deallocate
deallocate-allocate s t a v h = ground arith

-- An allocation that does not end at the top cannot be freed, and one that does not start there
-- cannot be made; the stack stays as it was.
pub misaligned_refused :
    (s : WasmStack) (a : WasmAllocation)
    → IsValid a
    → (s.top ≡ a.offset → ⊥)
    → (s.top ≡ a.offset + a.length → ⊥)
    → (allocate s a ≡ (err bad_stack_alignment, s))
      × (deallocate s a ≡ (err bad_stack_alignment, s))
unfolding allocate deallocate
misaligned_refused s a v p q = (ground arith, ground arith)
