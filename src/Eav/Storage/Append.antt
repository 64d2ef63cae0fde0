-- ===== src/Eav/Storage/Append.antt =====
-- The store only grows: what an addition does to the items, and that it ends.
use holochain_rust.Prelude.{
  ltb, leb, nat_beq, if◌then◌else◌, nat_beq_iff, Bool-cases, ◌==◌, length, Member, here, there, ok,
  err, ℕ, zero, suc, ◌+◌, ◌^◌, ◌≤◌, ◌<◌, ◌≡◌, refl, sym, ◌≢◌, ◌↔◌, ◌⊎◌, inl, inr, true, false, some,
  List, [], ◌∷◌, arith, Member-cons, nat_eq,
}
use holochain_rust.Eav.Eavi.{Eavi, next_index, set_insert}
use holochain_rust.Eav.Storage.{
  increment_fuel, occupied, increment_key_till_no_collision, fetch_eavi, add_eavi, EavMemoryStorage,
}
use holochain_rust.CoreTypes.Errors.{poison_error}
use holochain_rust.Eav.Sorted.{IsSorted, set_insert-IsSorted}
use holochain_rust.Eav.Query.{EaviQuery}

-- how many items have an index from `i` on
abbrev count_from : ℕ → List Eavi → ℕ
count_from i [] = 0
count_from i (x ∷ xs) = let rest = count_from i xs in if leb i x.index then suc rest else rest

count_from-le : (i : ℕ) (l : List Eavi) → count_from i l ≤ length l
count_from-le i [] = omega arith
count_from-le i (x ∷ xs) = ground (arith, count_from-le i xs)

count_from-suc : (i : ℕ) (l : List Eavi) → count_from (i + 1) l ≤ count_from i l
count_from-suc i [] = omega arith
count_from-suc i (x ∷ xs) = ground (arith, count_from-suc i xs)

count_from-occupied :
    (i : ℕ) (l : List Eavi) → occupied l i ≡ true → count_from (i + 1) l < count_from i l
count_from-occupied i [] h = cc
count_from-occupied i (x ∷ xs) h = elim (Bool-cases (x.index == i)) [
  | inl eq ↦ ground (arith, count_from-suc i xs)
  | inr ne ↦ ground (arith, count_from-occupied i xs)
]

-- The outcome of the search for a free index: only the index has changed, the index is free, and
-- every index from the given one up to it is taken.
pub record Placed (e : Eavi) (l : List Eavi) (r : Eavi) : Type 0 where
  pub entity : r.entity ≡ e.entity
  pub attribute : r.attribute ≡ e.attribute
  pub value : r.value ≡ e.value
  pub free : occupied l r.index ≡ false
  pub not_below : e.index ≤ r.index
  pub first : (j : ℕ) → e.index ≤ j → j < r.index → occupied l j ≡ true

first_step :
    (l : List Eavi) (i next r : ℕ)
    → next ≡ i + 1
    → occupied l i ≡ true
    → ((j : ℕ) → next ≤ j → j < r → occupied l j ≡ true)
    → (j : ℕ) → i ≤ j
    → j < r
    → occupied l j ≡ true
first_step l i next r n h later j a b = elim (Bool-cases (nat_beq i j)) [
  | inl eq ↦ rw (sym ((nat_beq_iff i j).0 eq)) h
  | inr ne ↦ later j (ground arith) b
]

increment_fuel_lem :
    (fuel : ℕ) (e : Eavi) (l : List Eavi)
    → count_from e.index l < fuel
    → e.index + fuel < 2 ^ 64
    → (r : Eavi) × (increment_fuel fuel e l ≡ some r) × Placed e l r
unfolding increment_fuel
increment_fuel_lem zero e l h w = absurd (omega arith)
increment_fuel_lem (suc fuel) e l h w = elim (Bool-cases (occupied l e.index)) [
  | inr free ↦ (
    e,
    rw free,
    record {
      entity = refl;
      attribute = refl;
      value = refl;
      free = free;
      not_below = omega arith;
      first = λ j a b. absurd (omega arith);
    },
  )
  | inl taken ↦
      let next : next_index e.index ≡ e.index + 1 = omega arith in
      let e' : Eavi = record e { index = next_index e.index } in
      let fewer : count_from (next_index e.index) l < fuel =
        rw next (omega (arith, count_from-occupied e.index l taken)) in
      let (r, run, p) = increment_fuel_lem fuel e' l fewer (omega arith) in
      (
        r,
        rw taken run,
        record {
          entity = p.entity;
          attribute = p.attribute;
          value = p.value;
          free = p.free;
          not_below = omega (arith, p.not_below);
          first = first_step l e.index (next_index e.index) r.index next taken p.first;
        },
      )
]

-- The search for an index ends if the indices do not run out: with fuel for one step more than the
-- store has items it finds the first free index from the given one on, and more fuel changes
-- nothing.
pub increment_total :
    (e : Eavi) (l : List Eavi)
    → e.index + suc (length l) < 2 ^ 64
    → (increment_fuel (suc (length l)) e l ≡ some (increment_key_till_no_collision e l))
      × Placed e l (increment_key_till_no_collision e l)
unfolding increment_key_till_no_collision
increment_total e l w =
    let enough : count_from e.index l < suc (length l) = omega (arith, count_from-le e.index l) in
    let (r, run, p) = increment_fuel_lem (suc (length l)) e l enough w in rw run (refl, p)

not_occupied : {y : Eavi} {i : ℕ} {l : List Eavi} → Member y l → occupied l i ≡ false → y.index ≢ i
not_occupied here f e = ground arith
not_occupied {y} {i} (there {y = z} {xs} m) f e = not_occupied m (ground arith) e

set_insert_cases :
    (e x : Eavi) (xs : List Eavi)
    → (set_insert e (x ∷ xs) ≡ e ∷ x ∷ xs)
      ⊎ ((x.index ≡ e.index) × (set_insert e (x ∷ xs) ≡ x ∷ xs))
      ⊎ (set_insert e (x ∷ xs) ≡ x ∷ set_insert e xs)
unfolding set_insert
set_insert_cases e x xs = elim (Bool-cases (ltb e.index x.index)) [
  | inl lt ↦ inl (rw lt)
  | inr nlt ↦ elim (Bool-cases (e.index == x.index)) [
    | inl eq ↦ inr (inl (sym ((nat_beq_iff _ _).0 eq), ground arith))
    | inr ne ↦ inr (inr (ground arith))
  ]
]

pub Member-set_insert_old : (y e : Eavi) (l : List Eavi) → Member y l → Member y (set_insert e l)
Member-set_insert_old y e [] m = elim m [ ]
Member-set_insert_old y e (x ∷ xs) m = elim (set_insert_cases e x xs) [
  | inl q ↦ rw q (there m)
  | inr (inl q) ↦ rw q.1 m
  | inr (inr q) ↦ rw q (elim (Member-cons m) [
    | inl same ↦ rw same here
    | inr n ↦ there (Member-set_insert_old y e xs n)
  ])
]

Member-set_insert_new :
    (e : Eavi) (l : List Eavi) → occupied l e.index ≡ false → Member e (set_insert e l)
unfolding set_insert
Member-set_insert_new e [] f = here
Member-set_insert_new e (x ∷ xs) f = elim (set_insert_cases e x xs) [
  | inl q ↦ rw q here
  | inr (inl q) ↦ absurd (not_occupied {l = x ∷ xs} here f q.0)
  | inr (inr q) ↦ rw q (there (Member-set_insert_new e xs (ground arith)))
]

set_insert-Member : (y e : Eavi) (l : List Eavi) → Member y (set_insert e l) → Member y l ⊎ (y ≡ e)
unfolding set_insert
set_insert-Member y e [] m = elim (Member-cons m) [ inl same ↦ inr same | inr n ↦ inl n ]
set_insert-Member y e (x ∷ xs) m = elim (set_insert_cases e x xs) [
  | inl q ↦ elim (Member-cons (rw q at m)) [ inl same ↦ inr same | inr n ↦ inl n ]
  | inr (inl q) ↦ inl (rw q.1 at m)
  | inr (inr q) ↦ elim (Member-cons (rw q at m)) [
    | inl same ↦ inl (rw same here)
    | inr n ↦ elim (set_insert-Member y e xs n) [ inl old ↦ inl (there old) | inr new ↦ inr new ]
  ]
]

-- Adding an item to a store that is not poisoned and whose indices do not run out succeeds. It
-- returns the item that was stored, which differs from the one given at most in its index, the
-- first free one from the given one on. The store keeps its invariant, and has exactly its old
-- items and the new one.
pub add_eavi_lem :
    (s : EavMemoryStorage) (e : Eavi)
    → s.poisoned ≡ false
    → IsSorted s.storage
    → e.index + suc (length s.storage) < 2 ^ 64
    → (r : Eavi) × (t : EavMemoryStorage) × (add_eavi s e ≡ (ok (some r), t))
      × Placed e s.storage r
      × IsSorted t.storage
      × (t.poisoned ≡ false)
      × ((y : Eavi) → Member y t.storage ↔ (Member y s.storage ⊎ (y ≡ r)))
unfolding add_eavi
add_eavi_lem s e p sorted w =
    let (found, placed) = increment_total e s.storage w in
    let r : Eavi = increment_key_till_no_collision e s.storage in
    (
      r,
      record s { storage = set_insert r s.storage },
      ground arith,
      placed,
      set_insert-IsSorted r s.storage sorted,
      p,
      λ y. (
        set_insert-Member y r s.storage,
        λ d. elim d [
          | inl old ↦ Member-set_insert_old y r s.storage old
          | inr new ↦ rw new (Member-set_insert_new r s.storage placed.free)
        ],
      ),
    )

-- On a poisoned lock neither operation does anything but fail.
pub poisoned_refused :
    (s : EavMemoryStorage) (e : Eavi) (q : EaviQuery)
    → s.poisoned ≡ true
    → (add_eavi s e ≡ (err poison_error, s)) × (fetch_eavi s q ≡ err poison_error)
unfolding add_eavi fetch_eavi
poisoned_refused s e q p = (rw p, rw p)
