-- ===== src/Eav/Sorted.antt =====
-- The invariant of a `BTreeSet` of items: indices strictly ascend. What insertion and collection
-- do to it.
use holochain_rust.Eav.Eavi.{collect, Eavi, set_insert, collect_from}
use holochain_rust.Prelude.{
  ltb, ltb→lt, Bool-cases, ◌==◌, keep, All, Member, here, there, ℕ, ◌≤◌, ◌<◌, ◌≡◌, refl, ◌∙◌, inl,
  inr, Bool, List, [], ◌∷◌, ◌++◌, append-nil, append_assoc, arith, nat_eq,
}

-- every item lies above an index
abbrev pub Above : ℕ → List Eavi → Type 0
Above i = All (λ e. i < e.index)

abbrev pub IsSorted : List Eavi → Type 0
IsSorted [] = Unit
IsSorted (x ∷ xs) = Above x.index xs × IsSorted xs

pub Above-trans : (i j : ℕ) (l : List Eavi) → i ≤ j → Above j l → Above i l
Above-trans i j [] h a = tt
Above-trans i j (x ∷ xs) h a = (omega arith, Above-trans i j xs h a.1)

pub Above-Member : {i : ℕ} {e : Eavi} {l : List Eavi} → Member e l → Above i l → i < e.index
Above-Member here a = a.0
Above-Member (there m) a = Above-Member m a.1

Above-set_insert :
    (i : ℕ) (e : Eavi) (l : List Eavi) → i < e.index → Above i l → Above i (set_insert e l)
unfolding set_insert
Above-set_insert i e [] h a = (h, tt)
Above-set_insert i e (x ∷ xs) h a = elim (Bool-cases (ltb e.index x.index)) [
  | inl lt ↦ rw lt (h, a)
  | inr nlt ↦ rw nlt (elim (Bool-cases (e.index == x.index)) [
    | inl eq ↦ rw eq a
    | inr ne ↦ rw ne (a.0, Above-set_insert i e xs h a.1)
  ])
]

-- Insertion into a sorted list of items gives a sorted list.
pub set_insert-IsSorted : (e : Eavi) (l : List Eavi) → IsSorted l → IsSorted (set_insert e l)
unfolding set_insert
set_insert-IsSorted e [] s = (tt, tt)
set_insert-IsSorted e (x ∷ xs) s = elim (Bool-cases (ltb e.index x.index)) [
  | inl lt ↦
      rw lt ((ltb→lt _ _ lt, Above-trans e.index x.index xs (omega (arith, ltb→lt _ _ lt)) s.0), s)
  | inr nlt ↦ rw nlt (elim (Bool-cases (e.index == x.index)) [
    | inl eq ↦ rw eq s
    | inr ne ↦
        rw ne (Above-set_insert x.index e xs (ground arith) s.0, set_insert-IsSorted e xs s.1)
  ])
]

-- Inserting above everything appends.
set_insert-last :
    (e : Eavi) (l : List Eavi) → All (λ x. x.index < e.index) l → set_insert e l ≡ l ++ e ∷ []
unfolding set_insert
set_insert-last e [] a = refl
set_insert-last e (x ∷ xs) a = ground (arith, set_insert-last e xs a.1)

below_last :
    (acc : List Eavi) (x : Eavi) (xs : List Eavi)
    → IsSorted (acc ++ x ∷ xs)
    → All (λ e. e.index < x.index) acc
below_last [] x xs s = tt
below_last (a ∷ acc) x xs s = (Above-Member (in_middle acc) s.0, below_last acc x xs s.1)
  where
    in_middle : (l : List Eavi) → Member x (l ++ x ∷ xs)
    in_middle = elim [ [] ↦ here | y ∷ (ys → ih) ↦ there ih ]

-- Collecting what is sorted changes nothing.
collect_from-IsSorted :
    (acc xs : List Eavi) → IsSorted (acc ++ xs) → collect_from acc xs ≡ acc ++ xs
unfolding collect_from
collect_from-IsSorted acc [] s = rw append-nil
collect_from-IsSorted acc (x ∷ xs) s =
    rw (set_insert-last x acc (below_last acc x xs s))
      (collect_from-IsSorted (acc ++ x ∷ []) xs (rw append_assoc s) ∙ append_assoc acc (x ∷ []) xs)

pub collect_lem : (l : List Eavi) → IsSorted l → collect l ≡ l
collect_lem l s = collect_from-IsSorted [] l s

keep-Above : (p : Eavi → Bool) (i : ℕ) (l : List Eavi) → Above i l → Above i (keep p l)
keep-Above p i [] a = tt
keep-Above p i (x ∷ xs) a = elim (Bool-cases (p x)) [
  | inl yes' ↦ rw yes' (a.0, keep-Above p i xs a.1)
  | inr no' ↦ rw no' (keep-Above p i xs a.1)
]

pub keep-IsSorted : (p : Eavi → Bool) (l : List Eavi) → IsSorted l → IsSorted (keep p l)
keep-IsSorted p [] s = tt
keep-IsSorted p (x ∷ xs) s = elim (Bool-cases (p x)) [
  | inl yes' ↦ rw yes' (keep-Above p x.index xs s.0, keep-IsSorted p xs s.1)
  | inr no' ↦ rw no' (keep-IsSorted p xs s.1)
]

-- In a sorted list an index determines the item.
pub index_unique :
    {a b : Eavi} {l : List Eavi} → IsSorted l → Member a l → Member b l → a.index ≡ b.index → a ≡ b
index_unique s here here e = refl
index_unique s here (there m) e = absurd (omega (arith, Above-Member m s.0))
index_unique s (there m) here e = absurd (omega (arith, Above-Member m s.0))
index_unique s (there m) (there n) e = index_unique s.1 m n e
