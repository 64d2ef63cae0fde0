-- ===== src/Prelude/Lists.antt =====
-- Lists measured by native numbers, and predicates on lists by recursion.
use Prim.Native.Nat.{ℕ, zero, suc, ◌+◌, ◌≤◌}
use mathlib.Core.Path.{◌≡◌, refl}
use mathlib.Core.Bool.{Bool, true, false, ◌||◌}
use mathlib.Core.Logic.{◌⊎◌, inl, inr}
use mathlib.Core.List.{List, [], ◌∷◌, ◌++◌}
use mathlib.Core.Option.{Option, none, some}
use native.Mathlib.Omega.{arith}
use holochain_rust.Prelude.Tests.{if◌then◌else◌, Bool-cases}

module _ {ℓ} {A : Type ℓ} where
  abbrev pub length : List A → ℕ
  length [] = 0
  length (x ∷ xs) = suc (length xs)

  -- `iter.skip(n)`
  abbrev pub drop : ℕ → List A → List A
  drop zero xs = xs
  drop (suc n) [] = []
  drop (suc n) (x ∷ xs) = drop n xs

  -- `iter.take(n)`
  abbrev pub take : ℕ → List A → List A
  take zero xs = []
  take (suc n) [] = []
  take (suc n) (x ∷ xs) = x ∷ take n xs

  -- `iter.filter(p)`
  abbrev pub keep : (A → Bool) → List A → List A
  keep p [] = []
  keep p (x ∷ xs) = let rest = keep p xs in if p x then x ∷ rest else rest

  -- `iter.find(p)`
  abbrev pub find : (A → Bool) → List A → Option A
  find p [] = none
  find p (x ∷ xs) = if p x then some x else find p xs

  -- `iter.any(p)`
  abbrev pub any : (A → Bool) → List A → Bool
  any p [] = false
  any p (x ∷ xs) = p x || any p xs

  -- `iter.last()`
  abbrev pub last? : List A → Option A
  last? [] = none
  last? (x ∷ []) = some x
  last? (x ∷ (y ∷ ys)) = last? (y ∷ ys)

  -- `iter.next()` on a fresh iterator
  abbrev pub head? : List A → Option A
  head? [] = none
  head? (x ∷ xs) = some x

  pub length-append : (xs ys : List A) → length (xs ++ ys) ≡ length xs + length ys
  length-append [] ys = omega arith
  length-append (x ∷ xs) ys = omega (arith, length-append xs ys)

  pub length-keep : (p : A → Bool) (xs : List A) → length (keep p xs) ≤ length xs
  length-keep p [] = omega arith
  length-keep p (x ∷ xs) = ground (arith, length-keep p xs)

  pub find-eq-head?-keep : (p : A → Bool) (xs : List A) → find p xs ≡ head? (keep p xs)
  find-eq-head?-keep p [] = refl
  find-eq-head?-keep p (x ∷ xs) = ground (arith, find-eq-head?-keep p xs)

module _ {ℓ κ} {A : Type ℓ} (P : A → Type κ) where
  abbrev pub All : List A → Type κ
  All [] = Unit
  All (x ∷ xs) = P x × All xs

-- `Member x xs`: x occurs in xs. A type that is matched, not truncated.
module _ {ℓ} {A : Type ℓ} where
  pub data Member (x : A) : List A → Type ℓ where
    here : {xs : List A} → Member x (x ∷ xs)
    there : {y : A} {xs : List A} → Member x xs → Member x (y ∷ xs)

pub Member-keep {ℓ} :
    {A : Type ℓ} (p : A → Bool) (x : A) (l : List A) → Member x l → p x ≡ true → Member x (keep p l)
Member-keep p x [] m h = elim m [ ]
Member-keep p x (y ∷ l) here h = rw h here
Member-keep p x (y ∷ l) (there m) h = elim (Bool-cases (p y)) [
  | inl e ↦ rw e (there (Member-keep p x l m h))
  | inr e ↦ rw e (Member-keep p x l m h)
]

Member-cons_kept {ℓ} :
    {A : Type ℓ} (p : A → Bool) (x y : A) (l : List A)
    → p y ≡ true
    → (Member x (keep p l) → Member x l × (p x ≡ true))
    → Member x (y ∷ keep p l)
    → Member x (y ∷ l) × (p x ≡ true)
Member-cons_kept p x y l e ih here = (here, e)
Member-cons_kept p x y l e ih (there n) = let (n', h) = ih n in (there n', h)

pub keep-Member {ℓ} :
    {A : Type ℓ} (p : A → Bool) (x : A) (l : List A)
    → Member x (keep p l)
    → Member x l × (p x ≡ true)
keep-Member p x [] m = elim m [ ]
keep-Member p x (y ∷ l) m = elim (Bool-cases (p y)) [
  | inl e ↦ Member-cons_kept p x y l e (keep-Member p x l) (rw e at m)
  | inr e ↦ let (n, h) = keep-Member p x l (rw e at m) in (there n, h)
]

pub Member-cons {ℓ} : {A : Type ℓ} {x y : A} {l : List A} → Member y (x ∷ l) → (y ≡ x) ⊎ Member y l
Member-cons here = inl refl
Member-cons (there m) = inr m
