-- ===== src/Chain/Store/Consumers.antt =====
-- What the consumers of an iterator return, for an iterator that yields a given list.
use holochain_rust.Prelude.{
  length, drop, take, keep, find, head?, ℕ, zero, suc, ◌<◌, ◌≡◌, refl, Bool, Option, none, some,
  List, [], ◌∷◌, arith,
}
use holochain_rust.Chain.Store.{drain, search, page}
use holochain_rust.CoreTypes.Header.{ChainHeader}

abbrev pub Step : Type 0
Step = Option ChainHeader → Option (Option ChainHeader × Option ChainHeader)

-- From a current header on, the iterator returns these items one after the other, without a panic.
abbrev pub Yields : Step → Option ChainHeader → List ChainHeader → Type 0
Yields step current [] = (rest : Option ChainHeader) × (step current ≡ some (none, rest))
Yields step current (h ∷ hs) =
    (rest : Option ChainHeader) × (step current ≡ some (some h, rest)) × Yields step rest hs

pub drain_lem :
    (step : Step) (fuel : ℕ) (current : Option ChainHeader) (hs : List ChainHeader)
    → Yields step current hs
    → length hs < fuel
    → drain step fuel current ≡ some hs
unfolding drain
drain_lem step zero current hs y l = absurd (omega arith)
drain_lem step (suc fuel) current [] (rest, e) l = ground (arith, e)
drain_lem step (suc fuel) current (h ∷ hs) (rest, e, y) l =
    ground (arith, e, drain_lem step fuel rest hs y (omega arith))

pub search_lem :
    (step : Step) (fuel : ℕ) (p : ChainHeader → Bool) (current : Option ChainHeader)
    (hs : List ChainHeader)
    → Yields step current hs
    → length hs < fuel
    → search step fuel p current ≡ some (find p hs)
unfolding search
search_lem step zero p current hs y l = absurd (omega arith)
search_lem step (suc fuel) p current [] (rest, e) l = ground (arith, e)
search_lem step (suc fuel) p current (h ∷ hs) (rest, e, y) l =
    ground (arith, e, search_lem step fuel p rest hs y (omega arith))

drop_nil : (n : ℕ) → drop {A = ChainHeader} n [] ≡ []
drop_nil zero = refl
drop_nil (suc n) = refl

pub page_lem :
    (step : Step) (fuel : ℕ) (p : ChainHeader → Bool) (start limit : ℕ)
    (current : Option ChainHeader) (hs : List ChainHeader)
    → Yields step current hs
    → length hs < fuel
    → page step fuel p start limit current ≡ some (take limit (drop start (keep p hs)))
unfolding page
page_lem step fuel p start zero current hs y l = refl
page_lem step zero p start (suc limit) current hs y l = absurd (omega arith)
page_lem step (suc fuel) p start (suc limit) current [] (rest, e) l =
    ground (arith, e, drop_nil start)
page_lem step (suc fuel) p zero (suc limit) current (h ∷ hs) (rest, e, y) l = ground (
  arith,
  e,
  page_lem step fuel p 0 limit rest hs y (omega arith),
  page_lem step fuel p 0 (suc limit) rest hs y (omega arith),
)
page_lem step (suc fuel) p (suc n) (suc limit) current (h ∷ hs) (rest, e, y) l = ground (
  arith,
  e,
  page_lem step fuel p n (suc limit) rest hs y (omega arith),
  page_lem step fuel p (suc n) (suc limit) rest hs y (omega arith),
)

-- the first item, as `nth(0)` takes it
pub head_lem :
    (step : Step) (current : Option ChainHeader) (hs : List ChainHeader)
    → Yields step current hs
    → (rest : Option ChainHeader) × (step current ≡ some (head? hs, rest))
head_lem step current [] y = y
head_lem step current (h ∷ hs) (rest, e, y) = (rest, e)
