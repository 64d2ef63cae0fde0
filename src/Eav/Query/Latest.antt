-- ===== src/Eav/Query/Latest.antt =====
-- What a query returns, without reference to how it is computed.
use holochain_rust.Prelude.{
  keep, last?, Member, here, there, ℕ, ◌≤◌, String, ◌≡◌, refl, ◌↔◌, Bool, true, ◌&&◌, Option, none,
  some, List, [], ◌∷◌, arith, eq_iff, Member-keep, keep-Member, string_eq, nat_eq,
}
use holochain_rust.Eav.Query.{
  run, single, latest_by_attribute, at_most, index_check, at_least, is_latest, eav_check, EaviQuery,
  EavFilter, range,
}
use holochain_rust.Eav.Attribute.{Attribute}
use holochain_rust.Eav.Eavi.{Eavi}
use holochain_rust.Eav.Sorted.{collect_lem, keep-IsSorted, IsSorted}

pub last?-Member : {m : Eavi} (l : List Eavi) → last? l ≡ some m → Member m l
last?-Member [] e = cc
last?-Member {m} (x ∷ []) e = let same : m ≡ x = cc in rw same here
last?-Member (x ∷ (y ∷ ys)) e = there (last?-Member (y ∷ ys) e)

pub last?-some : {e : Eavi} (l : List Eavi) → Member e l → (m : Eavi) × (last? l ≡ some m)
last?-some [] m = elim m [ ]
last?-some (x ∷ []) m = (x, refl)
last?-some (x ∷ (y ∷ ys)) m = last?-some (y ∷ ys) here

pub last?-max :
    {e m : Eavi} (l : List Eavi) → IsSorted l → last? l ≡ some m → Member e l → e.index ≤ m.index
last?-max [] s h me = elim me [ ]
last?-max {e} {m} (x ∷ []) s h here = let same : m ≡ x = cc in rw same (omega arith)
last?-max (x ∷ []) s h (there n) = elim n [ ]
last?-max (x ∷ (y ∷ ys)) s h here = omega (arith, s.0.0, last?-max (y ∷ ys) s.1 h here)
last?-max (x ∷ (y ∷ ys)) s h (there n) = last?-max (y ∷ ys) s.1 h n

-- No item with the entity and the value of `x` and an attribute that passes has a greater index.
abbrev pub IsLatest : EavFilter Attribute → List Eavi → Eavi → Type 0
IsLatest attribute items x =
    (y : Eavi)
    → Member y items
    → y.entity ≡ x.entity
    → y.value ≡ x.value
    → attribute y.attribute ≡ true
    → y.index ≤ x.index

-- the items that compete with `x`
abbrev pub rivals : EavFilter Attribute → Eavi → Eavi → Bool
rivals attribute x = λ i. eav_check i (single x.entity) attribute (single x.value)

pub rivals_iff :
    (attribute : EavFilter Attribute) (x y : Eavi)
    → (rivals attribute x y ≡ true)
      ↔ ((y.entity ≡ x.entity) × (attribute y.attribute ≡ true) × (y.value ≡ x.value))
unfolding eav_check
rivals_iff attribute x y = (
  λ h. (
    (eq_iff y.entity x.entity).0 (ground arith),
    ground arith,
    (eq_iff y.value x.value).0 (ground arith),
  ),
  λ (e, a, v). ground (arith, eq_iff y.entity x.entity, eq_iff y.value x.value),
)

-- the items that compete with `x`, in their order
abbrev pub rival_list : EavFilter Attribute → List Eavi → Eavi → List Eavi
rival_list attribute items x = keep (rivals attribute x) items

module _ (attribute : EavFilter Attribute) (items : List Eavi) (x : Eavi) (sorted : IsSorted items)
    (among : Member x items) (passes : attribute x.attribute ≡ true) where
  own_rival : Member x (rival_list attribute items x)
  own_rival =
      Member-keep (rivals attribute x) x items among
        ((rivals_iff attribute x x).1 (refl, passes, refl))

  IsLatest-sound : is_latest attribute items x ≡ true → IsLatest attribute items x
  unfolding is_latest
  IsLatest-sound h y my e v a =
      let (m, lm) = last?-some (rival_list attribute items x) own_rival in
      let rival =
        Member-keep (rivals attribute x) y items my ((rivals_iff attribute x y).1 (e, a, v)) in
      let top = last?-max (rival_list attribute items x) (keep-IsSorted _ items sorted) lm rival in
      ground arith

  latest_complete : IsLatest attribute items x → is_latest attribute items x ≡ true
  unfolding is_latest
  latest_complete h =
      let (m, lm) = last?-some (rival_list attribute items x) own_rival in
      let (mm, rm) =
        keep-Member (rivals attribute x) m items (last?-Member (rival_list attribute items x) lm) in
      let (e, a, v) = (rivals_iff attribute x m).0 rm in
      let below = h m mm e v a in
      let above =
        last?-max (rival_list attribute items x) (keep-IsSorted _ items sorted) lm own_rival in
      ground arith

abbrev pub Matches : EaviQuery → Eavi → Type 0
Matches q x =
    (q.entity x.entity ≡ true) × (q.attribute x.attribute ≡ true) × (q.value x.value ≡ true)

Matches-iff :
    (q : EaviQuery) (x : Eavi) → (eav_check x q.entity q.attribute q.value ≡ true) ↔ Matches q x
unfolding eav_check
Matches-iff q x = (λ h. (ground arith, ground arith, ground arith), λ (a, b, c). ground arith)

abbrev selected : EaviQuery → List Eavi → List Eavi
selected q items =
    keep (index_check q.index q.attribute items)
      (keep (λ x. eav_check x q.entity q.attribute q.value) items)

pub run_lem : (q : EaviQuery) (items : List Eavi) → IsSorted items → run q items ≡ selected q items
unfolding run
run_lem q items s = collect_lem _ (keep-IsSorted _ _ (keep-IsSorted _ items s))

Member-run_iff :
    (q : EaviQuery) (items : List Eavi) (x : Eavi)
    → IsSorted items
    → Member x (run q items)
      ↔ (Member x items × Matches q x × (index_check q.index q.attribute items x ≡ true))
Member-run_iff q items x s = rw (run_lem q items s) (
  λ m.
      let (n, i) = keep-Member (index_check q.index q.attribute items) x _ m in
      let (k, c) = keep-Member (λ x. eav_check x q.entity q.attribute q.value) x items n in
      (k, (Matches-iff q x).0 c, i),
  λ (k, c, i).
      Member-keep (index_check q.index q.attribute items) x _
        (Member-keep (λ x. eav_check x q.entity q.attribute q.value) x items k
          ((Matches-iff q x).1 c))
        i,
)

-- A query for the latest items returns exactly the items of the store that pass its three filters
-- and are the latest for their entity and value among those whose attribute passes.
pub run-IsLatest_iff :
    (e : EavFilter String) (a : EavFilter Attribute) (v : EavFilter String) (items : List Eavi)
    (x : Eavi)
    → IsSorted items
    → let q : EaviQuery = record {
      entity = e;
      attribute = a;
      value = v;
      index = latest_by_attribute;
    } in
      Member x (run q items) ↔ (Member x items × Matches q x × IsLatest a items x)
unfolding index_check
run-IsLatest_iff e a v items x s =
    let q : EaviQuery = record {
      entity = e;
      attribute = a;
      value = v;
      index = latest_by_attribute;
    } in
    let (to, from) = Member-run_iff q items x s in
    (
      λ m. let (k, c, i) = to m in (k, c, IsLatest-sound a items x s k c.1 i),
      λ (k, c, i). from (k, c, latest_complete a items x s k c.1 i),
    )

abbrev pub AtLeast : Option ℕ → ℕ → Type 0
AtLeast none i = Unit
AtLeast (some lo) i = lo ≤ i

abbrev pub AtMost : Option ℕ → ℕ → Type 0
AtMost none i = Unit
AtMost (some hi) i = i ≤ hi

within_iff :
    (start end : Option ℕ) (i : ℕ)
    → (at_least start i && at_most end i ≡ true) ↔ (AtLeast start i × AtMost end i)
within_iff none none i = (λ h. (tt, tt), λ h. refl)
within_iff none (some hi) i = (λ h. (tt, ground arith), λ h. ground arith)
within_iff (some lo) none i = (λ h. (ground arith, tt), λ h. ground arith)
within_iff (some lo) (some hi) i = (λ h. (ground arith, ground arith), λ h. ground arith)

-- A query for a range returns exactly the items that pass its filters and whose index lies within
-- the bounds given, both included; a bound left out does not restrict.
pub run_range_iff :
    (e : EavFilter String) (a : EavFilter Attribute) (v : EavFilter String) (start end : Option ℕ)
    (items : List Eavi) (x : Eavi)
    → IsSorted items
    → let q : EaviQuery = record {
      entity = e;
      attribute = a;
      value = v;
      index = range start end;
    } in
      Member x (run q items)
      ↔ (Member x items × Matches q x × AtLeast start x.index × AtMost end x.index)
unfolding index_check
run_range_iff e a v start end items x s =
    let q : EaviQuery = record { entity = e; attribute = a; value = v; index = range start end } in
    let (to, from) = Member-run_iff q items x s in
    (
      λ m.
          let (k, c, i) = to m in
          let (lo, hi) = (within_iff start end x.index).0 i in (k, c, lo, hi),
      λ (k, c, lo, hi). from (k, c, (within_iff start end x.index).1 (lo, hi)),
    )
