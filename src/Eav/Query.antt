-- ===== src/Eav/Query.antt =====
-- core_types/src/eav/query.rs: filters and the run of a query over the items of a store.
pub mod Latest
pub mod Newest
use holochain_rust.Eav.Eavi.{collect}
use holochain_rust.Prelude.{
  leb, Eq, ◌==◌, keep, any, last?, ℕ, String, Bool, true, false, ◌&&◌, Option, none, some, List,
  string_eq, nat_eq,
}
use holochain_rust.Eav.Attribute.{attribute_eq, Attribute}
use holochain_rust.Eav.Eavi.{collect_from, Eavi}

abbrev pub EavFilter : Type 0 → Type 0
EavFilter T = T → Bool

abbrev pub single {ℓ} : {T : Type ℓ} ⦃e : Eq T⦄ → T → T → Bool
single val = λ v. v == val

abbrev pub multiple {ℓ} : {T : Type ℓ} ⦃e : Eq T⦄ → List T → T → Bool
multiple vals = λ val. any (λ v. v == val) vals

abbrev pub no_filter {ℓ} : {T : Type ℓ} → T → Bool
no_filter = λ _. true

-- `impl From<Option<T>> for EavFilter`
abbrev pub from_option {ℓ} : {T : Type ℓ} ⦃e : Eq T⦄ → Option T → T → Bool
from_option none = no_filter
from_option (some val) = single val

pub data IndexFilter : Type 0 where
  latest_by_attribute : IndexFilter
  range : Option ℕ → Option ℕ → IndexFilter

pub record EaviQuery : Type 0 where
  pub entity : EavFilter String
  pub attribute : EavFilter Attribute
  pub value : EavFilter String
  pub index : IndexFilter

unfoldable pub eav_check : Eavi → EavFilter String → EavFilter Attribute → EavFilter String → Bool
eav_check x e a v = e x.entity && a x.attribute && v x.value

-- `.map(|latest| latest.index() == eavi.index()).unwrap_or(false)`
abbrev pub same_index : Option Eavi → Eavi → Bool
same_index none x = false
same_index (some latest) x = latest.index == x.index

-- The test of `IndexFilter::LatestByAttribute`
unfoldable pub is_latest : EavFilter Attribute → List Eavi → Eavi → Bool
unfolding eav_check
is_latest attribute items x =
    same_index (last? (keep (λ i. eav_check i (single x.entity) attribute (single x.value)) items))
      x

-- `bound.map(|b| …).unwrap_or(true)`
abbrev pub at_least : Option ℕ → ℕ → Bool
at_least none i = true
at_least (some lo) i = leb lo i

abbrev pub at_most : Option ℕ → ℕ → Bool
at_most none i = true
at_most (some hi) i = leb i hi

unfoldable pub index_check : IndexFilter → EavFilter Attribute → List Eavi → Eavi → Bool
unfolding is_latest
index_check latest_by_attribute attribute items x = is_latest attribute items x
index_check (range start end) attribute items x = at_least start x.index && at_most end x.index

-- `EaviQuery::run`
unfoldable pub run : EaviQuery → List Eavi → List Eavi
unfolding eav_check index_check collect_from
run q items = collect (
    keep (index_check q.index q.attribute items)
      (keep (λ x. eav_check x q.entity q.attribute q.value) items))
