-- ===== src/Eav/Query/Newest.antt =====
-- A query for the latest items forgets no value.
use holochain_rust.Prelude.{
  keep, Member, String, ◌≡◌, refl, ◌∙◌, true, List, eq_iff, Member-keep, keep-Member, string_eq,
}
use holochain_rust.Eav.Query.{single, no_filter, latest_by_attribute, run, EavFilter, EaviQuery}
use holochain_rust.Eav.Query.Latest.{
  last?-max, run-IsLatest_iff, last?-some, last?-Member, IsLatest, rivals_iff, rivals,
}
use holochain_rust.Eav.Sorted.{IsSorted, keep-IsSorted}
use holochain_rust.Eav.Eavi.{Eavi}
use holochain_rust.Eav.Attribute.{Attribute}

module _ (address : String) (a : EavFilter Attribute) (items : List Eavi) (x : Eavi)
    (sorted : IsSorted items) (among : Member x items) (same : x.entity ≡ address)
    (passes : a x.attribute ≡ true) where
  abbrev pub latest_of : EaviQuery
  latest_of = record {
    entity = single address;
    attribute = a;
    value = no_filter;
    index = latest_by_attribute;
  }

  -- the latest item with the value of an item that passes
  pub run-newest : (y : Eavi) × Member y (run latest_of items) × (y.value ≡ x.value)
  run-newest =
      let rs = keep (rivals a x) items in
      let own =
        Member-keep (rivals a x) x items among ((rivals_iff a x x).1 (refl, passes, refl)) in
      let (m, last) = last?-some rs own in
      let (among_m, rival) = keep-Member (rivals a x) m items (last?-Member rs last) in
      let (e, p, v) = (rivals_iff a x m).0 rival in
      let newest : IsLatest a items m = λ y my ey vy py.
        last?-max rs (keep-IsSorted (rivals a x) items sorted) last
          (Member-keep (rivals a x) y items my ((rivals_iff a x y).1 (ey ∙ e, py, vy ∙ v))) in
      (
        m,
        (run-IsLatest_iff (single address) a no_filter items m sorted).1
            (among_m, ((eq_iff m.entity address).1 (e ∙ same), p, refl), newest),
        v,
      )
