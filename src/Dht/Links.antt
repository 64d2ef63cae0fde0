-- ===== src/Dht/Links.antt =====
-- Which links the DHT returns, in terms of the items alone.
use holochain_rust.Prelude.{
  keep, Member, ok, ◌≤◌, String, ◌≡◌, refl, ◌↔◌, ◌⊎◌, inl, inr, Bool, true, false, ◌&&◌, Option,
  none, some, List, arith, eq_iff, Member-keep, keep-Member, string_eq,
}
use holochain_rust.Eav.Attribute.{attribute_eq, Attribute}
use holochain_rust.Eav.Query.{no_filter, single, run}
use holochain_rust.Eav.Query.Latest.{run-IsLatest_iff}
use holochain_rust.Eav.Storage.{fetch_eavi, EavMemoryStorage}
use holochain_rust.Dht.{link_filter, is_link_tag, get_links_query, get_links, given_equals}
use holochain_rust.Eav.Eavi.{Eavi}
use holochain_rust.Eav.Sorted.{IsSorted}

-- What was not asked for is any name.
abbrev pub Asked : Option String → String → Type 0
Asked none name = Unit
Asked (some asked) name = asked ≡ name

-- A link of a type and a tag that were asked for
abbrev pub IsLink : Option String → Option String → Attribute → Type 0
IsLink link_type tag a =
    (t : String) × (g : String) × (a ≡ Attribute.link_tag t g) × Asked link_type t × Asked tag g

-- The removal of such a link
abbrev pub IsRemovedLink : Option String → Option String → Attribute → Type 0
IsRemovedLink link_type tag a =
    (t : String) × (g : String) × (a ≡ Attribute.removed_link t g) × Asked link_type t × Asked tag g

-- No item after `x` links its base to its target, or removes such a link.
abbrev pub IsUpToDate : Option String → Option String → List Eavi → Eavi → Type 0
IsUpToDate link_type tag items x =
    (y : Eavi)
    → Member y items
    → y.entity ≡ x.entity
    → y.value ≡ x.value
    → IsLink link_type tag y.attribute ⊎ IsRemovedLink link_type tag y.attribute
    → y.index ≤ x.index

given_equals_iff :
    (asked : Option String) (name : String) → (given_equals asked name ≡ true) ↔ Asked asked name
given_equals_iff none name = (λ h. tt, λ h. refl)
given_equals_iff (some t) name = eq_iff t name

both_given_iff :
    (link_type tag : Option String) (t g : String)
    → ((given_equals link_type t && given_equals tag g) ≡ true) ↔ (Asked link_type t × Asked tag g)
both_given_iff link_type tag t g = (
  λ h. ((given_equals_iff link_type t).0 (ground arith), (given_equals_iff tag g).0 (ground arith)),
  λ (a, b). ground (arith, (given_equals_iff link_type t).1 a, (given_equals_iff tag g).1 b),
)

link_filter_sound :
    (link_type tag : Option String) (a : Attribute)
    → link_filter link_type tag a ≡ true
    → IsLink link_type tag a ⊎ IsRemovedLink link_type tag a
unfolding link_filter
link_filter_sound link_type tag (Attribute.link_tag t g) h =
    let (b, d) = (both_given_iff link_type tag t g).0 h in inl (t, g, refl, b, d)
link_filter_sound link_type tag (Attribute.removed_link t g) h =
    let (b, d) = (both_given_iff link_type tag t g).0 h in inr (t, g, refl, b, d)
link_filter_sound link_type tag _ h = cc

link_filter_complete :
    (link_type tag : Option String) (a : Attribute)
    → IsLink link_type tag a ⊎ IsRemovedLink link_type tag a
    → link_filter link_type tag a ≡ true
unfolding link_filter
link_filter_complete link_type tag a (inl (t, g, is, b, d)) =
    rw is ((both_given_iff link_type tag t g).1 (b, d))
link_filter_complete link_type tag a (inr (t, g, is, b, d)) =
    rw is ((both_given_iff link_type tag t g).1 (b, d))

-- A link passes the filter and the test for links, and nothing else does.
IsLink-passes_iff :
    (link_type tag : Option String) (a : Attribute)
    → ((link_filter link_type tag a ≡ true) × (is_link_tag a ≡ true)) ↔ IsLink link_type tag a
unfolding is_link_tag
IsLink-passes_iff link_type tag a = (
  λ (h, l). elim (link_filter_sound link_type tag a h) [
    | inl is ↦ is
    | inr (t, g, is, b, d) ↦ absurd (ground (arith, is, l))
  ],
  λ (t, g, is, b, d). (link_filter_complete link_type tag a (inl (t, g, is, b, d)), rw is refl),
)

-- Where the lock is intact and the items are sorted, the links of an address are exactly the items
-- that link it, with the type and the tag asked for, to a target, and that are up to date: no later
-- item has the same address and target and is a link, or the removal of a link, of a type and a tag
-- asked for.
pub get_links-IsUpToDate_iff :
    (s : EavMemoryStorage) (address : String) (link_type tag : Option String)
    → s.poisoned ≡ false
    → IsSorted s.storage
    → (links : List Eavi) × (get_links s address link_type tag ≡ ok links)
      × ((x : Eavi)
          → Member x links ↔ (
              Member x s.storage
              × (x.entity ≡ address)
              × IsLink link_type tag x.attribute
              × IsUpToDate link_type tag s.storage x))
unfolding get_links fetch_eavi
get_links-IsUpToDate_iff s address link_type tag p sorted =
    let found = run (get_links_query address link_type tag) s.storage in
    let is_link : Eavi → Bool = λ e. is_link_tag e.attribute in
    let latest =
      run-IsLatest_iff (single address) (link_filter link_type tag) no_filter s.storage in
    (
      keep is_link found,
      ground (arith, p),
      λ x. (
        λ m.
            let (n, l) = keep-Member is_link x found m in
            let (among, (of, passes, any_value), last) = (latest x sorted).0 n in
            (
              among,
              (eq_iff x.entity address).0 of,
              (IsLink-passes_iff link_type tag x.attribute).0 (passes, l),
              λ y my e v is. last y my e v (link_filter_complete link_type tag y.attribute is),
            ),
        λ (among, of, is, last).
            let (passes, l) = (IsLink-passes_iff link_type tag x.attribute).1 is in
            Member-keep is_link x found
              ((latest x sorted).1 (
                among,
                ((eq_iff x.entity address).1 of, passes, refl),
                λ y my e v h. last y my e v (link_filter_sound link_type tag y.attribute h),
              ))
              l,
      ),
    )
