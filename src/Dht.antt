-- ===== src/Dht.antt =====
-- The agent's shard of the DHT: the queries of core/src/dht/dht_store.rs and the link reducer of
-- core/src/dht/dht_inner_reducers.rs. Both storages are shared by all copies of a state, so what
-- is changed in them stays.
pub mod Links
pub mod Entries
pub mod Headers
pub mod Reduce
pub mod Grows
pub mod Holds
pub mod Lookup
use holochain_rust.Prelude.{
  ◌==◌, keep, ok, err, and_then, ℕ, String, Bool, true, false, ◌&&◌, Option, none, some, List,
  string_eq,
}
use holochain_rust.Eav.Attribute.{Attribute, attribute_eq}
use holochain_rust.Eav.Query.{no_filter, single, latest_by_attribute, EavFilter, EaviQuery}
use holochain_rust.Eav.Eavi.{new_with_index, Eavi}
use holochain_rust.Eav.Storage.{EavMemoryStorage, add_eavi, fetch_eavi}
use holochain_rust.CoreTypes.Entry.{Codec, entry_address, add_entry}
use holochain_rust.Cas.{MemoryStorage, contains}
use holochain_rust.CoreTypes.Errors.{error_generic, HcResult}
use holochain_rust.CoreTypes.Link.{Link}

pub record DhtStorages : Type 0 where
  pub content_storage : MemoryStorage
  pub meta_storage : EavMemoryStorage

-- `match (&link_type, &tag)`: what is not given does not restrict.
abbrev pub given_equals : Option String → String → Bool
given_equals none s = true
given_equals (some t) s = t == s

-- The predicate of `get_links`: a link of the type and tag, or the removal of one
unfoldable pub link_filter : Option String → Option String → EavFilter Attribute
link_filter link_type tag (Attribute.link_tag t g) = given_equals link_type t && given_equals tag g
link_filter link_type tag (Attribute.removed_link t g) =
    given_equals link_type t && given_equals tag g
link_filter link_type tag _ = false

unfoldable pub is_link_tag : Attribute → Bool
is_link_tag (Attribute.link_tag t g) = true
is_link_tag _ = false

abbrev pub get_links_query : String → Option String → Option String → EaviQuery
get_links_query address link_type tag = record {
  entity = single address;
  attribute = link_filter link_type tag;
  value = no_filter;
  index = latest_by_attribute;
}

unfoldable pub get_links :
    EavMemoryStorage → String → Option String → Option String → HcResult (List Eavi)
unfolding fetch_eavi is_link_tag link_filter
get_links s address link_type tag =
    and_then (fetch_eavi s (get_links_query address link_type tag))
      λ found. ok (keep (λ e. is_link_tag e.attribute) found)

pub data LinkModification : Type 0 where
  add remove : LinkModification

unfoldable pub link_attribute : LinkModification → Link → Attribute
link_attribute LinkModification.add l = Attribute.link_tag l.link_type l.tag
link_attribute LinkModification.remove l = Attribute.removed_link l.link_type l.tag

-- `store.meta_storage().write()?.add_eavi(&eav)?` and the base as the result
unfoldable pub answer_base :
    DhtStorages → Link → HcResult (Option Eavi) × EavMemoryStorage → HcResult String × DhtStorages
answer_base s l (err e, meta) = (err e, record s { meta_storage = meta })
answer_base s l (ok r, meta) = (ok l.base, record s { meta_storage = meta })

unfoldable pub add_link_eavi : DhtStorages → Link → HcResult Eavi → HcResult String × DhtStorages
unfolding answer_base add_eavi
add_link_eavi s l (err e) = (err e, s)
add_link_eavi s l (ok eav) = answer_base s l (add_eavi s.meta_storage eav)

unfoldable pub link_base_known :
    Codec
    → (String → Bool)
    → ℕ
    → DhtStorages
    → Link
    → LinkModification
    → HcResult Bool
    → HcResult String × DhtStorages
unfolding add_link_eavi new_with_index link_attribute add_entry entry_address
link_base_known c is_match now s l m (err e) = (err e, s)
link_base_known c is_match now s l m (ok false) = (err (error_generic "Base for link not found"), s)
link_base_known c is_match now s l m (ok true) =
    add_link_eavi s l
      (new_with_index is_match l.base (link_attribute m l) (entry_address c (add_entry l)) now)

-- `now` is the time of the clock.
unfoldable pub reduce_add_remove_link_inner :
    Codec
    → (String → Bool)
    → ℕ
    → DhtStorages
    → Link
    → LinkModification
    → HcResult String × DhtStorages
unfolding link_base_known contains
reduce_add_remove_link_inner c is_match now s l m =
    link_base_known c is_match now s l m (contains s.content_storage l.base)
