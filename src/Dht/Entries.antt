-- ===== src/Dht/Entries.antt =====
-- The reducers of core/src/dht/dht_inner_reducers.rs that store, update and remove an entry. `now`
-- and `later` are the times of the clock at the two items that are added.
pub mod Removal
pub mod Final
use holochain_rust.Prelude.{
  if◌then◌else◌, ◌==◌, any, ok, err, and_then, map_err, ok_or, ℕ, String, Bool, not, Option,
  string_eq,
}
use holochain_rust.Eav.Attribute.{Attribute, attribute_eq}
use holochain_rust.Eav.Query.{no_filter, single, latest_by_attribute, EaviQuery}
use holochain_rust.Dht.{DhtStorages}
use holochain_rust.Eav.CrudStatus.{
  CrudStatus, create_crud_status_eav, create_crud_link_eav, modified, deleted,
}
use holochain_rust.CoreTypes.Entry.{Entry, Codec, entry_type}
use holochain_rust.Eav.Storage.{add_eavi, EavMemoryStorage, fetch_eavi}
use holochain_rust.CoreTypes.Errors.{error_generic, HcResult}
use holochain_rust.Eav.Eavi.{Eavi}
use holochain_rust.Cas.{MemoryStorage, fetch}
use holochain_rust.CoreTypes.EntryType.{is_sys}

-- `add_eavi(&eav?)?`
unfoldable pub note_added :
    DhtStorages → HcResult (Option Eavi) × EavMemoryStorage → HcResult (Unit {0}) × DhtStorages
note_added s (err e, meta) = (err e, record s { meta_storage = meta })
note_added s (ok r, meta) = (ok tt, record s { meta_storage = meta })

unfoldable pub add_meta : DhtStorages → HcResult Eavi → HcResult (Unit {0}) × DhtStorages
unfolding note_added add_eavi
add_meta s (err e) = (err e, s)
add_meta s (ok eav) = note_added s (add_eavi s.meta_storage eav)

-- `?` in code that has changed the storages
abbrev pub then_store :
    {A : Type 0}
    → HcResult (Unit {0}) × DhtStorages
    → (DhtStorages → HcResult A × DhtStorages)
    → HcResult A × DhtStorages
then_store (err e, s) f = (err e, s)
then_store (ok x, s) f = f s

-- The new status of an entry, and its link to what replaces it. The attributes of both items are
-- valid for every name, so that creating the items does not fail.
unfoldable pub mark :
    (String → Bool)
    → ℕ
    → ℕ
    → DhtStorages
    → String
    → CrudStatus
    → String
    → String
    → HcResult String × DhtStorages
unfolding add_meta create_crud_status_eav create_crud_link_eav
mark is_match now later s address status target result =
    then_store (add_meta s (create_crud_status_eav is_match now address status)) λ t.
      then_store (add_meta t (create_crud_link_eav is_match later address target))
        λ u. (ok result, u)

unfoldable pub reduce_update_entry_inner :
    (String → Bool) → ℕ → ℕ → DhtStorages → String → String → HcResult String × DhtStorages
unfolding mark
reduce_update_entry_inner is_match now later s old_address new_address =
    mark is_match now later s old_address modified new_address new_address

unfoldable pub load_entry : Codec → MemoryStorage → String → HcResult Entry
unfolding fetch
load_entry c st address = and_then (fetch st address) λ o.
    and_then (ok_or o (error_generic "trying to remove a missing entry")) λ content.
      map_err (λ e. error_generic "Stored content should be a valid entry")
        (c.entry_of_content content)

abbrev pub status_query : String → EaviQuery
status_query address = record {
  entity = single address;
  attribute = single Attribute.crud_status;
  value = no_filter;
  index = latest_by_attribute;
}

-- `CrudStatus::from_str(…) != Ok(CrudStatus::Live)`: the text of the status is its name.
abbrev pub not_live : Eavi → Bool
not_live e = not (e.value == "live")

unfoldable pub check_live : EavMemoryStorage → String → HcResult (Unit {0})
unfolding fetch_eavi
check_live meta address = and_then (fetch_eavi meta (status_query address)) λ statuses.
    if any not_live statuses then err (error_generic "entry_status != CrudStatus::Live") else ok tt

-- The conditions of `reduce_remove_entry_inner`
unfoldable pub check_removable : Codec → DhtStorages → String → HcResult (Unit {0})
unfolding load_entry check_live is_sys entry_type
check_removable c s address = and_then (load_entry c s.content_storage address) λ entry.
    if is_sys (entry_type entry)
    then err (error_generic "trying to remove a system entry type")
    else check_live s.meta_storage address

unfoldable pub reduce_remove_entry_inner :
    Codec → (String → Bool) → ℕ → ℕ → DhtStorages → String → String → HcResult String × DhtStorages
unfolding check_removable mark
reduce_remove_entry_inner c is_match now later s latest_deleted_address deletion_address =
    then_store (check_removable c s latest_deleted_address, s)
      λ t.
        mark is_match now later t latest_deleted_address deleted deletion_address
          latest_deleted_address
