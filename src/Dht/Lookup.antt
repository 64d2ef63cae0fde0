-- ===== src/Dht/Lookup.antt =====
-- core/src/nucleus/actions/get_entry.rs: the entries that the shard holds, with their status. The
-- chain and the shard have one content store, and `get_entry_from_agent` reads the same. `none` is
-- the panic of an assertion.
pub mod Found
use holochain_rust.Prelude.HashMap
use holochain_rust.Prelude.{
  if◌then◌else◌, ◌==◌, any, ok, err, and_then, String, ◌≡◌, refl, Bool, false, Option, none, some,
  List, [], ◌∷◌, map_option, string_eq,
}
use holochain_rust.Eav.Attribute.{Attribute, attribute_eq}
use holochain_rust.Dht.Entries.{status_query}
use holochain_rust.Eav.CrudStatus.{CrudStatus, status_string, live, deleted, modified}
use holochain_rust.Cas.{fetch, MemoryStorage}
use holochain_rust.Eav.Storage.{fetch_eavi, EavMemoryStorage}
use holochain_rust.Eav.Eavi.{Eavi}
use holochain_rust.Eav.Query.{no_filter, EaviQuery, latest_by_attribute}
use holochain_rust.Eav.Attribute.{Attribute}
use holochain_rust.CoreTypes.Errors.{HcResult}
use holochain_rust.CoreTypes.Entry.{Entry, Codec}
use holochain_rust.Actions.{EntryWithMeta}
use holochain_rust.Dht.{DhtStorages, single}

abbrev pub crud_link_query : String → EaviQuery
crud_link_query address = record {
  entity = single address;
  attribute = single Attribute.crud_link;
  value = no_filter;
  index = latest_by_attribute;
}

-- `js.try_into().ok()`
abbrev pub parsed : HcResult Entry → Option Entry
parsed (err e) = none
parsed (ok entry) = some entry

abbrev pub read_entry : Codec → Option String → Option Entry
read_entry c none = none
read_entry c (some json) = parsed (c.entry_of_content json)

unfoldable pub get_entry_from_cas : Codec → MemoryStorage → String → HcResult (Option Entry)
unfolding fetch
get_entry_from_cas c st address = and_then (fetch st address) λ json. ok (read_entry c json)

-- `CrudStatus::from_str(…) == Ok(status)`: the text of a status is its name.
unfoldable pub has_status : CrudStatus → List Eavi → Bool
unfolding status_string
has_status status found = any (λ e. e.value == status_string status) found

unfoldable pub status_of : List Eavi → CrudStatus
unfolding has_status
status_of found =
    if has_status deleted found
    then deleted
    else if has_status modified found
    then modified
    else live

-- At most one link
abbrev pub with_link : CrudStatus → List Eavi → Option (Option (CrudStatus × Option String))
with_link status [] = some (some (status, none))
with_link status (e ∷ []) = some (some (status, some e.value))
with_link status (e ∷ (f ∷ es)) = none

abbrev pub or_panic : {A : Type 0} → Option A → Option (HcResult A)
or_panic none = none
or_panic (some a) = some (ok a)

abbrev pub read_link :
    CrudStatus → HcResult (List Eavi) → Option (HcResult (Option (CrudStatus × Option String)))
read_link status (err e) = some (err e)
read_link status (ok found) = or_panic (with_link status found)

abbrev pub read_status :
    EavMemoryStorage
    → String
    → HcResult (List Eavi)
    → Option (HcResult (Option (CrudStatus × Option String)))
unfolding fetch_eavi status_of
read_status s address (err e) = some (err e)
read_status s address (ok []) = some (ok none)
read_status s address (ok (e ∷ es)) =
    read_link (status_of (e ∷ es)) (fetch_eavi s (crud_link_query address))

unfoldable pub get_entry_crud_meta_from_dht :
    EavMemoryStorage → String → Option (HcResult (Option (CrudStatus × Option String)))
unfolding fetch_eavi
get_entry_crud_meta_from_dht s address = read_status s address (fetch_eavi s (status_query address))

abbrev pub item_of : Entry → Option (CrudStatus × Option String) → Option EntryWithMeta
item_of entry none = none
item_of entry (some (status, link)) =
    some (record { entry = entry; crud_status = status; maybe_link_update_delete = link })

abbrev pub with_meta :
    Entry → HcResult (Option (CrudStatus × Option String)) → HcResult (Option EntryWithMeta)
with_meta entry (err e) = err e
with_meta entry (ok meta) = ok (item_of entry meta)

abbrev pub add_meta_to :
    EavMemoryStorage → String → HcResult (Option Entry) → Option (HcResult (Option EntryWithMeta))
unfolding get_entry_crud_meta_from_dht
add_meta_to s address (err e) = some (err e)
add_meta_to s address (ok none) = some (ok none)
add_meta_to s address (ok (some entry)) =
    map_option (with_meta entry) (get_entry_crud_meta_from_dht s address)

unfoldable pub get_entry_with_meta :
    Codec → DhtStorages → String → Option (HcResult (Option EntryWithMeta))
unfolding get_entry_from_cas
get_entry_with_meta c s address =
    add_meta_to s.meta_storage address (get_entry_from_cas c s.content_storage address)

add_meta_to-unheld :
    (s : EavMemoryStorage) (address : String) (entry : Option Entry)
    → fetch_eavi s (status_query address) ≡ ok []
    → add_meta_to s address (ok entry) ≡ some (ok none)
unfolding get_entry_crud_meta_from_dht read_status
add_meta_to-unheld s address none h = refl
add_meta_to-unheld s address (some entry) h = rw h refl

-- On an intact lock, an entry without a status is not found, also where its content is stored.
get_entry_with_meta-unheld :
    (c : Codec) (s : DhtStorages) (address : String)
    → s.content_storage.poisoned ≡ false
    → fetch_eavi s.meta_storage (status_query address) ≡ ok []
    → get_entry_with_meta c s address ≡ some (ok none)
unfolding get_entry_with_meta get_entry_from_cas fetch
get_entry_with_meta-unheld c s address p h = rw p (
    add_meta_to-unheld s.meta_storage address
      (read_entry c (HashMap.get s.content_storage.storage address)) h)
