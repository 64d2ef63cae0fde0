-- ===== src/Dht/Headers.antt =====
-- `get_headers` and `add_header_for_entry` of core/src/dht/dht_store.rs, and
-- `reduce_store_entry_inner` of core/src/dht/dht_inner_reducers.rs, whose errors hold the debug text
-- of others, an argument.
use holochain_rust.Eav.Attribute.{attribute_eq}
use holochain_rust.Prelude.{
  ok, err, and_then, ℕ, String, Bool, Option, none, some, List, [], ◌∷◌, map, string_eq,
}
use holochain_rust.Cas.{MemoryStorage, fetch, add}
use holochain_rust.Eav.CrudStatus.{live, create_crud_status_eav}
use Prim.Native.String.{◌++◌ as text_append}
use holochain_rust.Eav.Attribute.{Attribute}
use holochain_rust.CoreTypes.Entry.{Codec, header_address, entry_address, Entry}
use holochain_rust.Eav.Eavi.{Eavi, new_with_index}
use holochain_rust.CoreTypes.Errors.{HcResult, error_generic, HolochainError}
use holochain_rust.Dht.{DhtStorages, single}
use holochain_rust.Eav.Query.{EaviQuery, latest_by_attribute, no_filter}
use holochain_rust.Dht.Entries.{add_meta}
use holochain_rust.CoreTypes.Header.{ChainHeader}
use holochain_rust.Eav.Storage.{fetch_eavi}

-- `.map(f).collect::<Result<Vec<_>, _>>()`: the first error, or all values
abbrev pub collect_results : {A B : Type 0} → (A → HcResult B) → List A → HcResult (List B)
collect_results f [] = ok []
collect_results f (x ∷ xs) =
    let rest = collect_results f xs in and_then (f x) λ y. and_then rest λ ys. ok (y ∷ ys)

-- `.flatten()`
abbrev pub present : {A : Type 0} → List (Option A) → List A
present [] = []
present (none ∷ xs) = present xs
present (some x ∷ xs) = x ∷ present xs

abbrev pub header_query : String → EaviQuery
header_query address = record {
  entity = single address;
  attribute = single Attribute.entry_header;
  value = no_filter;
  index = latest_by_attribute;
}

unfoldable pub get_headers : Codec → DhtStorages → String → HcResult (List ChainHeader)
unfolding fetch_eavi fetch
get_headers c s entry_address =
    and_then (fetch_eavi s.meta_storage (header_query entry_address)) λ items.
      and_then (collect_results (fetch s.content_storage) (map (λ e. e.value) items))
        λ contents. collect_results c.header_of_content (present contents)

-- What follows `add` of a content
abbrev pub then_add_meta :
    DhtStorages
    → HcResult Eavi
    → HcResult (Unit {0}) × MemoryStorage
    → HcResult (Unit {0}) × DhtStorages
then_add_meta s eav (err e, content) = (err e, record s { content_storage = content })
then_add_meta s eav (ok x, content) = add_meta (record s { content_storage = content }) eav

abbrev pub add_header_with :
    Codec → DhtStorages → ChainHeader → HcResult Eavi → HcResult (Unit {0}) × DhtStorages
add_header_with c s header (err e) = (err e, s)
add_header_with c s header (ok eav) =
    then_add_meta s (ok eav)
      (add s.content_storage (header_address c header) (c.header_content header))

unfoldable pub add_header_for_entry :
    Codec
    → (String → Bool)
    → ℕ
    → DhtStorages
    → Entry
    → ChainHeader
    → HcResult (Unit {0}) × DhtStorages
unfolding add_meta add new_with_index entry_address header_address
add_header_for_entry c is_match now s entry header = add_header_with c s header (
    new_with_index is_match (entry_address c entry) Attribute.entry_header (header_address c header)
      now)

abbrev pub store_failed : (HolochainError → String) → HolochainError → HolochainError
store_failed debug e =
    error_generic (text_append "err/dht: dht::reduce_store_entry_inner() FAILED " (debug e))

abbrev pub note_stored :
    (HolochainError → String)
    → HcResult (Unit {0}) × DhtStorages
    → HcResult (Unit {0}) × DhtStorages
note_stored debug (err e, s) = (err (store_failed debug e), s)
note_stored debug (ok x, s) = (ok tt, s)

-- An item that cannot be made is an error that is passed on as it is.
abbrev pub add_status :
    (HolochainError → String) → DhtStorages → HcResult Eavi → HcResult (Unit {0}) × DhtStorages
add_status debug s (err e) = (err e, s)
add_status debug s (ok eav) = note_stored debug (add_meta s (ok eav))

abbrev pub after_content :
    (HolochainError → String)
    → DhtStorages
    → HcResult Eavi
    → HcResult (Unit {0}) × MemoryStorage
    → HcResult (Unit {0}) × DhtStorages
after_content debug s status (err e, content) =
    (err (store_failed debug e), record s { content_storage = content })
after_content debug s status (ok x, content) =
    add_status debug (record s { content_storage = content }) status

unfoldable pub reduce_store_entry_inner :
    Codec
    → (HolochainError → String)
    → (String → Bool)
    → ℕ
    → DhtStorages
    → Entry
    → HcResult (Unit {0}) × DhtStorages
unfolding add_meta add create_crud_status_eav entry_address
reduce_store_entry_inner c debug is_match now s entry =
    after_content debug s (create_crud_status_eav is_match now (entry_address c entry) live)
      (add s.content_storage (entry_address c entry) (c.entry_content entry))
