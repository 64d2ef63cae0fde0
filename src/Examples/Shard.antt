-- ===== src/Examples/Shard.antt =====
-- Runs of the DHT shard: a link, and the removal of an entry.
use holochain_rust.Prelude.HashMap
use holochain_rust.Prelude.{
  Member, here, ok, err, String, ◌≡◌, refl, ◌↔◌, Bool, false, none, some, List, [], ◌∷◌, arith,
  eq_iff, string_eq, nat_eq,
}
use holochain_rust.Eav.Attribute.{Attribute, attribute_eq, attribute_beq}
use holochain_rust.CoreTypes.Entry.{Entry, Codec}
use holochain_rust.Dht.{DhtStorages, get_links}
use holochain_rust.CoreTypes.Errors.{error_generic, HolochainError, HcResult}
use holochain_rust.Dht.Entries.Removal.{remove_refused}
use holochain_rust.Dht.Entries.Final.{deleted_item, link_item}
use holochain_rust.Eav.Eavi.{Eavi, set_insert}
use holochain_rust.Cas.{MemoryStorage}
use holochain_rust.Eav.Storage.{EavMemoryStorage}
use holochain_rust.Dht.Links.{get_links-IsUpToDate_iff, IsLink, IsUpToDate}
use holochain_rust.Dht.Entries.{reduce_remove_entry_inner, reduce_update_entry_inner, mark}
use holochain_rust.Dht.Lookup.{
  get_entry_with_meta, get_entry_crud_meta_from_dht, status_of, has_status, get_entry_from_cas,
}
use holochain_rust.Cas.{fetch}
use holochain_rust.Eav.Storage.{fetch_eavi}
use holochain_rust.Eav.CrudStatus.{deleted}
use holochain_rust.Actions.{EntryWithMeta}

abbrev pub linked : Eavi
linked = record {
  entity = "base";
  attribute = Attribute.link_tag "likes" "today";
  value = "target";
  index = 4;
}

abbrev link_store : EavMemoryStorage
link_store = record { storage = linked ∷ []; poisoned = false }

get_links-IsUpToDate_iff_example :
    (links : List Eavi) × (get_links link_store "base" (some "likes") none ≡ ok links)
    × ((x : Eavi)
        → Member x links ↔ (
            Member x (linked ∷ [])
            × (x.entity ≡ "base")
            × IsLink (some "likes") none x.attribute
            × IsUpToDate (some "likes") none (linked ∷ []) x))
get_links-IsUpToDate_iff_example =
    get_links-IsUpToDate_iff link_store "base" (some "likes") none refl (tt, tt)

abbrev pub shard_codec : Codec
shard_codec = record {
  encode_from_str = λ s. s;
  entry_content = λ e. "page";
  entry_of_content = λ s. ok (Entry.app "pages" "text");
  header_content = λ h. "header";
  header_of_content = λ s. err (error_generic s);
}

abbrev pub no_match : String → Bool
no_match s = false

abbrev pub contents : MemoryStorage
contents = record { storage = ("page", "page") ∷ []; poisoned = false }

abbrev pub shard : DhtStorages
shard = record {
  content_storage = contents;
  meta_storage = record { storage = []; poisoned = false };
}

abbrev pub removed_shard : DhtStorages
removed_shard = record {
  content_storage = contents;
  meta_storage = record {
    storage = deleted_item "page" 5 ∷ link_item "page" "deletion" 6 ∷ [];
    poisoned = false;
  };
}

pub page-removed :
    reduce_remove_entry_inner shard_codec no_match 5 6 shard "page" "deletion"
    ≡ (ok "page", removed_shard)
unfolding reduce_remove_entry_inner HashMap.get
page-removed = refl

remove_refused_example :
    (e : HolochainError) × (reduce_remove_entry_inner shard_codec no_match 7 8 removed_shard "page"
        "other"
      ≡ (err e, removed_shard))
remove_refused_example =
    remove_refused shard_codec no_match 7 8 removed_shard "page" "other" (deleted_item "page" 5)
      refl ((omega arith, tt), (tt, tt)) here refl refl
      (λ q. ground (arith, q, eq_iff "deleted" "live"))

abbrev page_deleted : EntryWithMeta
page_deleted = record {
  entry = Entry.app "pages" "text";
  crud_status = deleted;
  maybe_link_update_delete = some "deletion";
}

removed_shard-get_entry_with_meta :
    get_entry_with_meta shard_codec removed_shard "page" ≡ some (ok (some page_deleted))
unfolding get_entry_with_meta get_entry_from_cas get_entry_crud_meta_from_dht fetch fetch_eavi
    status_of has_status HashMap.get attribute_beq set_insert
removed_shard-get_entry_with_meta = refl

abbrev twice_updated : HcResult String × DhtStorages
unfolding reduce_update_entry_inner
twice_updated =
    reduce_update_entry_inner no_match 7 8
      (reduce_update_entry_inner no_match 5 6 shard "page" "first").1 "page" "second"

-- After two updates of an entry, looking it up ends in a failed assertion.
twice_updated-get_entry_with_meta : get_entry_with_meta shard_codec twice_updated.1 "page" ≡ none
unfolding get_entry_with_meta get_entry_from_cas get_entry_crud_meta_from_dht fetch fetch_eavi
    status_of has_status HashMap.get attribute_beq reduce_update_entry_inner mark
twice_updated-get_entry_with_meta = refl
