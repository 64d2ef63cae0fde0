-- ===== src/Dht/Lookup/Found.antt =====
-- An entry that was held is found.
use holochain_rust.Prelude.{
  ◌==◌, length, any, Member, here, there, ok, ℕ, suc, ◌+◌, ◌^◌, ◌<◌, String, ◌≡◌, refl, ap, ◌∙◌,
  ◌≢◌, inl, inr, Bool, false, none, some, List, [], ◌∷◌, arith, eq_iff, string_eq,
}
use holochain_rust.Eav.Eavi.{Eavi}
use holochain_rust.Eav.Attribute.{Attribute, attribute_eq, attribute_beq_iff}
use holochain_rust.Eav.Query.{run, single, no_filter, latest_by_attribute, EaviQuery}
use holochain_rust.Eav.Query.Latest.{run-IsLatest_iff}
use holochain_rust.Eav.Query.Newest.{run-newest}
use holochain_rust.Eav.Sorted.{IsSorted}
use holochain_rust.Eav.Storage.{EavMemoryStorage, fetch_eavi}
use holochain_rust.Dht.Entries.{status_query}
use holochain_rust.Dht.Holds.{hold_lem}
use holochain_rust.Dht.Lookup.{
  crud_link_query, has_status, status_of, read_status, get_entry_crud_meta_from_dht,
  get_entry_with_meta, fetch, add_meta_to, get_entry_from_cas,
}
use holochain_rust.Eav.CrudStatus.{status_string, live}
use holochain_rust.Dht.Reduce.{DhtStore, DhtEnvironment, reduce}
use holochain_rust.CoreTypes.Entry.{entry_address, header_address, Codec, Entry}
use holochain_rust.Actions.{Action, EntryWithHeader}
use holochain_rust.Dht.{DhtStorages}

-- The items of an address with an attribute, as a query for the latest of them returns them
run-Member :
    (address : String) (a : Attribute) (items : List Eavi) (z : Eavi)
    → IsSorted items
    → Member z (
        run
          (record {
            entity = single address;
            attribute = single a;
            value = no_filter;
            index = latest_by_attribute;
          })
          items)
    → Member z items × (z.entity ≡ address) × (z.attribute ≡ a)
run-Member address a items z sorted m =
    let (among, (of, is, any_value), last) =
      (run-IsLatest_iff (single address) (single a) no_filter items z sorted).0 m in
    (among, (eq_iff z.entity address).0 of, (attribute_beq_iff z.attribute a).0 is)

none_of :
    (p : Eavi → Bool) (l : List Eavi) → ((z : Eavi) → Member z l → p z ≡ false) → any p l ≡ false
none_of p [] h = refl
none_of p (x ∷ xs) h = ground (arith, h x here, none_of p xs (λ z m. h z (there m)))

no-Member : (l : List Eavi) → ((z : Eavi) → Member z l → ⊥) → l ≡ []
no-Member [] h = refl
no-Member (x ∷ xs) h = absurd (h x here)

status_of-live : (l : List Eavi) → ((z : Eavi) → Member z l → z.value ≡ "live") → status_of l ≡ live
unfolding status_of has_status status_string
status_of-live l h =
    rw
      (
        none_of (λ e. e.value == "deleted") l (λ z m. rw (h z m) refl),
        none_of (λ e. e.value == "modified") l (λ z m. rw (h z m) refl),
      )
      refl

read_status-live :
    (s : EavMemoryStorage) (address : String) (found : List Eavi) (y : Eavi)
    → Member y found
    → ((z : Eavi) → Member z found → z.value ≡ "live")
    → fetch_eavi s (crud_link_query address) ≡ ok []
    → read_status s address (ok found) ≡ some (ok (some (live, none)))
unfolding read_status
read_status-live s address [] y m h no_links = elim m [ ]
read_status-live s address (e ∷ es) y m h no_links = rw (no_links, status_of-live (e ∷ es) h) refl

fetch_eavi-run :
    (s : EavMemoryStorage) (q : EaviQuery)
    → s.poisoned ≡ false
    → fetch_eavi s q ≡ ok (run q s.storage)
unfolding fetch_eavi
fetch_eavi-run s q p = ground (arith, p)

-- On sorted items, an address with an item that it is live, no other status and no link to what
-- replaces it is live.
crud_meta-live :
    (s : EavMemoryStorage) (address : String) (x : Eavi)
    → s.poisoned ≡ false
    → IsSorted s.storage
    → Member x s.storage
    → x.entity ≡ address
    → x.attribute ≡ Attribute.crud_status
    → ((z : Eavi)
        → Member z s.storage
        → z.entity ≡ address
        → z.attribute ≡ Attribute.crud_status
        → z.value ≡ "live")
    → ((z : Eavi) → Member z s.storage → z.entity ≡ address → z.attribute ≢ Attribute.crud_link)
    → get_entry_crud_meta_from_dht s address ≡ some (ok (some (live, none)))
unfolding get_entry_crud_meta_from_dht
crud_meta-live s address x p sorted among same status lives unlinked =
    let (y, found, v) =
      run-newest address (single Attribute.crud_status) s.storage x sorted among same
        ((attribute_beq_iff x.attribute Attribute.crud_status).1 status) in
    let no_links : run (crud_link_query address) s.storage ≡ [] =
      no-Member (run (crud_link_query address) s.storage) (λ z m.
        let (mz, of, is) = run-Member address Attribute.crud_link s.storage z sorted m in
        unlinked z mz of is) in
    ap (read_status s address) (fetch_eavi-run s (status_query address) p)
    ∙ read_status-live s address (run (status_query address) s.storage) y found
        (λ z m.
          let (mz, of, is) = run-Member address Attribute.crud_status s.storage z sorted m in
          lives z mz of is)
        (fetch_eavi-run s (crud_link_query address) p ∙ ap ok no_links)

live_entry :
    (c : Codec) (s : DhtStorages) (address content : String) (entry : Entry)
    → fetch s.content_storage address ≡ ok (some content)
    → c.entry_of_content content ≡ ok entry
    → get_entry_crud_meta_from_dht s.meta_storage address ≡ some (ok (some (live, none)))
    → get_entry_with_meta c s address
      ≡ some (
          ok (some (record { entry = entry; crud_status = live; maybe_link_update_delete = none })))
unfolding get_entry_with_meta get_entry_from_cas add_meta_to
live_entry c s address content entry stored readable meta = rw (stored, readable, meta) refl

-- Where both locks are intact, the items are in order and their indices do not run out, an entry
-- that is held and whose content can be read back is found right afterwards, as a live entry,
-- unless the shard has another status for it, or a link to what replaces it, or its header has the
-- same address.
pub hold-get_entry_with_meta :
    (e : DhtEnvironment) (s : DhtStore) (w : EntryWithHeader) (id : ℕ)
    → s.storages.content_storage.poisoned ≡ false
    → s.storages.meta_storage.poisoned ≡ false
    → IsSorted s.storages.meta_storage.storage
    → e.now + suc (length s.storages.meta_storage.storage) < 2 ^ 64
    → e.later + suc (suc (length s.storages.meta_storage.storage)) < 2 ^ 64
    → e.codec.entry_of_content (e.codec.entry_content w.entry) ≡ ok w.entry
    → header_address e.codec w.header ≢ entry_address e.codec w.entry
    → ((z : Eavi)
        → Member z s.storages.meta_storage.storage
        → z.entity ≡ entry_address e.codec w.entry
        → z.attribute ≡ Attribute.crud_status
        → z.value ≡ "live")
    → ((z : Eavi)
        → Member z s.storages.meta_storage.storage
        → z.entity ≡ entry_address e.codec w.entry
        → z.attribute ≢ Attribute.crud_link)
    → get_entry_with_meta e.codec
        (reduce e s (record { action = Action.hold w; id = id })).storages
        (entry_address e.codec w.entry)
      ≡ some (
          ok (
            some (record { entry = w.entry; crud_status = live; maybe_link_update_delete = none })))
hold-get_entry_with_meta e s w id p q sorted room room' readable apart lives unlinked =
    let address = entry_address e.codec w.entry in
    let (
      t, x, y, with_live, run_hold, contents, placed, members, placed', members', q_t, sorted_t,
      grown,
    ) =
      hold_lem e s w id p q sorted room room' in
    let stored : fetch t.content_storage address ≡ ok (some (e.codec.entry_content w.entry)) =
      ground (
        arith,
        contents address,
        apart,
        eq_iff (header_address e.codec w.header) address,
        eq_iff address address,
      ) in
    let meta =
      crud_meta-live t.meta_storage address x q_t sorted_t
        ((members' x).1 (inl ((members x).1 (inr refl)))) placed.entity placed.attribute
        (λ z m of is. elim ((members' z).0 m) [
          | inr same ↦ absurd (ground (arith, same, is, placed'.attribute))
          | inl before ↦ elim ((members z).0 before) [
            | inl old ↦ lives z old of is
            | inr same ↦ rw same placed.value
          ]
        ])
        (λ z m of is. elim ((members' z).0 m) [
          | inr same ↦ ground (arith, same, is, placed'.attribute)
          | inl before ↦ elim ((members z).0 before) [
            | inl old ↦ unlinked z old of is
            | inr same ↦ ground (arith, same, is, placed.attribute)
          ]
        ]) in
    rw run_hold
      (live_entry e.codec t address (e.codec.entry_content w.entry) w.entry stored readable meta)
