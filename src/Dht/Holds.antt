-- ===== src/Dht/Holds.antt =====
-- What an entry that is held leaves in the shard.
use mathlib.Core.Path.{subst}
use holochain_rust.Prelude.{
  if◌then◌else◌, ◌==◌, length, Member, ok, ℕ, suc, ◌+◌, ◌^◌, ◌<◌, String, ◌≡◌, refl, ap, ◌∙◌, ◌↔◌,
  ◌⊎◌, false, Option, some, List, [], ◌∷◌, arith, string_eq, nat_eq,
}
use holochain_rust.Cas.{MemoryStorage, add, fetch-add, fetch}
use holochain_rust.Eav.Attribute.{Attribute}
use holochain_rust.CoreTypes.Entry.{Entry, entry_address, header_address}
use holochain_rust.Dht.Entries.{note_added, add_meta}
use holochain_rust.Eav.Storage.{
  add_eavi, EavMemoryStorage, occupied, increment_key_till_no_collision,
}
use holochain_rust.Dht.Reduce.{DhtEnvironment, reduce_hold_entry, DhtStore, reduce}
use holochain_rust.Eav.CrudStatus.{create_crud_status_eav, status_string}
use holochain_rust.Eav.Eavi.{Eavi, validate_attribute, set_insert, new_with_index}
use holochain_rust.Actions.{EntryWithHeader, Action}
use holochain_rust.Dht.Headers.{add_header_for_entry, reduce_store_entry_inner}
use holochain_rust.Dht.{DhtStorages}
use holochain_rust.Eav.Storage.Append.{add_eavi_lem, Placed, increment_total}
use holochain_rust.Eav.Sorted.{IsSorted}

set_insert-length :
    (e : Eavi) (l : List Eavi)
    → occupied l e.index ≡ false
    → length (set_insert e l) ≡ suc (length l)
unfolding set_insert
set_insert-length e [] free = refl
set_insert-length e (x ∷ xs) free = ground (arith, set_insert-length e xs)

add_eavi-length :
    (m : EavMemoryStorage) (e : Eavi)
    → m.poisoned ≡ false
    → e.index + suc (length m.storage) < 2 ^ 64
    → length (add_eavi m e).1.storage ≡ suc (length m.storage)
unfolding add_eavi
add_eavi-length m e p room = rw p (
    set_insert-length (increment_key_till_no_collision e m.storage) m.storage
      (increment_total e m.storage room).1.free)

-- The items that a held entry is given
abbrev pub live_item : DhtEnvironment → Entry → Eavi
live_item e entry = record {
  entity = entry_address e.codec entry;
  attribute = Attribute.crud_status;
  value = "live";
  index = e.now;
}

abbrev pub header_item : DhtEnvironment → EntryWithHeader → Eavi
header_item e w = record {
  entity = entry_address e.codec w.entry;
  attribute = Attribute.entry_header;
  value = header_address e.codec w.header;
  index = e.later;
}

abbrev with_entry : DhtEnvironment → Entry → DhtStorages → MemoryStorage
with_entry e entry s =
    (add s.content_storage (entry_address e.codec entry) (e.codec.entry_content entry)).1

pub store_lem :
    (e : DhtEnvironment) (s : DhtStorages) (entry : Entry) (o : Option Eavi) (m : EavMemoryStorage)
    → s.content_storage.poisoned ≡ false
    → add_eavi s.meta_storage (live_item e entry) ≡ (ok o, m)
    → reduce_store_entry_inner e.codec e.debug e.is_match e.now s entry
      ≡ (ok tt, record { content_storage = with_entry e entry s; meta_storage = m })
unfolding reduce_store_entry_inner create_crud_status_eav new_with_index validate_attribute add
    status_string add_meta note_added
store_lem e s entry o m p added = rw p (rw added refl)

header_lem :
    (e : DhtEnvironment) (s : DhtStorages) (w : EntryWithHeader) (o : Option Eavi)
    (m : EavMemoryStorage)
    → s.content_storage.poisoned ≡ false
    → add_eavi s.meta_storage (header_item e w) ≡ (ok o, m)
    → add_header_for_entry e.codec e.is_match e.later s w.entry w.header ≡ (
      ok tt,
      record {
        content_storage =
            (add s.content_storage
              (header_address e.codec w.header)
              (e.codec.header_content w.header)).1;
        meta_storage = m;
      },
    )
unfolding add_header_for_entry new_with_index validate_attribute add add_meta note_added
header_lem e s w o m p added = rw p (rw added refl)

-- A successful addition to the contents
add-kept :
    (s : MemoryStorage) (a content : String)
    → s.poisoned ≡ false
    → (add s a content).1.poisoned ≡ false
unfolding add
add-kept s a content p = ground (arith, p)

-- Where both locks are intact, the items are in order and their indices do not run out, holding an
-- entry succeeds: the shard then has its content and that of its header, and exactly two more
-- items. The one says that the entry is live, the other leads to its header. Each has the first
-- index from the time of its making on that no item before it has, so that neither was an item of
-- the shard. The items stay in order and their lock intact.
pub hold_lem :
    (e : DhtEnvironment) (s : DhtStore) (w : EntryWithHeader) (id : ℕ)
    → s.storages.content_storage.poisoned ≡ false
    → s.storages.meta_storage.poisoned ≡ false
    → IsSorted s.storages.meta_storage.storage
    → e.now + suc (length s.storages.meta_storage.storage) < 2 ^ 64
    → e.later + suc (suc (length s.storages.meta_storage.storage)) < 2 ^ 64
    → (t : DhtStorages) × (x : Eavi) × (y : Eavi) × (with_live : List Eavi) × (reduce e s
          (record { action = Action.hold w; id = id })
        ≡ record s { storages = t })
      × ((a : String)
          → fetch t.content_storage a ≡ (
              if header_address e.codec w.header == a
              then ok (some (e.codec.header_content w.header))
              else if entry_address e.codec w.entry == a
              then ok (some (e.codec.entry_content w.entry))
              else fetch s.storages.content_storage a))
      × Placed (live_item e w.entry) s.storages.meta_storage.storage x
      × ((z : Eavi) → Member z with_live ↔ (Member z s.storages.meta_storage.storage ⊎ (z ≡ x)))
      × Placed (header_item e w) with_live y
      × ((z : Eavi) → Member z t.meta_storage.storage ↔ (Member z with_live ⊎ (z ≡ y)))
      × (t.meta_storage.poisoned ≡ false)
      × IsSorted t.meta_storage.storage
      × (length t.meta_storage.storage ≡ suc (suc (length s.storages.meta_storage.storage)))
unfolding reduce reduce_hold_entry
hold_lem e s w id p q sorted room room' =
    let st = s.storages in
    let (x, m, added, placed, sorted_m, q_m, members) =
      add_eavi_lem st.meta_storage (live_item e w.entry) q sorted room in
    let grown : length m.storage ≡ suc (length st.meta_storage.storage) =
      subst (λ n. length n.storage ≡ suc (length st.meta_storage.storage)) (ap (λ r. r.1) added)
        (add_eavi-length st.meta_storage (live_item e w.entry) q room) in
    let room_m : e.later + suc (length m.storage) < 2 ^ 64 = omega (arith, grown, room') in
    let (y, n, added', placed', sorted_n, q_n, members') =
      add_eavi_lem m (header_item e w) q_m sorted_m room_m in
    let grown' : length n.storage ≡ suc (length m.storage) =
      subst (λ n. length n.storage ≡ suc (length m.storage)) (ap (λ r. r.1) added')
        (add_eavi-length m (header_item e w) q_m room_m) in
    let mid : DhtStorages = record {
      content_storage = with_entry e w.entry st;
      meta_storage = m;
    } in
    let p_mid =
      add-kept st.content_storage (entry_address e.codec w.entry) (e.codec.entry_content w.entry)
        p in
    let stored = store_lem e st w.entry (some x) m p added in
    let headed = header_lem e mid w (some y) n p_mid added' in
    (
      record {
        content_storage =
            (add mid.content_storage (header_address e.codec w.header)
              (e.codec.header_content w.header)).1;
        meta_storage = n;
      },
      x,
      y,
      m.storage,
      rw stored (rw headed refl),
      λ a.
          (fetch-add mid.content_storage (header_address e.codec w.header) a
            (e.codec.header_content w.header) p_mid).1
          ∙ ap
              (λ r.
                if header_address e.codec w.header == a
                then ok (some (e.codec.header_content w.header))
                else r)
              (fetch-add st.content_storage (entry_address e.codec w.entry) a
                (e.codec.entry_content w.entry) p).1,
      placed,
      members,
      placed',
      members',
      q_n,
      sorted_n,
      grown' ∙ ap suc grown,
    )
