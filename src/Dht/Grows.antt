-- ===== src/Dht/Grows.antt =====
-- Nothing that the shard holds is lost.
use holochain_rust.Prelude.{
  Bool-cases, Member, ok, err, ℕ, String, ◌≡◌, inl, inr, Bool, true, false, Option, arith,
  string_eq,
}
use holochain_rust.Prelude.HashMap
use holochain_rust.Eav.CrudStatus.{
  live, modified, deleted, CrudStatus, create_crud_link_eav, create_crud_status_eav,
}
use holochain_rust.Cas.{contains, MemoryStorage}
use holochain_rust.Cas.{add}
use holochain_rust.Eav.Storage.{add_eavi, EavMemoryStorage}
use holochain_rust.Eav.Eavi.{Eavi, new_with_index}
use holochain_rust.Eav.Sorted.{IsSorted, set_insert-IsSorted}
use holochain_rust.Dht.{
  DhtStorages, answer_base, reduce_add_remove_link_inner, link_base_known, add_link_eavi,
  LinkModification,
}
use holochain_rust.Dht.Reduce.{
  reduce_add_link, reduce_hold_entry, reduce_update_entry, reduce_remove_entry, DhtStore,
  DhtEnvironment, reduce_remove_link, reduce, reduce_commit_entry,
}
use holochain_rust.Dht.Entries.{
  reduce_update_entry_inner, reduce_remove_entry_inner, note_added, add_meta, check_removable,
  then_store, mark,
}
use holochain_rust.CoreTypes.Entry.{header_address, Entry, Codec, entry_address}
use holochain_rust.Dht.Headers.{
  add_status, reduce_store_entry_inner, add_header_with, then_add_meta, after_content,
  add_header_for_entry, note_stored,
}
use holochain_rust.CoreTypes.Link.{Link}
use holochain_rust.Eav.Storage.Append.{Member-set_insert_old}
use holochain_rust.Actions.{Action, ActionWrapper, EntryWithHeader}
use holochain_rust.CoreTypes.Errors.{HcResult, HolochainError}
use holochain_rust.CoreTypes.Header.{ChainHeader}
use holochain_rust.Eav.Attribute.{Attribute}

-- A shard that has a content at an address and an item, with its items in order and its locks in a
-- given condition
pub record Holds (address : String) (x : Eavi) (content_lock meta_lock : Bool) (s : DhtStorages)
    : Type 0 where
  pub known : HashMap.contains_key s.content_storage.storage address ≡ true
  pub content_locked : s.content_storage.poisoned ≡ content_lock
  pub item : Member x s.meta_storage.storage
  pub sorted : IsSorted s.meta_storage.storage
  pub meta_locked : s.meta_storage.poisoned ≡ meta_lock

module _ (address : String) (x : Eavi) (content_lock meta_lock : Bool) where
  abbrev H : DhtStorages → Type 0
  H = Holds address x content_lock meta_lock

  add_eavi-Holds :
      (s : DhtStorages) (e : Eavi)
      → H s
      → H (record s { meta_storage = (add_eavi s.meta_storage e).1 })
  unfolding add_eavi
  add_eavi-Holds s e h = record {
    known = h.known;
    content_locked = h.content_locked;
    item = elim (Bool-cases s.meta_storage.poisoned) [
      | inl locked ↦ rw locked h.item
      | inr free ↦ rw free (Member-set_insert_old x _ s.meta_storage.storage h.item)
    ];
    sorted = elim (Bool-cases s.meta_storage.poisoned) [
      | inl locked ↦ rw locked h.sorted
      | inr free ↦ rw free (set_insert-IsSorted _ s.meta_storage.storage h.sorted)
    ];
    meta_locked = ground (arith, h.meta_locked);
  }

  add-Holds :
      (s : DhtStorages) (a content : String)
      → H s
      → H (record s { content_storage = (add s.content_storage a content).1 })
  unfolding add HashMap.contains_key
  add-Holds s a content h = record {
    known = ground (arith, h.known, HashMap.get-insert s.content_storage.storage a address content);
    content_locked = ground (arith, h.content_locked);
    item = h.item;
    sorted = h.sorted;
    meta_locked = h.meta_locked;
  }

  note_added-Holds :
      (s : DhtStorages) (r : HcResult (Option Eavi) × EavMemoryStorage)
      → H (record s { meta_storage = r.1 })
      → H (note_added s r).1
  unfolding note_added
  note_added-Holds s (err e, meta) h = h
  note_added-Holds s (ok o, meta) h = h

  add_meta-Holds : (s : DhtStorages) (r : HcResult Eavi) → H s → H (add_meta s r).1
  unfolding add_meta
  add_meta-Holds s (err e) h = h
  add_meta-Holds s (ok eav) h =
      note_added-Holds s (add_eavi s.meta_storage eav) (add_eavi-Holds s eav h)

  then_store-Holds :
      {A : Type 0} (p : HcResult (Unit {0}) × DhtStorages)
      (f : DhtStorages → HcResult A × DhtStorages)
      → H p.1
      → ((t : DhtStorages) → H t → H (f t).1)
      → H (then_store p f).1
  then_store-Holds (err e, s) f h g = h
  then_store-Holds (ok o, s) f h g = g s h

  mark-Holds :
      (is_match : String → Bool) (now later : ℕ) (s : DhtStorages) (a : String)
      (status : CrudStatus) (target result : String)
      → H s
      → H (mark is_match now later s a status target result).1
  unfolding mark
  mark-Holds is_match now later s a status target result h =
      then_store-Holds (add_meta s (create_crud_status_eav is_match now a status)) _
        (add_meta-Holds s (create_crud_status_eav is_match now a status) h)
        λ t k.
          then_store-Holds (add_meta t (create_crud_link_eav is_match later a target)) _
            (add_meta-Holds t (create_crud_link_eav is_match later a target) k) λ u m. m

  answer_base-Holds :
      (s : DhtStorages) (l : Link) (r : HcResult (Option Eavi) × EavMemoryStorage)
      → H (record s { meta_storage = r.1 })
      → H (answer_base s l r).1
  unfolding answer_base
  answer_base-Holds s l (err e, meta) h = h
  answer_base-Holds s l (ok o, meta) h = h

  add_link_eavi-Holds :
      (s : DhtStorages) (l : Link) (r : HcResult Eavi) → H s → H (add_link_eavi s l r).1
  unfolding add_link_eavi
  add_link_eavi-Holds s l (err e) h = h
  add_link_eavi-Holds s l (ok eav) h =
      answer_base-Holds s l (add_eavi s.meta_storage eav) (add_eavi-Holds s eav h)

  link_base_known-Holds :
      (c : Codec) (is_match : String → Bool) (now : ℕ) (s : DhtStorages) (l : Link)
      (m : LinkModification) (r : HcResult Bool)
      → H s
      → H (link_base_known c is_match now s l m r).1
  unfolding link_base_known
  link_base_known-Holds c is_match now s l m (err e) h = h
  link_base_known-Holds c is_match now s l m (ok false) h = h
  link_base_known-Holds c is_match now s l m (ok true) h = add_link_eavi-Holds s l _ h

  then_add_meta-Holds :
      (s : DhtStorages) (eav : HcResult Eavi) (r : HcResult (Unit {0}) × MemoryStorage)
      → H (record s { content_storage = r.1 })
      → H (then_add_meta s eav r).1
  then_add_meta-Holds s eav (err e, content) h = h
  then_add_meta-Holds s eav (ok o, content) h =
      add_meta-Holds (record s { content_storage = content }) eav h

  add_header_with-Holds :
      (c : Codec) (s : DhtStorages) (header : ChainHeader) (r : HcResult Eavi)
      → H s
      → H (add_header_with c s header r).1
  add_header_with-Holds c s header (err e) h = h
  add_header_with-Holds c s header (ok eav) h =
      then_add_meta-Holds s (ok eav)
        (add s.content_storage (header_address c header) (c.header_content header))
        (add-Holds s (header_address c header) (c.header_content header) h)

  note_stored-Holds :
      (debug : HolochainError → String) (p : HcResult (Unit {0}) × DhtStorages)
      → H p.1
      → H (note_stored debug p).1
  note_stored-Holds debug (err e, s) h = h
  note_stored-Holds debug (ok o, s) h = h

  add_status-Holds :
      (debug : HolochainError → String) (s : DhtStorages) (r : HcResult Eavi)
      → H s
      → H (add_status debug s r).1
  add_status-Holds debug s (err e) h = h
  add_status-Holds debug s (ok eav) h =
      note_stored-Holds debug (add_meta s (ok eav)) (add_meta-Holds s (ok eav) h)

  after_content-Holds :
      (debug : HolochainError → String) (s : DhtStorages) (status : HcResult Eavi)
      (r : HcResult (Unit {0}) × MemoryStorage)
      → H (record s { content_storage = r.1 })
      → H (after_content debug s status r).1
  after_content-Holds debug s status (err e, content) h = h
  after_content-Holds debug s status (ok o, content) h =
      add_status-Holds debug (record s { content_storage = content }) status h

  store-Holds :
      (e : DhtEnvironment) (s : DhtStorages) (entry : Entry)
      → H s
      → H (reduce_store_entry_inner e.codec e.debug e.is_match e.now s entry).1
  unfolding reduce_store_entry_inner
  store-Holds e s entry h =
      after_content-Holds e.debug s
        (create_crud_status_eav e.is_match e.now (entry_address e.codec entry) live)
        (add s.content_storage (entry_address e.codec entry) (e.codec.entry_content entry))
        (add-Holds s (entry_address e.codec entry) (e.codec.entry_content entry) h)

  link-Holds :
      (e : DhtEnvironment) (s : DhtStorages) (l : Link) (m : LinkModification)
      → H s
      → H (reduce_add_remove_link_inner e.codec e.is_match e.now s l m).1
  unfolding reduce_add_remove_link_inner
  link-Holds e s l m h =
      link_base_known-Holds e.codec e.is_match e.now s l m (contains s.content_storage l.base) h

  header-Holds :
      (e : DhtEnvironment) (s : DhtStorages) (w : EntryWithHeader)
      → H s
      → H (add_header_for_entry e.codec e.is_match e.later s w.entry w.header).1
  unfolding add_header_for_entry
  header-Holds e s w h =
      add_header_with-Holds e.codec s w.header
        (new_with_index e.is_match (entry_address e.codec w.entry) Attribute.entry_header
          (header_address e.codec w.header) e.later)
        h

  update-Holds :
      (e : DhtEnvironment) (s : DhtStorages) (old new : String)
      → H s
      → H (reduce_update_entry_inner e.is_match e.now e.later s old new).1
  unfolding reduce_update_entry_inner
  update-Holds e s old new h = mark-Holds e.is_match e.now e.later s old modified new new h

  removal-Holds :
      (e : DhtEnvironment) (s : DhtStorages) (removed deletion : String)
      → H s
      → H (reduce_remove_entry_inner e.codec e.is_match e.now e.later s removed deletion).1
  unfolding reduce_remove_entry_inner
  removal-Holds e s removed deletion h =
      then_store-Holds (check_removable e.codec s removed, s)
        (λ t. mark e.is_match e.now e.later t removed deleted deletion removed) h
        λ t k. mark-Holds e.is_match e.now e.later t removed deleted deletion removed k

  action-Holds :
      (e : DhtEnvironment) (s : DhtStore) (a : Action) (id : ℕ)
      → H s.storages
      → H (reduce e s (record { action = a; id = id })).storages
  unfolding reduce reduce_commit_entry reduce_hold_entry reduce_add_link reduce_remove_link
      reduce_update_entry reduce_remove_entry
  action-Holds e s (Action.commit entry update_delete provenances) id h =
      store-Holds e s.storages entry h
  action-Holds e s (Action.hold held) id h =
      then_store-Holds
        (reduce_store_entry_inner e.codec e.debug e.is_match e.now s.storages held.entry)
        (λ t. add_header_for_entry e.codec e.is_match e.later t held.entry held.header)
        (store-Holds e s.storages held.entry h) λ t k. header-Holds e t held k
  action-Holds e s (Action.update_entry old new) id h = update-Holds e s.storages old new h
  action-Holds e s (Action.remove_entry removed deletion) id h =
      removal-Holds e s.storages removed deletion h
  action-Holds e s (Action.add_link l) id h = link-Holds e s.storages l LinkModification.add h
  action-Holds e s (Action.remove_link l) id h = link-Holds e s.storages l LinkModification.remove h
  action-Holds e s _ id h = h

-- No action makes the shard lose a content or an item: an address that is known stays known, an
-- item stays among the items, which stay in order, and a lock is as it was.
pub reduce-Holds :
    (e : DhtEnvironment) (s : DhtStore) (w : ActionWrapper) (address : String) (x : Eavi)
    (content_lock meta_lock : Bool)
    → Holds address x content_lock meta_lock s.storages
    → Holds address x content_lock meta_lock (reduce e s w).storages
reduce-Holds e s w address x content_lock meta_lock h =
    action-Holds address x content_lock meta_lock e s w.action w.id h
