-- ===== src/Dht/Entries/Final.antt =====
-- The removal of an entry is final.
use mathlib.Core.Path.{subst}
use holochain_rust.Prelude.{
  Bool-cases, Option-cases, length, Member, ok, err, ℕ, suc, ◌+◌, ◌^◌, ◌<◌, String, ◌≡◌, refl, sym,
  ap, ◌∙◌, inl, inr, Bool, true, false, Option, some, List, [], ◌∷◌, arith, eq_iff, string_eq,
}
use holochain_rust.Eav.Attribute.{Attribute, attribute_eq}
use holochain_rust.Prelude.HashMap
use holochain_rust.Cas.{fetch}
use holochain_rust.Dht.{DhtStorages}
use holochain_rust.Dht.Reduce.{DhtEnvironment, DhtStore, reduce}
use holochain_rust.Dht.Grows.{Holds, reduce-Holds}
use holochain_rust.Actions.{ActionWrapper}
use holochain_rust.Eav.Eavi.{Eavi, new_with_index, validate_attribute}
use holochain_rust.Eav.Storage.{increment_key_till_no_collision, EavMemoryStorage, add_eavi}
use holochain_rust.Eav.CrudStatus.{create_crud_link_eav, create_crud_status_eav, status_string}
use holochain_rust.Dht.Entries.{
  add_meta, note_added, mark, deleted, check_removable, then_store, reduce_remove_entry_inner,
  load_entry,
}
use holochain_rust.Eav.Storage.Append.{add_eavi_lem}
use holochain_rust.Eav.Sorted.{IsSorted}
use holochain_rust.Dht.Entries.Removal.{remove_refused, add_eavi-Member}
use holochain_rust.CoreTypes.Errors.{HolochainError, HcResult}
use holochain_rust.CoreTypes.Entry.{Codec}

-- the items that a removal adds
abbrev pub deleted_item : String → ℕ → Eavi
deleted_item address now = record {
  entity = address;
  attribute = Attribute.crud_status;
  value = "deleted";
  index = now;
}

abbrev pub link_item : String → String → ℕ → Eavi
link_item address target later = record {
  entity = address;
  attribute = Attribute.crud_link;
  value = target;
  index = later;
}

abbrev pub meta_after : EavMemoryStorage → String → String → ℕ → ℕ → EavMemoryStorage
meta_after meta address target now later =
    (add_eavi (add_eavi meta (deleted_item address now)).1 (link_item address target later)).1

add_eavi_ok :
    (meta : EavMemoryStorage) (e : Eavi)
    → meta.poisoned ≡ false
    → (r : Option Eavi) × (add_eavi meta e ≡ (ok r, (add_eavi meta e).1))
unfolding add_eavi
add_eavi_ok meta e p = rw p (some (increment_key_till_no_collision e meta.storage), refl)

add_eavi-poisoned :
    (meta : EavMemoryStorage) (e : Eavi)
    → meta.poisoned ≡ false
    → (add_eavi meta e).1.poisoned ≡ false
unfolding add_eavi
add_eavi-poisoned meta e p = ground (arith, p)

pub add_meta_lem :
    (s : DhtStorages) (e : Eavi)
    → s.meta_storage.poisoned ≡ false
    → add_meta s (ok e) ≡ (ok tt, record s { meta_storage = (add_eavi s.meta_storage e).1 })
unfolding add_meta note_added
add_meta_lem s e p = let (r, added) = add_eavi_ok s.meta_storage e p in ground (arith, added)

mark_lem :
    (is_match : String → Bool) (now later : ℕ) (s : DhtStorages) (address target result : String)
    → s.meta_storage.poisoned ≡ false
    → mark is_match now later s address deleted target result
      ≡ (ok result, record s { meta_storage = meta_after s.meta_storage address target now later })
unfolding mark create_crud_status_eav create_crud_link_eav new_with_index validate_attribute
    status_string
mark_lem is_match now later s address target result p =
    let t = record s { meta_storage = (add_eavi s.meta_storage (deleted_item address now)).1 } in
    ground (
      arith,
      add_meta_lem s (deleted_item address now) p,
      add_meta_lem t (link_item address target later)
          (add_eavi-poisoned s.meta_storage (deleted_item address now) p),
    )

-- After a removal the store has an item that says so.
meta_after-Member :
    (meta : EavMemoryStorage) (address target : String) (now later : ℕ)
    → meta.poisoned ≡ false
    → IsSorted meta.storage
    → now + suc (length meta.storage) < 2 ^ 64
    → (x : Eavi) × ((meta_after meta address target now later).poisoned ≡ false)
      × IsSorted (meta_after meta address target now later).storage
      × Member x (meta_after meta address target now later).storage
      × (x.entity ≡ address)
      × (x.attribute ≡ Attribute.crud_status)
      × (x.value ≡ "deleted")
meta_after-Member meta address target now later p sorted room =
    let (x, t, added, placed, s1, p1, members) =
      add_eavi_lem meta (deleted_item address now) p sorted room in
    let next : t ≡ (add_eavi meta (deleted_item address now)).1 = ap (λ r. r.1) (sym added) in
    let (p2, s2, m2) =
      add_eavi-Member t (link_item address target later) x p1 s1 ((members x).1 (inr refl)) in
    let whole : (add_eavi t (link_item address target later)).1
        ≡ meta_after meta address target now later =
      ap (λ m. (add_eavi m (link_item address target later)).1) next in
    (
      x,
      subst (λ m. m.poisoned ≡ false) whole p2,
      subst (λ m. IsSorted m.storage) whole s2,
      subst (λ m. Member x m.storage) whole m2,
      placed.entity,
      placed.attribute,
      placed.value,
    )

removed_lem :
    (check : HcResult (Unit {0})) (s : DhtStorages)
    (f : DhtStorages → HcResult String × DhtStorages) {r : String} {s' : DhtStorages}
    → then_store (check, s) f ≡ (ok r, s')
    → f s ≡ (ok r, s')
removed_lem (ok x) s f run = run
removed_lem (err e) s f run = cc

checked_lem :
    (check : HcResult (Unit {0})) (s : DhtStorages)
    (f : DhtStorages → HcResult String × DhtStorages) {r : String} {s' : DhtStorages}
    → then_store (check, s) f ≡ (ok r, s')
    → check ≡ ok tt
checked_lem (ok x) s f run = refl
checked_lem (err e) s f run = cc

-- What can be removed is stored.
check_removable-known :
    (c : Codec) (s : DhtStorages) (address : String)
    → check_removable c s address ≡ ok tt
    → HashMap.contains_key s.content_storage.storage address ≡ true
unfolding check_removable load_entry fetch HashMap.contains_key
check_removable-known c s address h = elim (Bool-cases s.content_storage.poisoned) [
  | inl locked ↦ absurd (ground (arith, locked, h))
  | inr free ↦ elim (Option-cases (HashMap.get s.content_storage.storage address)) [
    | inl missing ↦ absurd (ground (arith, free, missing, h))
    | inr (content, found) ↦ rw found refl
  ]
]

-- The shard after a run of actions, each in an environment of its own
abbrev pub after : List (DhtEnvironment × ActionWrapper) → DhtStore → DhtStore
after [] s = s
after ((e, w) ∷ actions) s = after actions (reduce e s w)

after-Holds :
    (actions : List (DhtEnvironment × ActionWrapper)) (s : DhtStore) (address : String) (x : Eavi)
    (content_lock meta_lock : Bool)
    → Holds address x content_lock meta_lock s.storages
    → Holds address x content_lock meta_lock (after actions s).storages
after-Holds [] s address x content_lock meta_lock h = h
after-Holds ((e, w) ∷ actions) s address x content_lock meta_lock h =
    after-Holds actions (reduce e s w) address x content_lock meta_lock
      (reduce-Holds e s w address x content_lock meta_lock h)

-- A removal that succeeds leaves an item that says so, and the content.
removed-Holds :
    (c : Codec) (is_match : String → Bool) (now later : ℕ) (s t : DhtStorages)
    (address target r : String)
    → s.meta_storage.poisoned ≡ false
    → IsSorted s.meta_storage.storage
    → now + suc (length s.meta_storage.storage) < 2 ^ 64
    → reduce_remove_entry_inner c is_match now later s address target ≡ (ok r, t)
    → (x : Eavi) × Holds address x s.content_storage.poisoned false t
      × (x.entity ≡ address)
      × (x.attribute ≡ Attribute.crud_status)
      × (x.value ≡ "deleted")
unfolding reduce_remove_entry_inner
removed-Holds c is_match now later s t address target r p sorted room run =
    let check = check_removable c s address in
    let marking : DhtStorages → HcResult String × DhtStorages =
      λ t. mark is_match now later t address deleted target address in
    let final : record s { meta_storage = meta_after s.meta_storage address target now later } ≡ t =
      ap (λ q. q.1) (sym (mark_lem is_match now later s address target address p))
      ∙ ap (λ q. q.1) (removed_lem check s marking run) in
    let (x, p1, s1, among, same, status, value) =
      meta_after-Member s.meta_storage address target now later p sorted room in
    (
      x,
      subst (λ u. Holds address x s.content_storage.poisoned false u) final
          (record {
            known = check_removable-known c s address (checked_lem check s marking run);
            content_locked = refl;
            item = among;
            sorted = s1;
            meta_locked = p1;
          }),
      same,
      status,
      value,
    )

-- Where the lock on the items is intact, the items are sorted, and their indices do not run out, a
-- removal is final: once an entry was removed, and after whatever actions the shard has reduced
-- since, at any times, every other attempt to remove the entry fails and changes nothing.
pub remove_final :
    (c c' : Codec) (is_match is_match' : String → Bool) (now later now' later' : ℕ)
    (s : DhtStorages) (t : DhtStore) (actions : List (DhtEnvironment × ActionWrapper))
    (address target target' r : String)
    → s.meta_storage.poisoned ≡ false
    → IsSorted s.meta_storage.storage
    → now + suc (length s.meta_storage.storage) < 2 ^ 64
    → reduce_remove_entry_inner c is_match now later s address target ≡ (ok r, t.storages)
    → (e : HolochainError) × (reduce_remove_entry_inner c' is_match' now' later'
          (after actions t).storages
          address
          target'
        ≡ (err e, (after actions t).storages))
remove_final c c' is_match is_match' now later now' later' s t actions address target target' r p
      sorted room run =
    let (x, held, same, status, value) =
      removed-Holds c is_match now later s t.storages address target r p sorted room run in
    let still = after-Holds actions t address x s.content_storage.poisoned false held in
    remove_refused c' is_match' now' later' (after actions t).storages address target' x
      still.meta_locked still.sorted still.item same status
      (λ q. ground (arith, value, q, eq_iff "deleted" "live"))
