-- ===== src/Dht/Entries/Removal.antt =====
-- When an entry cannot be removed.
use holochain_rust.Prelude.{
  if◌then◌else◌, Bool-cases, ◌==◌, any, Member, here, there, ok, err, and_then, ℕ, String, ◌≡◌,
  refl, ◌≢◌, inl, inr, Bool, true, false, List, [], ◌∷◌, arith, eq_iff, string_eq,
}
use holochain_rust.Eav.Attribute.{Attribute, attribute_eq, attribute_beq_iff}
use holochain_rust.Dht.{DhtStorages}
use holochain_rust.Eav.Query.{single, run}
use holochain_rust.Dht.Entries.{
  check_live, load_entry, reduce_remove_entry_inner, not_live, status_query, check_removable,
}
use holochain_rust.CoreTypes.Entry.{entry_type, Entry, Codec}
use holochain_rust.Eav.Query.Newest.{run-newest}
use holochain_rust.Eav.Storage.{fetch_eavi, EavMemoryStorage, add_eavi}
use holochain_rust.Eav.Sorted.{IsSorted, set_insert-IsSorted}
use holochain_rust.CoreTypes.Errors.{HcResult, error_generic, HolochainError}
use holochain_rust.CoreTypes.EntryType.{is_sys}
use holochain_rust.Eav.Eavi.{Eavi}
use holochain_rust.Eav.Storage.Append.{Member-set_insert_old}

any_of : (p : Eavi → Bool) (y : Eavi) (l : List Eavi) → Member y l → p y ≡ true → any p l ≡ true
any_of p y [] m h = elim m [ ]
any_of p y (z ∷ l) here h = ground arith
any_of p y (z ∷ l) (there m) h = ground (arith, any_of p y l m h)

check_live_refused :
    (meta : EavMemoryStorage) (address : String) (x : Eavi)
    → meta.poisoned ≡ false
    → IsSorted meta.storage
    → Member x meta.storage
    → x.entity ≡ address
    → x.attribute ≡ Attribute.crud_status
    → not_live x ≡ true
    → check_live meta address ≡ err (error_generic "entry_status != CrudStatus::Live")
unfolding check_live fetch_eavi
check_live_refused meta address x p sorted among same status bad =
    let (y, found, v) =
      run-newest address (single Attribute.crud_status) meta.storage x sorted among same
        ((attribute_beq_iff x.attribute Attribute.crud_status).1 status) in
    let y_bad : not_live y ≡ true = rw v bad in
    ground (arith, p, any_of not_live y (run (status_query address) meta.storage) found y_bad)

checked_entry_refused :
    (r : HcResult Entry) (check : HcResult (Unit {0})) (problem : HolochainError)
    → check ≡ err problem
    → (e : HolochainError) × (and_then r (λ entry.
          if is_sys (entry_type entry)
          then err (error_generic "trying to remove a system entry type")
          else check)
        ≡ err e)
checked_entry_refused (err x) check problem h = (x, refl)
checked_entry_refused (ok entry) check problem h = elim (Bool-cases (is_sys (entry_type entry))) [
  | inl system ↦ (error_generic "trying to remove a system entry type", ground arith)
  | inr other ↦ (problem, ground arith)
]

check_removable_refused :
    (c : Codec) (s : DhtStorages) (address : String) (x : Eavi)
    → s.meta_storage.poisoned ≡ false
    → IsSorted s.meta_storage.storage
    → Member x s.meta_storage.storage
    → x.entity ≡ address
    → x.attribute ≡ Attribute.crud_status
    → not_live x ≡ true
    → (e : HolochainError) × (check_removable c s address ≡ err e)
unfolding check_removable
check_removable_refused c s address x p sorted among same status bad =
    checked_entry_refused (load_entry c s.content_storage address)
      (check_live s.meta_storage address) (error_generic "entry_status != CrudStatus::Live")
      (check_live_refused s.meta_storage address x p sorted among same status bad)

value-not_live : (x : Eavi) → x.value ≢ "live" → not_live x ≡ true
value-not_live x other = elim (Bool-cases (x.value == "live")) [
  | inl same ↦ absurd (other ((eq_iff x.value "live").0 same))
  | inr not_same ↦ rw not_same refl
]

-- Where the lock on the items is intact and the items are sorted, an entry that has, or ever had, a
-- status other than live cannot be removed: the reducer fails and changes nothing.
pub remove_refused :
    (c : Codec) (is_match : String → Bool) (now later : ℕ) (s : DhtStorages)
    (address deletion_address : String) (x : Eavi)
    → s.meta_storage.poisoned ≡ false
    → IsSorted s.meta_storage.storage
    → Member x s.meta_storage.storage
    → x.entity ≡ address
    → x.attribute ≡ Attribute.crud_status
    → x.value ≢ "live"
    → (e : HolochainError) × (reduce_remove_entry_inner c is_match now later s address
          deletion_address
        ≡ (err e, s))
unfolding reduce_remove_entry_inner
remove_refused c is_match now later s address deletion_address x p sorted among same status other =
    let bad : not_live x ≡ true = value-not_live x other in
    let (e, refused) = check_removable_refused c s address x p sorted among same status bad in
    (e, rw refused refl)

pub add_eavi-Member :
    (meta : EavMemoryStorage) (e x : Eavi)
    → meta.poisoned ≡ false
    → IsSorted meta.storage
    → Member x meta.storage
    → ((add_eavi meta e).1.poisoned ≡ false)
      × IsSorted (add_eavi meta e).1.storage
      × Member x (add_eavi meta e).1.storage
unfolding add_eavi
add_eavi-Member meta e x p sorted among =
    rw p (
      refl,
      set_insert-IsSorted _ meta.storage sorted,
      Member-set_insert_old x _ meta.storage among,
    )
