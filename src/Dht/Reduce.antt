-- ===== src/Dht/Reduce.antt =====
-- core/src/dht/dht_reducers.rs: the state of the DHT slice and which action is reduced by which
-- inner reducer. The storages are shared by all copies of a state, so they are as the inner reducer
-- leaves them also where the copy of the state is dropped.
use holochain_rust.Prelude.{Map, ℕ, String, Bool, nat_eq}
use holochain_rust.Prelude.HashMap
use holochain_rust.CoreTypes.Entry.{Codec, Entry}
use holochain_rust.Dht.Entries.{reduce_remove_entry_inner, reduce_update_entry_inner, then_store}
use holochain_rust.Dht.Headers.{reduce_store_entry_inner, add_header_for_entry}
use holochain_rust.Dht.{reduce_add_remove_link_inner, DhtStorages, LinkModification}
use holochain_rust.Actions.{ActionWrapper, Action, EntryWithHeader}
use holochain_rust.CoreTypes.Link.{Link}
use holochain_rust.CoreTypes.Errors.{HolochainError, HcResult}

pub record DhtStore : Type 0 where
  pub storages : DhtStorages
  pub actions : Map ℕ (HcResult String)

-- What the reducers take from elsewhere: the clock at the two items that an action may add, the
-- regular expression for names, and the debug text of errors
pub record DhtEnvironment : Type 0 where
  pub codec : Codec
  pub now : ℕ
  pub later : ℕ
  pub is_match : String → Bool
  pub debug : HolochainError → String

-- `new_store.actions_mut().insert(action_wrapper.clone(), res)`
abbrev pub record_result : DhtStore → ℕ → HcResult String × DhtStorages → DhtStore
record_result s id (res, storages) = record {
  storages = storages;
  actions = HashMap.insert s.actions id res;
}

-- The copy of the state that is returned or dropped differs from the old one in nothing else.
abbrev pub keep_storages : DhtStore → HcResult (Unit {0}) × DhtStorages → DhtStore
keep_storages s (res, storages) = record s { storages = storages }

unfoldable pub reduce_commit_entry : DhtEnvironment → DhtStore → Entry → DhtStore
unfolding reduce_store_entry_inner
reduce_commit_entry e s entry =
    keep_storages s (reduce_store_entry_inner e.codec e.debug e.is_match e.now s.storages entry)

unfoldable pub reduce_hold_entry : DhtEnvironment → DhtStore → EntryWithHeader → DhtStore
unfolding reduce_store_entry_inner add_header_for_entry
reduce_hold_entry e s w = keep_storages s (
    then_store (reduce_store_entry_inner e.codec e.debug e.is_match e.now s.storages w.entry)
      λ t. add_header_for_entry e.codec e.is_match e.later t w.entry w.header)

unfoldable pub reduce_add_link : DhtEnvironment → DhtStore → ℕ → Link → DhtStore
unfolding reduce_add_remove_link_inner
reduce_add_link e s id link =
    record_result s id
      (reduce_add_remove_link_inner e.codec e.is_match e.now s.storages link LinkModification.add)

unfoldable pub reduce_remove_link : DhtEnvironment → DhtStore → ℕ → Link → DhtStore
unfolding reduce_add_remove_link_inner
reduce_remove_link e s id link =
    record_result s id (
      reduce_add_remove_link_inner e.codec e.is_match e.now s.storages link LinkModification.remove)

unfoldable pub reduce_update_entry : DhtEnvironment → DhtStore → ℕ → String → String → DhtStore
unfolding reduce_update_entry_inner
reduce_update_entry e s id old_address new_address =
    record_result s id
      (reduce_update_entry_inner e.is_match e.now e.later s.storages old_address new_address)

unfoldable pub reduce_remove_entry : DhtEnvironment → DhtStore → ℕ → String → String → DhtStore
unfolding reduce_remove_entry_inner
reduce_remove_entry e s id deleted_address deletion_address = record_result s id (
    reduce_remove_entry_inner e.codec e.is_match e.now e.later s.storages deleted_address
      deletion_address)

-- `reduce` with its `resolve_reducer`
unfoldable pub reduce : DhtEnvironment → DhtStore → ActionWrapper → DhtStore
unfolding reduce_commit_entry reduce_hold_entry reduce_add_link reduce_remove_link
    reduce_update_entry reduce_remove_entry
reduce e s w = elim w.action [
  | Action.commit entry update_delete provenances ↦ reduce_commit_entry e s entry
  | Action.hold held ↦ reduce_hold_entry e s held
  | Action.update_entry old_address new_address ↦
      reduce_update_entry e s w.id old_address new_address
  | Action.remove_entry deleted_address deletion_address ↦
      reduce_remove_entry e s w.id deleted_address deletion_address
  | Action.add_link link ↦ reduce_add_link e s w.id link
  | Action.remove_link link ↦ reduce_remove_link e s w.id link
  | other ↦ s
]
