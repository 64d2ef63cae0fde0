-- ===== src/Network/Publish.antt =====
-- core/src/network/reducers/publish.rs and core/src/network/entry_with_header.rs: an entry of the
-- source chain is sent to the network with its header and what it says about other entries. The
-- content store and the top of the chain are those of the agent's state.
use holochain_rust.Prelude.HashMap
use holochain_rust.Prelude.{
  if◌then◌else◌, ◌==◌, ok, err, and_then, ok_or, ℕ, String, Option, none, some, [], ◌∷◌,
  unless_panic, string_eq, nat_eq,
}
use holochain_rust.Net.Protocol.{JsonProtocol}
use holochain_rust.Network.{
  initialized, send, then_send, NetworkEnvironment, NetworkState, conclude, ActionResponse,
  once_initialized,
}
use holochain_rust.Chain.Store.{search, next}
use holochain_rust.Cas.{fetch, MemoryStorage}
use holochain_rust.Eav.CrudStatus.{modified, deleted, CrudStatus, status_string}
use holochain_rust.Eav.Attribute.{display, Attribute}
use Prim.Native.String.{◌++◌ as text_append}
use holochain_rust.Actions.{EntryWithHeader}
use holochain_rust.CoreTypes.Errors.{HcResult, error_text, error_generic, HolochainError}
use holochain_rust.CoreTypes.Entry.{entry_type, entry_address, Entry, Codec}
use holochain_rust.Network.Messages.{as_text}
use holochain_rust.CoreTypes.Header.{ChainHeader}
use holochain_rust.CoreTypes.EntryType.{EntryType}

unfoldable pub fetch_entry_from_cas : Codec → MemoryStorage → String → HcResult Entry
unfolding fetch
fetch_entry_from_cas c st address =
    and_then (fetch st address)
      λ o. and_then (ok_or o (error_generic "Entry not found")) λ json. c.entry_of_content json

-- `find_chain_header` of core/src/agent/mod.rs, on fuel
unfoldable pub find_chain_header :
    Codec → ℕ → MemoryStorage → Option ChainHeader → Entry → Option (Option ChainHeader)
unfolding search next entry_address
find_chain_header c fuel st top entry =
    search (next c st) fuel (λ h. h.entry_address == entry_address c entry) top

unfoldable pub with_header :
    Codec
    → ℕ
    → MemoryStorage
    → Option ChainHeader
    → HcResult Entry
    → Option (HcResult EntryWithHeader)
unfolding find_chain_header
with_header c fuel st top (err x) = some (err x)
with_header c fuel st top (ok entry) = unless_panic (find_chain_header c fuel st top entry) λ found.
    some (
      and_then (ok_or found (error_generic "No header found for entry"))
        λ header. ok (record { entry = entry; header = header }))

unfoldable pub fetch_entry_with_header :
    Codec → ℕ → MemoryStorage → Option ChainHeader → String → Option (HcResult EntryWithHeader)
unfolding with_header fetch_entry_from_cas
fetch_entry_with_header c fuel st top address =
    with_header c fuel st top (fetch_entry_from_cas c st address)

-- The identities are those of the state, which the sends leave as they are.
module _ (e : NetworkEnvironment) (dna agent : String) where
  unfoldable pub publish_entry : NetworkState → EntryWithHeader → HcResult (Unit {0}) × NetworkState
  unfolding send entry_address
  publish_entry s w = send e s (
      JsonProtocol.publish_entry (record {
        dna_address = dna;
        provider_agent_id = agent;
        entry_address = entry_address e.codec w.entry;
        entry_content = e.entry_with_header_json w;
      }))

  unfoldable pub publish_meta :
      NetworkState → String → String → EntryWithHeader → HcResult (Unit {0}) × NetworkState
  unfolding send
  publish_meta s address attribute w = send e s (
      JsonProtocol.publish_meta (record {
        dna_address = dna;
        provider_agent_id = agent;
        entry_address = address;
        attribute = attribute;
        content_list = e.entry_with_header_json w ∷ [];
      }))

  -- The attribute is the name of the status itself.
  unfoldable pub publish_update_delete_meta :
      NetworkState → String → CrudStatus → EntryWithHeader → HcResult (Unit {0}) × NetworkState
  unfolding publish_meta status_string
  publish_update_delete_meta s address status w = publish_meta s address (status_string status) w

  unfoldable pub publish_link_meta :
      NetworkState → EntryWithHeader → HcResult (Unit {0}) × NetworkState
  unfolding publish_meta display
  publish_link_meta s w = elim w.entry [
    | Entry.link_add l ↦ publish_meta s l.link.base (display Attribute.link) w
    | Entry.link_remove l ↦ publish_meta s l.link.base (display Attribute.link_remove) w
    | other ↦ (
      err (
          error_generic (
            text_append "Received bad entry type. Expected Entry::LinkAdd received "
              (e.entry_debug w.entry))),
      s,
    )
  ]

  -- The `match` of `reduce_publish_inner`
  unfoldable pub publish_by_type :
      NetworkState → EntryWithHeader → HcResult (Unit {0}) × NetworkState
  unfolding publish_entry publish_update_delete_meta publish_link_meta entry_type entry_address
  publish_by_type s w = elim (entry_type w.entry) [
    | EntryType.agent_id ↦ publish_entry s w
    | EntryType.app name ↦ then_send (publish_entry s w) λ t.
        if HashMap.is_some w.header.link_update_delete
        then publish_update_delete_meta t (entry_address e.codec w.entry) modified w
        else (ok tt, t)
    | EntryType.link_add ↦ then_send (publish_entry s w) λ t. publish_link_meta t w
    | EntryType.link_remove ↦ then_send (publish_entry s w) λ t. publish_link_meta t w
    | EntryType.deletion ↦
        then_send (publish_entry s w)
          λ t. publish_update_delete_meta t (entry_address e.codec w.entry) deleted w
    | other ↦ (err (HolochainError.not_implemented "reduce_publish_inner"), s)
  ]

-- The `unwrap` of the identities, which the program does after the entry was fetched, does not panic
-- on a state that is initialized.
abbrev pub publish_fetched :
    NetworkEnvironment
    → NetworkState
    → Option (HcResult EntryWithHeader)
    → String
    → String
    → Option (HcResult (Unit {0}) × NetworkState)
publish_fetched e s none dna agent = none
publish_fetched e s (some (err x)) dna agent = some (err x, s)
publish_fetched e s (some (ok w)) dna agent = some (publish_by_type e dna agent s w)

unfoldable pub reduce_publish_inner :
    NetworkEnvironment
    → ℕ
    → MemoryStorage
    → Option ChainHeader
    → NetworkState
    → String
    → Option (HcResult (Unit {0}) × NetworkState)
unfolding initialized publish_by_type fetch_entry_with_header
reduce_publish_inner e fuel st top s address =
    once_initialized s (publish_fetched e s (fetch_entry_with_header e.codec fuel st top address))

unfoldable pub reduce_publish :
    NetworkEnvironment
    → ℕ
    → MemoryStorage
    → Option ChainHeader
    → NetworkState
    → ℕ
    → String
    → Option NetworkState
unfolding reduce_publish_inner error_text
reduce_publish e fuel st top s id address =
    conclude (reduce_publish_inner e fuel st top s address) λ result t. record t {
      actions = HashMap.insert t.actions id (ActionResponse.publish (as_text address result));
    }
