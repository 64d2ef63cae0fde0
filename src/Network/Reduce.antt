-- ===== src/Network/Reduce.antt =====
-- core/src/network/reducers/mod.rs: which action is reduced by which reducer. `none` is a panic, or
-- that the fuel for the iteration of the chain ran out.
use holochain_rust.Prelude.{ℕ, Option, some}
use holochain_rust.Network.Requests.{
  reduce_get_validation_package, reduce_handle_get_validation_package,
  reduce_handle_get_links_result, reduce_handle_get_result, reduce_get_entry, reduce_get_links,
  reduce_get_entry_timeout, reduce_get_links_timeout,
}
use holochain_rust.Network.Messages.{
  reduce_handle_custom_send_response, reduce_respond_get_links, reduce_init,
  reduce_send_direct_message, reduce_respond_fetch_data, reduce_resolve_direct_connection,
  reduce_send_direct_message_timeout,
}
use holochain_rust.CoreTypes.Header.{ChainHeader}
use holochain_rust.Network.{NetworkEnvironment, NetworkState}
use holochain_rust.Network.Publish.{reduce_publish}
use holochain_rust.Cas.{MemoryStorage}
use holochain_rust.Actions.{Action, ActionWrapper}

unfoldable pub reduce :
    NetworkEnvironment
    → ℕ
    → MemoryStorage
    → Option ChainHeader
    → NetworkState
    → ActionWrapper
    → Option NetworkState
unfolding reduce_get_entry reduce_get_entry_timeout reduce_get_links reduce_get_links_timeout
    reduce_get_validation_package reduce_handle_custom_send_response reduce_handle_get_result
    reduce_handle_get_links_result reduce_handle_get_validation_package reduce_init reduce_publish
    reduce_resolve_direct_connection reduce_respond_fetch_data reduce_respond_get_links
    reduce_send_direct_message reduce_send_direct_message_timeout
reduce e fuel st top s w = elim w.action [
  | Action.fetch_entry key ↦ reduce_get_entry e s key
  | Action.get_entry_timeout key ↦ some (reduce_get_entry_timeout s key)
  | Action.get_links key ↦ reduce_get_links e s key
  | Action.get_links_timeout key ↦ some (reduce_get_links_timeout s key)
  | Action.get_validation_package header ↦ reduce_get_validation_package e s header
  | Action.handle_custom_send_response id response ↦
      some (reduce_handle_custom_send_response s id response)
  | Action.handle_fetch_result d ↦ some (reduce_handle_get_result e s d)
  | Action.handle_get_links_result d link_type tag ↦
      reduce_handle_get_links_result e s d link_type tag
  | Action.handle_get_validation_package address p ↦
      some (reduce_handle_get_validation_package s address p)
  | Action.init_network settings ↦ reduce_init e s settings
  | Action.publish address ↦ reduce_publish e fuel st top s w.id address
  | Action.resolve_direct_connection id ↦ some (reduce_resolve_direct_connection s id)
  | Action.respond_fetch d maybe_entry ↦ reduce_respond_fetch_data e s w.id d maybe_entry
  | Action.respond_get_links d links ↦ reduce_respond_get_links e s w.id d links
  | Action.send_direct_message d ↦ reduce_send_direct_message e s d
  | Action.send_direct_message_timeout id ↦ some (reduce_send_direct_message_timeout s id)
  | other ↦ some s
]
