-- ===== src/Net/Server/Serve.antt =====
-- `InMemoryServer::serve`: what happens to each message of a node. A message that is not one of
-- the protocol, `none`, is passed over.
use holochain_rust.Prelude.HashMap
use holochain_rust.Prelude.{if◌then◌else◌, String, Option, none, some, string_eq}
use holochain_rust.Net.Server.State.{M, ◌>>◌, pure, if_tracking, done}
use holochain_rust.Net.Protocol.{JsonProtocol, SuccessResultData, TrackDnaData, FailureResultData}
use holochain_rust.Net.Server.Cells.{priv_check_request}
use holochain_rust.Net.Server.Lists.{
  priv_serve_handle_get_publishing_meta_list_result, priv_serve_handle_get_holding_meta_list_result,
  priv_serve_handle_get_publishing_entry_list_result,
  priv_serve_handle_get_holding_entry_list_result,
}
use holochain_rust.Net.Server.Metas.{
  priv_serve_handle_fetch_meta_result, priv_serve_fetch_meta, priv_serve_publish_meta,
}
use holochain_rust.Net.Server.Sends.{
  priv_send_one, is_tracking, priv_send_all, priv_request_all_lists, priv_check_or_fail,
}
use holochain_rust.Net.Server.Entries.{
  priv_serve_publish_entry, priv_serve_send_message, priv_serve_handle_send_message_result,
  priv_serve_fetch_entry, priv_serve_handle_fetch_entry_result,
}
use holochain_rust.Net.Book.{into_cell_id}

unfoldable pub serve_success_result : SuccessResultData → M (Unit {0})
unfolding priv_check_or_fail priv_send_one
serve_success_result msg =
    if_tracking (priv_check_or_fail msg.dna_address msg.to_agent_id none)
      (priv_send_one msg.dna_address msg.to_agent_id (JsonProtocol.success_result msg))

unfoldable pub relay_failure : FailureResultData → M (Unit {0})
unfolding priv_check_request priv_send_one
relay_failure msg s = elim (priv_check_request s msg.request_id) [
  | some cell_id ↦ pure tt s
  | none ↦ priv_send_one msg.dna_address msg.to_agent_id (JsonProtocol.failure_result msg) s
]

unfoldable pub serve_failure_result : FailureResultData → M (Unit {0})
unfolding priv_check_or_fail relay_failure
serve_failure_result msg =
    if_tracking (priv_check_or_fail msg.dna_address msg.to_agent_id none) (relay_failure msg)

unfoldable pub add_tracking : String → String → M (Unit {0})
unfolding into_cell_id
add_tracking dna_address agent_id s = (
  done tt,
  record s {
    trackdna_book = HashMap.insert s.trackdna_book (into_cell_id dna_address agent_id) tt;
  },
)

unfoldable pub serve_track_dna : TrackDnaData → M (Unit {0})
unfolding is_tracking add_tracking priv_send_all priv_request_all_lists
serve_track_dna msg s =
    if is_tracking s msg.dna_address msg.agent_id
    then pure tt s
    else (do
      add_tracking msg.dna_address msg.agent_id
      priv_send_all msg.dna_address
          (JsonProtocol.peer_connected (record { agent_id = msg.agent_id }))
      priv_request_all_lists msg.dna_address msg.agent_id)
        s

unfoldable pub serve_untrack_dna : TrackDnaData → M (Unit {0})
unfolding is_tracking into_cell_id
serve_untrack_dna msg s =
    if is_tracking s msg.dna_address msg.agent_id
    then (
      done tt,
      record s {
        trackdna_book = HashMap.remove s.trackdna_book (into_cell_id msg.dna_address msg.agent_id);
      },
    )
    else pure tt s

unfoldable pub serve : Option JsonProtocol → M (Unit {0})
unfolding serve_success_result serve_failure_result serve_track_dna serve_untrack_dna
    priv_serve_send_message priv_serve_handle_send_message_result priv_serve_fetch_entry
    priv_serve_handle_fetch_entry_result priv_serve_publish_entry priv_serve_fetch_meta
    priv_serve_handle_fetch_meta_result priv_serve_publish_meta
    priv_serve_handle_get_publishing_entry_list_result
    priv_serve_handle_get_holding_entry_list_result
    priv_serve_handle_get_publishing_meta_list_result priv_serve_handle_get_holding_meta_list_result
serve none = pure tt
serve (some (JsonProtocol.success_result msg)) = serve_success_result msg
serve (some (JsonProtocol.failure_result msg)) = serve_failure_result msg
serve (some (JsonProtocol.track_dna msg)) = serve_track_dna msg
serve (some (JsonProtocol.untrack_dna msg)) = serve_untrack_dna msg
serve (some (JsonProtocol.send_message msg)) = priv_serve_send_message msg
serve (some (JsonProtocol.handle_send_message_result msg)) =
    priv_serve_handle_send_message_result msg
serve (some (JsonProtocol.fetch_entry msg)) = priv_serve_fetch_entry msg
serve (some (JsonProtocol.handle_fetch_entry_result msg)) = priv_serve_handle_fetch_entry_result msg
serve (some (JsonProtocol.publish_entry msg)) = priv_serve_publish_entry msg
serve (some (JsonProtocol.fetch_meta msg)) = priv_serve_fetch_meta msg
serve (some (JsonProtocol.handle_fetch_meta_result msg)) = priv_serve_handle_fetch_meta_result msg
serve (some (JsonProtocol.publish_meta msg)) = priv_serve_publish_meta msg
serve (some (JsonProtocol.handle_get_publishing_entry_list_result msg)) =
    priv_serve_handle_get_publishing_entry_list_result msg
serve (some (JsonProtocol.handle_get_holding_entry_list_result msg)) =
    priv_serve_handle_get_holding_entry_list_result msg
serve (some (JsonProtocol.handle_get_publishing_meta_list_result msg)) =
    priv_serve_handle_get_publishing_meta_list_result msg
serve (some (JsonProtocol.handle_get_holding_meta_list_result msg)) =
    priv_serve_handle_get_holding_meta_list_result msg
serve _ = pure tt
