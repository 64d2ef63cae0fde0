-- ===== src/Net/Server/Serves.antt =====
-- The handlers of results and of tracking, and `serve` itself, extend the state.
use holochain_rust.Prelude.HashMap
use holochain_rust.Prelude.{refl, sym, Option, none, some, [], append-nil, string_eq}
use holochain_rust.Net.Server.Extends.{Keeps, Extends, then-Keeps, Extends-refl}
use holochain_rust.Net.Server.State.{pure, InMemoryServer, ◌>>◌, done}
use holochain_rust.Net.Protocol.{JsonProtocol, TrackDnaData, FailureResultData}
use holochain_rust.Net.Server.Frames.{
  priv_send_all-Keeps, option-Extends, priv_request_all_lists-Keeps, priv_send_one-Keeps,
  if-Extends,
}
use holochain_rust.Net.Server.Cells.{priv_check_request}
use holochain_rust.Net.Server.Lists.{
  request_missing_metas, note_stored_metas, request_missing_entries, note_stored_entries,
  priv_serve_handle_get_holding_meta_list_result,
  priv_serve_handle_get_publishing_entry_list_result,
  priv_serve_handle_get_publishing_meta_list_result,
  priv_serve_handle_get_holding_entry_list_result,
}
use holochain_rust.Net.Server.Sends.{
  priv_request_all_lists, is_tracking, priv_send_all, priv_send_one,
}
use holochain_rust.Net.Server.Serve.{
  serve_track_dna, relay_failure, add_tracking, serve_success_result, serve_untrack_dna,
  serve_failure_result, serve,
}
use holochain_rust.Net.Book.{HashSet, into_cell_id}
use holochain_rust.Net.Server.Monotone.{
  priv_serve_fetch_entry-Keeps, relay_message-Keeps, priv_serve_handle_fetch_entry_result-Keeps,
  priv_serve_fetch_meta-Keeps, tracked-Keeps, priv_serve_handle_fetch_meta_result-Keeps,
  priv_serve_publish_entry-Keeps, priv_serve_publish_meta-Keeps,
}
use holochain_rust.Net.Server.Entries.{
  priv_serve_send_message, priv_serve_handle_send_message_result,
}
use holochain_rust.Net.Server.Listings.{
  set_stored-Extends, note_stored_entries-Remembers, with_own_request-Keeps,
  note_stored_metas-Remembers, request_missing_entries-Keeps, request_missing_metas-Keeps,
}

relay_failure-Keeps : (msg : FailureResultData) → Keeps (relay_failure msg)
unfolding relay_failure
relay_failure-Keeps msg s =
    let failure = JsonProtocol.failure_result msg in
    option-Extends s (priv_check_request s msg.request_id)
      (priv_send_one msg.dna_address msg.to_agent_id failure s) (λ cell_id. pure tt s)
      (priv_send_one-Keeps msg.dna_address msg.to_agent_id failure s) (λ cell_id. Extends-refl s)

set_tracking-Extends :
    (s : InMemoryServer) (book : HashSet) → Extends s (record s { trackdna_book = book })
set_tracking-Extends s book = record {
  same_senders = refl;
  same_senders_by_dna = refl;
  same_client_count = refl;
  same_channels = refl;
  only_sends = ([], sym (append-nil s.sent), tt);
  published = λ cell base d has. has;
  stored = λ cell base d has. has;
}

serve_track_dna-Keeps : (msg : TrackDnaData) → Keeps (serve_track_dna msg)
unfolding serve_track_dna add_tracking
serve_track_dna-Keeps msg s =
    let peer = JsonProtocol.peer_connected (record { agent_id = msg.agent_id }) in
    let broadcast = priv_send_all msg.dna_address peer in
    let lists = priv_request_all_lists msg.dna_address msg.agent_id in
    let add = add_tracking msg.dna_address msg.agent_id in
    if-Extends s (is_tracking s msg.dna_address msg.agent_id) (pure tt s)
      ((add >> (broadcast >> lists)) s) (Extends-refl s)
      (then-Keeps add (broadcast >> lists) (λ t. set_tracking-Extends t _)
        (then-Keeps broadcast lists (priv_send_all-Keeps msg.dna_address peer)
          (priv_request_all_lists-Keeps msg.dna_address msg.agent_id))
        s)

-- Whatever message a node sends and whatever state the server is in, and also where serving it
-- fails or panics: the connections, the client count and the channels are left as they are, every
-- message sent before is still sent and each new one goes to an open channel, and all that was in
-- the published and stored books is still there.
pub serve-Extends : (msg : Option JsonProtocol) (s : InMemoryServer) → Extends s (serve msg s).1
unfolding serve serve_success_result serve_failure_result serve_untrack_dna
    priv_serve_handle_get_publishing_entry_list_result
    priv_serve_handle_get_holding_entry_list_result
    priv_serve_handle_get_publishing_meta_list_result priv_serve_handle_get_holding_meta_list_result
    priv_serve_send_message priv_serve_handle_send_message_result
serve-Extends none s = Extends-refl s
serve-Extends (some (JsonProtocol.success_result msg)) s =
    tracked-Keeps msg.dna_address msg.to_agent_id none
      (priv_send_one msg.dna_address msg.to_agent_id (JsonProtocol.success_result msg))
      (priv_send_one-Keeps msg.dna_address msg.to_agent_id (JsonProtocol.success_result msg)) s
serve-Extends (some (JsonProtocol.failure_result msg)) s =
    tracked-Keeps msg.dna_address msg.to_agent_id none (relay_failure msg) (relay_failure-Keeps msg)
      s
serve-Extends (some (JsonProtocol.track_dna msg)) s = serve_track_dna-Keeps msg s
serve-Extends (some (JsonProtocol.untrack_dna msg)) s =
    let book = HashMap.remove s.trackdna_book (into_cell_id msg.dna_address msg.agent_id) in
    if-Extends s (is_tracking s msg.dna_address msg.agent_id)
      (done tt, record s { trackdna_book = book }) (pure tt s) (set_tracking-Extends s book)
      (Extends-refl s)
serve-Extends (some (JsonProtocol.send_message msg)) s =
    relay_message-Keeps JsonProtocol.handle_send_message msg s
serve-Extends (some (JsonProtocol.handle_send_message_result msg)) s =
    relay_message-Keeps JsonProtocol.send_message_result msg s
serve-Extends (some (JsonProtocol.fetch_entry msg)) s = priv_serve_fetch_entry-Keeps msg s
serve-Extends (some (JsonProtocol.handle_fetch_entry_result msg)) s =
    priv_serve_handle_fetch_entry_result-Keeps msg s
serve-Extends (some (JsonProtocol.publish_entry msg)) s = priv_serve_publish_entry-Keeps msg s
serve-Extends (some (JsonProtocol.fetch_meta msg)) s = priv_serve_fetch_meta-Keeps msg s
serve-Extends (some (JsonProtocol.handle_fetch_meta_result msg)) s =
    priv_serve_handle_fetch_meta_result-Keeps msg s
serve-Extends (some (JsonProtocol.publish_meta msg)) s = priv_serve_publish_meta-Keeps msg s
serve-Extends (some (JsonProtocol.handle_get_publishing_entry_list_result msg)) s =
    with_own_request-Keeps msg.request_id
      (λ cell_id. request_missing_entries msg.dna_address cell_id msg.entry_address_list)
      (λ cell_id. request_missing_entries-Keeps msg.dna_address cell_id msg.entry_address_list) s
serve-Extends (some (JsonProtocol.handle_get_holding_entry_list_result msg)) s =
    with_own_request-Keeps msg.request_id _
      (λ cell_id t.
        set_stored-Extends t (note_stored_entries cell_id msg.entry_address_list t.stored_book)
          (note_stored_entries-Remembers cell_id msg.entry_address_list t.stored_book))
      s
serve-Extends (some (JsonProtocol.handle_get_publishing_meta_list_result msg)) s =
    with_own_request-Keeps msg.request_id
      (λ cell_id. request_missing_metas msg.dna_address cell_id [] msg.meta_list)
      (λ cell_id. request_missing_metas-Keeps msg.dna_address cell_id [] msg.meta_list) s
serve-Extends (some (JsonProtocol.handle_get_holding_meta_list_result msg)) s =
    with_own_request-Keeps msg.request_id _
      (λ cell_id t.
        set_stored-Extends t (note_stored_metas cell_id msg.meta_list t.stored_book)
          (note_stored_metas-Remembers cell_id msg.meta_list t.stored_book))
      s
serve-Extends (some (JsonProtocol.connect m)) s = Extends-refl s
serve-Extends (some (JsonProtocol.peer_connected m)) s = Extends-refl s
serve-Extends (some JsonProtocol.get_state) s = Extends-refl s
serve-Extends (some (JsonProtocol.get_state_result m)) s = Extends-refl s
serve-Extends (some JsonProtocol.get_default_config) s = Extends-refl s
serve-Extends (some (JsonProtocol.get_default_config_result m)) s = Extends-refl s
serve-Extends (some (JsonProtocol.set_config m)) s = Extends-refl s
serve-Extends (some (JsonProtocol.send_message_result m)) s = Extends-refl s
serve-Extends (some (JsonProtocol.handle_send_message m)) s = Extends-refl s
serve-Extends (some (JsonProtocol.fetch_entry_result m)) s = Extends-refl s
serve-Extends (some (JsonProtocol.handle_fetch_entry m)) s = Extends-refl s
serve-Extends (some (JsonProtocol.handle_store_entry m)) s = Extends-refl s
serve-Extends (some (JsonProtocol.handle_drop_entry m)) s = Extends-refl s
serve-Extends (some (JsonProtocol.fetch_meta_result m)) s = Extends-refl s
serve-Extends (some (JsonProtocol.handle_fetch_meta m)) s = Extends-refl s
serve-Extends (some (JsonProtocol.handle_store_meta m)) s = Extends-refl s
serve-Extends (some (JsonProtocol.handle_drop_meta m)) s = Extends-refl s
serve-Extends (some (JsonProtocol.handle_get_publishing_entry_list m)) s = Extends-refl s
serve-Extends (some (JsonProtocol.handle_get_holding_entry_list m)) s = Extends-refl s
serve-Extends (some (JsonProtocol.handle_get_publishing_meta_list m)) s = Extends-refl s
serve-Extends (some (JsonProtocol.handle_get_holding_meta_list m)) s = Extends-refl s
