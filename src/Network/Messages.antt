-- ===== src/Network/Messages.antt =====
-- core/src/network/reducers: the connection itself, direct messages and the answers to requests.
use holochain_rust.Prelude.HashMap
use holochain_rust.Prelude.{
  if◌then◌else◌, Result, ok, err, map_err, ℕ, String, Bool, true, false, Option, none, some, List,
  [], ◌∷◌, string_eq, nat_eq,
}
use holochain_rust.Net.Protocol.{JsonProtocol, FetchMetaData, FetchEntryData, MessageData}
use holochain_rust.Network.{
  initialized, send, once_initialized, NetworkEnvironment, NetworkState, P2pNetwork, conclude,
  ActionResponse, send_once_initialized,
}
use holochain_rust.CoreTypes.Errors.{HcResult, error_text, error_generic, timeout}
use holochain_rust.Actions.{EntryWithMetaAndHeader, DirectMessageData, NetworkSettings}

abbrev pub opened_network : NetworkSettings → P2pNetwork
opened_network settings = record { config = settings.p2p_config; sent = [] }

abbrev pub track_message : NetworkSettings → JsonProtocol
track_message settings =
    JsonProtocol.track_dna
      (record { dna_address = settings.dna_address; agent_id = settings.agent_id })

abbrev pub connected : NetworkState → NetworkSettings → Result (Unit {0}) String → NetworkState
connected s settings (err x) = s
connected s settings (ok x) = record s {
  network = some (record (opened_network settings) { sent = track_message settings ∷ [] });
  dna_address = some settings.dna_address;
  agent_id = some settings.agent_id;
}

-- `P2pNetwork::new(…).unwrap()`, the message that tracks the DNA, and the new state if it is taken;
-- `none` is a panic.
unfoldable pub reduce_init :
    NetworkEnvironment → NetworkState → NetworkSettings → Option NetworkState
reduce_init e s settings =
    if e.opens settings.p2p_config
    then some (connected s settings (e.outcome (opened_network settings) (track_message settings)))
    else none

abbrev pub direct_message_data :
    NetworkEnvironment → DirectMessageData → String → String → MessageData
direct_message_data e d dna agent = record {
  dna_address = dna;
  request_id = d.msg_id;
  to_agent_id = d.address;
  from_agent_id = agent;
  content = e.direct_message_json d.message;
}

abbrev pub open_connection : NetworkState → DirectMessageData → NetworkState
open_connection s d = record s {
  direct_message_connections = HashMap.insert s.direct_message_connections d.msg_id d.message;
}

-- The connection for the answer is kept before the message is sent.
abbrev pub deliver :
    NetworkEnvironment
    → NetworkState
    → DirectMessageData
    → MessageData
    → Bool
    → HcResult (Unit {0}) × NetworkState
deliver e s d message true = send e s (JsonProtocol.handle_send_message_result message)
deliver e s d message false = send e (open_connection s d) (JsonProtocol.send_message message)

unfoldable pub send_direct_message_inner :
    NetworkEnvironment
    → NetworkState
    → DirectMessageData
    → Option (HcResult (Unit {0}) × NetworkState)
unfolding initialized send
send_direct_message_inner e s d =
    once_initialized s
      λ dna agent. some (deliver e s d (direct_message_data e d dna agent) d.is_response)

-- An error is only logged.
unfoldable pub reduce_send_direct_message :
    NetworkEnvironment → NetworkState → DirectMessageData → Option NetworkState
unfolding send_direct_message_inner
reduce_send_direct_message e s d = conclude (send_direct_message_inner e s d) λ result t. t

abbrev pub expire_reply : NetworkState → String → Option (HcResult String) → NetworkState
expire_reply s id (some reply) = s
expire_reply s id none = record s {
  custom_direct_message_replys = HashMap.insert s.custom_direct_message_replys id (err timeout);
}

unfoldable pub reduce_send_direct_message_timeout : NetworkState → String → NetworkState
reduce_send_direct_message_timeout s id =
    expire_reply s id (HashMap.get s.custom_direct_message_replys id)

unfoldable pub reduce_resolve_direct_connection : NetworkState → String → NetworkState
reduce_resolve_direct_connection s id = record s {
  direct_message_connections = HashMap.remove s.direct_message_connections id;
}

unfoldable pub reduce_handle_custom_send_response :
    NetworkState → String → Result String String → NetworkState
reduce_handle_custom_send_response s msg_id response = record s {
  custom_direct_message_replys =
      HashMap.insert s.custom_direct_message_replys msg_id (map_err error_generic response);
}

-- The result that is kept for an answer: an error as its text
abbrev pub as_text {ℓ} : {A : Type ℓ} → A → HcResult (Unit {0}) → HcResult A
as_text a (ok x) = ok a
as_text a (err e) = err (error_generic (error_text e))

abbrev pub fetch_entry_result_message :
    NetworkEnvironment
    → FetchEntryData
    → Option EntryWithMetaAndHeader
    → String
    → String
    → JsonProtocol
fetch_entry_result_message e d maybe_entry dna agent =
    JsonProtocol.handle_fetch_entry_result (record {
      dna_address = dna;
      request_id = d.request_id;
      requester_agent_id = d.requester_agent_id;
      provider_agent_id = agent;
      entry_address = d.entry_address;
      entry_content = e.found_entry_json maybe_entry;
    })

unfoldable pub reduce_respond_fetch_data_inner :
    NetworkEnvironment
    → NetworkState
    → FetchEntryData
    → Option EntryWithMetaAndHeader
    → Option (HcResult (Unit {0}) × NetworkState)
unfolding initialized send
reduce_respond_fetch_data_inner e s d maybe_entry =
    send_once_initialized e s (fetch_entry_result_message e d maybe_entry)

unfoldable pub reduce_respond_fetch_data :
    NetworkEnvironment
    → NetworkState
    → ℕ
    → FetchEntryData
    → Option EntryWithMetaAndHeader
    → Option NetworkState
unfolding reduce_respond_fetch_data_inner error_text
reduce_respond_fetch_data e s id d maybe_entry =
    conclude (reduce_respond_fetch_data_inner e s d maybe_entry) λ result t. record t {
      actions = HashMap.insert t.actions id (ActionResponse.respond_fetch (as_text tt result));
    }

abbrev pub fetch_meta_result_message :
    NetworkEnvironment → FetchMetaData → List String → String → String → JsonProtocol
fetch_meta_result_message e d links dna agent = JsonProtocol.handle_fetch_meta_result (record {
  dna_address = dna;
  request_id = d.request_id;
  requester_agent_id = d.requester_agent_id;
  provider_agent_id = agent;
  entry_address = d.entry_address;
  attribute = d.attribute;
  content_list = e.addresses_json links ∷ [];
})

unfoldable pub reduce_respond_get_links_inner :
    NetworkEnvironment
    → NetworkState
    → FetchMetaData
    → List String
    → Option (HcResult (Unit {0}) × NetworkState)
unfolding initialized send
reduce_respond_get_links_inner e s d links =
    send_once_initialized e s (fetch_meta_result_message e d links)

unfoldable pub reduce_respond_get_links :
    NetworkEnvironment → NetworkState → ℕ → FetchMetaData → List String → Option NetworkState
unfolding reduce_respond_get_links_inner error_text
reduce_respond_get_links e s id d links =
    conclude (reduce_respond_get_links_inner e s d links) λ result t. record t {
      actions = HashMap.insert t.actions id (ActionResponse.respond_get_links (as_text tt result));
    }
