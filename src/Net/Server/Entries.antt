-- ===== src/Net/Server/Entries.antt =====
-- Direct messages and DHT entries: `priv_serve_SendMessage` to `priv_serve_HandleFetchEntryResult`.
use holochain_rust.Prelude.HashMap
use holochain_rust.Prelude.HashMap.{Map}
use holochain_rust.Prelude.{
  if◌then◌else◌, ◌==◌, ℕ, String, Bool, true, Option, none, some, [], ◌∷◌, string_eq,
}
use holochain_rust.Net.Server.State.{M, ◌>>◌, pure, panic, if_tracking, send, done}
use holochain_rust.Net.Protocol.{
  JsonProtocol, MessageData, EntryData, FetchEntryData, FetchEntryResultData,
}
use holochain_rust.Net.Book.{bookkeep}
use holochain_rust.Net.Server.Sends.{priv_send_one, priv_send_all, priv_check_or_fail, SenderInfo}

-- Both direct message handlers: sender and receiver must be tracking, then the message is relayed.
unfoldable pub relay_message : (MessageData → JsonProtocol) → MessageData → M (Unit {0})
unfolding priv_check_or_fail priv_send_one
relay_message wrap msg =
    let sender_info : SenderInfo = some (msg.from_agent_id, some msg.request_id) in
    if_tracking (priv_check_or_fail msg.dna_address msg.from_agent_id sender_info) (
      if_tracking (priv_check_or_fail msg.dna_address msg.to_agent_id sender_info)
        (priv_send_one msg.dna_address msg.to_agent_id (wrap msg)))

unfoldable pub priv_serve_send_message : MessageData → M (Unit {0})
unfolding relay_message
priv_serve_send_message msg = relay_message JsonProtocol.handle_send_message msg

unfoldable pub priv_serve_handle_send_message_result : MessageData → M (Unit {0})
unfolding relay_message
priv_serve_handle_send_message_result msg = relay_message JsonProtocol.send_message_result msg

-- `bookkeep(&mut self.published_book, …)`
unfoldable pub note_published : String → String → String → String → M (Unit {0})
unfolding bookkeep
note_published dna_address agent_id base data_address s = (
  done tt,
  record s { published_book = bookkeep s.published_book dna_address agent_id base data_address },
)

unfoldable pub priv_serve_publish_entry : EntryData → M (Unit {0})
unfolding priv_check_or_fail note_published priv_send_all
priv_serve_publish_entry msg =
    if_tracking
      (priv_check_or_fail msg.dna_address msg.provider_agent_id
        (some (msg.provider_agent_id, none)))
      (do
        note_published msg.dna_address msg.provider_agent_id msg.entry_address msg.entry_address
        priv_send_all msg.dna_address (JsonProtocol.handle_store_entry msg))

-- The first cell known for the DNA; a DNA without an entry is `unreachable!()`.
unfoldable pub first_cell_or : Option (Map String ℕ) → JsonProtocol → M (Unit {0}) → M (Unit {0})
unfolding send
first_cell_or none msg otherwise = panic
first_cell_or (some []) msg otherwise = otherwise
first_cell_or (some ((agent, sender) ∷ rest)) msg otherwise = send sender msg

unfoldable pub empty_entry_result : FetchEntryData → FetchEntryResultData
empty_entry_result msg = record {
  dna_address = msg.dna_address;
  request_id = msg.request_id;
  requester_agent_id = msg.requester_agent_id;
  provider_agent_id = msg.requester_agent_id;
  entry_address = msg.entry_address;
  entry_content = "null";
}

unfoldable pub route_fetch_entry : FetchEntryData → M (Unit {0})
unfolding first_cell_or empty_entry_result priv_send_one
route_fetch_entry msg s =
    first_cell_or (HashMap.get s.senders_by_dna msg.dna_address)
      (JsonProtocol.handle_fetch_entry msg)
      (priv_send_one msg.dna_address msg.requester_agent_id
        (JsonProtocol.fetch_entry_result (empty_entry_result msg)))
      s

unfoldable pub priv_serve_fetch_entry : FetchEntryData → M (Unit {0})
unfolding priv_check_or_fail route_fetch_entry
priv_serve_fetch_entry msg =
    if_tracking
      (priv_check_or_fail msg.dna_address msg.requester_agent_id
        (some (msg.requester_agent_id, some msg.request_id)))
      (route_fetch_entry msg)

-- `msg.requester_agent_id == "" || self.priv_check_or_fail(…)?`
unfoldable pub check_requester : String → String → SenderInfo → M Bool
unfolding priv_check_or_fail
check_requester dna_address requester sender_info =
    if requester == "" then pure true else priv_check_or_fail dna_address requester sender_info

unfoldable pub published_data : FetchEntryResultData → EntryData
published_data msg = record {
  dna_address = msg.dna_address;
  provider_agent_id = msg.provider_agent_id;
  entry_address = msg.entry_address;
  entry_content = msg.entry_content;
}

-- The answer to a request of the server's own is published, any other goes to the requester.
unfoldable pub resolve_entry_result : FetchEntryResultData → M (Unit {0})
unfolding published_data priv_serve_publish_entry priv_send_one
resolve_entry_result msg s =
    if HashMap.contains_key s.request_book msg.request_id
    then priv_serve_publish_entry (published_data msg) s
    else priv_send_one msg.dna_address msg.requester_agent_id (JsonProtocol.fetch_entry_result msg)
        s

unfoldable pub priv_serve_handle_fetch_entry_result : FetchEntryResultData → M (Unit {0})
unfolding priv_check_or_fail check_requester resolve_entry_result
priv_serve_handle_fetch_entry_result msg =
    let sender_info : SenderInfo = some (msg.provider_agent_id, some msg.request_id) in
    if_tracking (priv_check_or_fail msg.dna_address msg.provider_agent_id sender_info) (
      if_tracking (check_requester msg.dna_address msg.requester_agent_id sender_info)
        (resolve_entry_result msg))
