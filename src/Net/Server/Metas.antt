-- ===== src/Net/Server/Metas.antt =====
-- DHT metadata: `priv_serve_PublishMeta` to `priv_resolve_HandleFetchMetaResult`.
use holochain_rust.Prelude.HashMap
use holochain_rust.Prelude.{if◌then◌else◌, String, none, some, List, [], ◌∷◌, string_eq}
use holochain_rust.Net.Server.State.{M, ◌>>◌, pure, if_tracking}
use holochain_rust.Net.Protocol.{JsonProtocol, FetchMetaData, DhtMetaData, FetchMetaResultData}
use holochain_rust.Net.Server.Sends.{priv_send_one, priv_send_all, priv_check_or_fail, SenderInfo}
use holochain_rust.Net.Book.{book_has, into_cell_id, into_meta_id}
use holochain_rust.Net.Server.Entries.{note_published, first_cell_or, check_requester}

-- The loop over `content_list`
unfoldable pub note_contents : DhtMetaData → List String → M (Unit {0})
unfolding note_published into_meta_id
note_contents msg [] = pure tt
note_contents msg (content ∷ rest) = do
  note_published msg.dna_address msg.provider_agent_id msg.entry_address
      (into_meta_id (msg.entry_address, msg.attribute, content))
  note_contents msg rest

unfoldable pub priv_serve_publish_meta : DhtMetaData → M (Unit {0})
unfolding priv_check_or_fail note_contents priv_send_all
priv_serve_publish_meta msg =
    if_tracking
      (priv_check_or_fail msg.dna_address msg.provider_agent_id
        (some (msg.provider_agent_id, none)))
      (do
        note_contents msg msg.content_list
        priv_send_all msg.dna_address (JsonProtocol.handle_store_meta msg))

unfoldable pub empty_meta_result : FetchMetaData → FetchMetaResultData
empty_meta_result msg = record {
  dna_address = msg.dna_address;
  request_id = msg.request_id;
  requester_agent_id = msg.requester_agent_id;
  provider_agent_id = msg.requester_agent_id;
  entry_address = msg.entry_address;
  attribute = msg.attribute;
  content_list = "null" ∷ [];
}

unfoldable pub route_fetch_meta : FetchMetaData → M (Unit {0})
unfolding first_cell_or empty_meta_result priv_send_one
route_fetch_meta msg s =
    first_cell_or (HashMap.get s.senders_by_dna msg.dna_address)
      (JsonProtocol.handle_fetch_meta msg)
      (priv_send_one msg.dna_address msg.requester_agent_id
        (JsonProtocol.fetch_meta_result (empty_meta_result msg)))
      s

unfoldable pub priv_serve_fetch_meta : FetchMetaData → M (Unit {0})
unfolding priv_check_or_fail route_fetch_meta
priv_serve_fetch_meta msg =
    if_tracking
      (priv_check_or_fail msg.dna_address msg.requester_agent_id
        (some (msg.requester_agent_id, some msg.request_id)))
      (route_fetch_meta msg)

unfoldable pub single_meta : FetchMetaResultData → String → DhtMetaData
single_meta msg content = record {
  dna_address = msg.dna_address;
  provider_agent_id = msg.provider_agent_id;
  entry_address = msg.entry_address;
  attribute = msg.attribute;
  content_list = content ∷ [];
}

-- One content of `priv_resolve_HandleFetchMetaResult`: what is published already is passed over.
unfoldable pub resolve_content : FetchMetaResultData → String → M (Unit {0})
unfolding into_cell_id into_meta_id book_has single_meta priv_serve_publish_meta
resolve_content msg content s =
    if book_has s.published_book (into_cell_id msg.dna_address msg.provider_agent_id)
      msg.entry_address (into_meta_id (msg.entry_address, msg.attribute, content))
    then pure tt s
    else priv_serve_publish_meta (single_meta msg content) s

unfoldable pub resolve_contents : FetchMetaResultData → List String → M (Unit {0})
unfolding resolve_content
resolve_contents msg [] = pure tt
resolve_contents msg (content ∷ rest) = resolve_content msg content >> resolve_contents msg rest

unfoldable pub priv_resolve_handle_fetch_meta_result : FetchMetaResultData → M (Unit {0})
unfolding resolve_contents
priv_resolve_handle_fetch_meta_result msg = resolve_contents msg msg.content_list

unfoldable pub resolve_meta_result : FetchMetaResultData → M (Unit {0})
unfolding priv_resolve_handle_fetch_meta_result priv_send_one
resolve_meta_result msg s =
    if HashMap.contains_key s.request_book msg.request_id
    then priv_resolve_handle_fetch_meta_result msg s
    else priv_send_one msg.dna_address msg.requester_agent_id (JsonProtocol.fetch_meta_result msg) s

unfoldable pub priv_serve_handle_fetch_meta_result : FetchMetaResultData → M (Unit {0})
unfolding priv_check_or_fail check_requester resolve_meta_result
priv_serve_handle_fetch_meta_result msg =
    let sender_info : SenderInfo = some (msg.provider_agent_id, some msg.request_id) in
    if_tracking (priv_check_or_fail msg.dna_address msg.provider_agent_id sender_info) (
      if_tracking (check_requester msg.dna_address msg.requester_agent_id sender_info)
        (resolve_meta_result msg))
