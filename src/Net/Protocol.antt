-- ===== src/Net/Protocol.antt =====
-- net/src/connection/json_protocol.rs: the messages. A `serde_json::Value` is its JSON text.
use holochain_rust.Prelude.{String, List}

abbrev pub MetaTuple : Type 0
MetaTuple = String × String × String

pub record StateData : Type 0 where
  pub state : String
  pub id : String
  pub bindings : List String

pub record ConfigData : Type 0 where
  pub config : String

pub record ConnectData : Type 0 where
  pub peer_address : String

pub record PeerData : Type 0 where
  pub agent_id : String

pub record MessageData : Type 0 where
  pub dna_address : String
  pub request_id : String
  pub to_agent_id : String
  pub from_agent_id : String
  pub content : String

pub record TrackDnaData : Type 0 where
  pub dna_address : String
  pub agent_id : String

pub record SuccessResultData : Type 0 where
  pub dna_address : String
  pub request_id : String
  pub to_agent_id : String
  pub success_info : String

pub record FailureResultData : Type 0 where
  pub dna_address : String
  pub request_id : String
  pub to_agent_id : String
  pub error_info : String

pub record DropEntryData : Type 0 where
  pub dna_address : String
  pub request_id : String
  pub entry_address : String

pub record FetchEntryData : Type 0 where
  pub dna_address : String
  pub request_id : String
  pub requester_agent_id : String
  pub entry_address : String

pub record EntryData : Type 0 where
  pub dna_address : String
  pub provider_agent_id : String
  pub entry_address : String
  pub entry_content : String

pub record FetchEntryResultData : Type 0 where
  pub dna_address : String
  pub request_id : String
  pub requester_agent_id : String
  pub provider_agent_id : String
  pub entry_address : String
  pub entry_content : String

pub record FetchMetaData : Type 0 where
  pub dna_address : String
  pub request_id : String
  pub requester_agent_id : String
  pub entry_address : String
  pub attribute : String

pub record DhtMetaData : Type 0 where
  pub dna_address : String
  pub provider_agent_id : String
  pub entry_address : String
  pub attribute : String
  pub content_list : List String

pub record FetchMetaResultData : Type 0 where
  pub dna_address : String
  pub request_id : String
  pub requester_agent_id : String
  pub provider_agent_id : String
  pub entry_address : String
  pub attribute : String
  pub content_list : List String

pub record DropMetaData : Type 0 where
  pub dna_address : String
  pub request_id : String
  pub entry_address : String
  pub attribute : String

pub record GetListData : Type 0 where
  pub dna_address : String
  pub request_id : String

pub record EntryListData : Type 0 where
  pub dna_address : String
  pub request_id : String
  pub entry_address_list : List String

pub record MetaListData : Type 0 where
  pub dna_address : String
  pub request_id : String
  pub meta_list : List MetaTuple

pub data JsonProtocol : Type 0 where
  success_result : SuccessResultData → JsonProtocol
  failure_result : FailureResultData → JsonProtocol
  track_dna untrack_dna : TrackDnaData → JsonProtocol
  connect : ConnectData → JsonProtocol
  peer_connected : PeerData → JsonProtocol
  get_state : JsonProtocol
  get_state_result : StateData → JsonProtocol
  get_default_config : JsonProtocol
  get_default_config_result set_config : ConfigData → JsonProtocol
  send_message send_message_result : MessageData → JsonProtocol
  handle_send_message handle_send_message_result : MessageData → JsonProtocol
  fetch_entry : FetchEntryData → JsonProtocol
  fetch_entry_result : FetchEntryResultData → JsonProtocol
  handle_fetch_entry : FetchEntryData → JsonProtocol
  handle_fetch_entry_result : FetchEntryResultData → JsonProtocol
  publish_entry handle_store_entry : EntryData → JsonProtocol
  handle_drop_entry : DropEntryData → JsonProtocol
  fetch_meta : FetchMetaData → JsonProtocol
  fetch_meta_result : FetchMetaResultData → JsonProtocol
  handle_fetch_meta : FetchMetaData → JsonProtocol
  handle_fetch_meta_result : FetchMetaResultData → JsonProtocol
  publish_meta handle_store_meta : DhtMetaData → JsonProtocol
  handle_drop_meta : DropMetaData → JsonProtocol
  handle_get_publishing_entry_list : GetListData → JsonProtocol
  handle_get_publishing_entry_list_result : EntryListData → JsonProtocol
  handle_get_holding_entry_list : GetListData → JsonProtocol
  handle_get_holding_entry_list_result : EntryListData → JsonProtocol
  handle_get_publishing_meta_list : GetListData → JsonProtocol
  handle_get_publishing_meta_list_result : MetaListData → JsonProtocol
  handle_get_holding_meta_list : GetListData → JsonProtocol
  handle_get_holding_meta_list_result : MetaListData → JsonProtocol
