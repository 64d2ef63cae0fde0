-- ===== src/Actions.antt =====
-- core/src/action.rs: the actions that the reducers of all state slices are handed, with the types
-- of their payloads. Unique ids of a process are numbers. A DNA, a P2P configuration, a capability
-- request and the texts of messages are their JSON.
use holochain_rust.Net.Protocol.{
  FetchEntryData, FetchEntryResultData, FetchMetaData, FetchMetaResultData,
}
use holochain_rust.Prelude.{Result, ℕ, String, Bool, Option, List}
use holochain_rust.CoreTypes.Header.{Provenance, ChainHeader}
use holochain_rust.Eav.CrudStatus.{CrudStatus}
use holochain_rust.CoreTypes.Entry.{Entry}
use holochain_rust.CoreTypes.Errors.{HcResult}
use holochain_rust.CoreTypes.Link.{Link}

pub record EntryWithHeader : Type 0 where
  pub entry : Entry
  pub header : ChainHeader

pub record EntryWithMeta : Type 0 where
  pub entry : Entry
  pub crud_status : CrudStatus
  pub maybe_link_update_delete : Option String

pub record EntryWithMetaAndHeader : Type 0 where
  pub entry_with_meta : EntryWithMeta
  pub headers : List ChainHeader

pub record ValidationPackage : Type 0 where
  pub chain_header : ChainHeader
  pub source_chain_entries : Option (List Entry)
  pub source_chain_headers : Option (List ChainHeader)
  pub custom : Option String

pub data DirectMessage : Type 0 where
  custom : String → DirectMessage
  request_validation_package : String → DirectMessage
  validation_package : Option ValidationPackage → DirectMessage

pub record GetLinksKey : Type 0 where
  pub base_address : String
  pub link_type : Option String
  pub tag : Option String
  pub id : String

pub record GetEntryKey : Type 0 where
  pub address : String
  pub id : String

pub record DirectMessageData : Type 0 where
  pub address : String
  pub message : DirectMessage
  pub msg_id : String
  pub is_response : Bool

-- The handler, a closure that the network module calls, is not modelled.
pub record NetworkSettings : Type 0 where
  pub p2p_config : String
  pub dna_address : String
  pub agent_id : String

pub record Initialization : Type 0 where
  pub public_token : Option String
  pub payload : Option String

pub record ZomeFnCall : Type 0 where
  pub id : ℕ
  pub zome_name : String
  pub cap : String
  pub fn_name : String
  pub parameters : String

pub record ExecuteZomeFnResponse : Type 0 where
  pub call : ZomeFnCall
  pub result : HcResult String

pub data ValidationError : Type 0 where
  fail : String → ValidationError
  unresolved_dependencies : List String → ValidationError
  not_implemented : ValidationError
  error : String → ValidationError

abbrev pub ValidationResult : Type 0
ValidationResult = Result (Unit {0}) ValidationError

pub data ValidatingWorkflow : Type 0 where
  hold_entry hold_link : ValidatingWorkflow

pub record PendingValidation : Type 0 where
  pub entry_with_header : EntryWithHeader
  pub dependencies : List String
  pub workflow : ValidatingWorkflow

pub data Action : Type 0 where
  commit : Entry → Option String → List Provenance → Action
  hold : EntryWithHeader → Action
  add_link : Link → Action
  crud_status : EntryWithHeader → CrudStatus → Action
  remove_link : Link → Action
  init_network : NetworkSettings → Action
  publish : String → Action
  fetch_entry : GetEntryKey → Action
  respond_fetch : FetchEntryData → Option EntryWithMetaAndHeader → Action
  handle_fetch_result : FetchEntryResultData → Action
  update_entry : String → String → Action
  remove_entry : String → String → Action
  get_entry_timeout : GetEntryKey → Action
  get_links get_links_timeout : GetLinksKey → Action
  respond_get_links : FetchMetaData → List String → Action
  handle_get_links_result : FetchMetaResultData → String → String → Action
  send_direct_message : DirectMessageData → Action
  send_direct_message_timeout : String → Action
  resolve_direct_connection : String → Action
  get_validation_package : ChainHeader → Action
  handle_get_validation_package : String → Option ValidationPackage → Action
  handle_custom_send_response : String → Result String String → Action
  initialize_chain : String → Action
  return_initialization_result : Result Initialization String → Action
  signal_zome_function_call : ZomeFnCall → Action
  return_zome_function_result : ExecuteZomeFnResponse → Action
  return_validation_result : ℕ → String → ValidationResult → Action
  return_validation_package : ℕ → HcResult ValidationPackage → Action
  add_pending_validation : PendingValidation → Action
  remove_pending_validation : String → ValidatingWorkflow → Action

-- Two wrappers are equal if their ids are, so the id alone is the key of a history of actions.
pub record ActionWrapper : Type 0 where
  pub action : Action
  pub id : ℕ
