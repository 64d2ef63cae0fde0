-- ===== src/Network/Requests.antt =====
-- core/src/network/reducers: the requests for an entry, for links and for a validation package,
-- their results and their timeouts.
use holochain_rust.Prelude.HashMap
use holochain_rust.Prelude.{
  if◌then◌else◌, ◌==◌, head?, ok, err, and_then, ok_or, String, Option, none, some, List, [], ◌∷◌,
  unwrap_or, string_eq,
}
use holochain_rust.Net.Protocol.{
  JsonProtocol, FetchMetaResultData, FetchEntryResultData, MessageData,
}
use holochain_rust.Network.{
  initialized, send, entry_key_eq, links_key_eq, once_initialized, NetworkEnvironment, NetworkState,
  conclude, send_once_initialized,
}
use Prim.Native.String.{◌++◌ as text_append}
use holochain_rust.CoreTypes.Errors.{HcResult, error_generic, HolochainError, timeout}
use holochain_rust.Actions.{
  EntryWithMetaAndHeader, GetLinksKey, ValidationPackage, DirectMessage, GetEntryKey,
}
use holochain_rust.CoreTypes.Header.{ChainHeader, Provenance}

-- The state of a request once it was sent, or was not
abbrev pub waiting_or_failed {ℓ} : {A : Type ℓ} → HcResult (Unit {0}) → Option (HcResult A)
waiting_or_failed (ok x) = none
waiting_or_failed (err e) = some (err e)

abbrev pub fetch_entry_message : GetEntryKey → String → String → JsonProtocol
fetch_entry_message key dna agent = JsonProtocol.fetch_entry (record {
  dna_address = dna;
  request_id = key.id;
  requester_agent_id = agent;
  entry_address = key.address;
})

unfoldable pub reduce_fetch_entry_inner :
    NetworkEnvironment → NetworkState → GetEntryKey → Option (HcResult (Unit {0}) × NetworkState)
unfolding initialized send
reduce_fetch_entry_inner e s key = send_once_initialized e s (fetch_entry_message key)

unfoldable pub reduce_get_entry :
    NetworkEnvironment → NetworkState → GetEntryKey → Option NetworkState
unfolding reduce_fetch_entry_inner
reduce_get_entry e s key = conclude (reduce_fetch_entry_inner e s key) λ result t. record t {
  get_entry_with_meta_results =
      HashMap.insert t.get_entry_with_meta_results key (waiting_or_failed result);
}

abbrev pub expire_entry :
    NetworkState
    → GetEntryKey
    → Option (Option (HcResult (Option EntryWithMetaAndHeader)))
    → NetworkState
expire_entry s key none = s
expire_entry s key (some (some result)) = s
expire_entry s key (some none) = record s {
  get_entry_with_meta_results =
      HashMap.insert s.get_entry_with_meta_results key (some (err timeout));
}

unfoldable pub reduce_get_entry_timeout : NetworkState → GetEntryKey → NetworkState
reduce_get_entry_timeout s key = expire_entry s key (HashMap.get s.get_entry_with_meta_results key)

abbrev pub bad_entry_text : HolochainError
bad_entry_text =
    error_generic "Failed to deserialize EntryWithMeta from HandleFetchResult action argument"

unfoldable pub reduce_handle_get_result_inner :
    NetworkEnvironment
    → NetworkState
    → FetchEntryResultData
    → HcResult (Option EntryWithMetaAndHeader)
unfolding initialized
reduce_handle_get_result_inner e s d =
    and_then (initialized s) λ x. ok_or (e.found_entry_of_json d.entry_content) bad_entry_text

unfoldable pub reduce_handle_get_result :
    NetworkEnvironment → NetworkState → FetchEntryResultData → NetworkState
unfolding reduce_handle_get_result_inner
reduce_handle_get_result e s d =
    let key : GetEntryKey = record { address = d.entry_address; id = d.request_id } in
    record s {
      get_entry_with_meta_results =
          HashMap.insert s.get_entry_with_meta_results key
            (some (reduce_handle_get_result_inner e s d));
    }

-- A name that is left open is the text `*` in a request.
unfoldable pub star_of_option : Option String → String
star_of_option name = unwrap_or "*" name

unfoldable pub option_of_star : String → Option String
option_of_star name = if name == "*" then none else some name

unfoldable pub links_attribute : GetLinksKey → String
unfolding star_of_option
links_attribute key =
    text_append "link__"
      (text_append (star_of_option key.link_type) (text_append "__" (star_of_option key.tag)))

unfoldable pub fetch_meta_message : GetLinksKey → String → String → JsonProtocol
unfolding links_attribute
fetch_meta_message key dna agent = JsonProtocol.fetch_meta (record {
  dna_address = dna;
  request_id = key.id;
  requester_agent_id = agent;
  entry_address = key.base_address;
  attribute = links_attribute key;
})

unfoldable pub reduce_get_links_inner :
    NetworkEnvironment → NetworkState → GetLinksKey → Option (HcResult (Unit {0}) × NetworkState)
unfolding initialized send fetch_meta_message
reduce_get_links_inner e s key = send_once_initialized e s (fetch_meta_message key)

unfoldable pub reduce_get_links :
    NetworkEnvironment → NetworkState → GetLinksKey → Option NetworkState
unfolding reduce_get_links_inner
reduce_get_links e s key = conclude (reduce_get_links_inner e s key) λ result t. record t {
  get_links_results = HashMap.insert t.get_links_results key (waiting_or_failed result);
}

abbrev pub expire_links :
    NetworkState → GetLinksKey → Option (Option (HcResult (List String))) → NetworkState
expire_links s key none = s
expire_links s key (some (some result)) = s
expire_links s key (some none) = record s {
  get_links_results = HashMap.insert s.get_links_results key (some (err timeout));
}

unfoldable pub reduce_get_links_timeout : NetworkState → GetLinksKey → NetworkState
reduce_get_links_timeout s key = expire_links s key (HashMap.get s.get_links_results key)

abbrev pub bad_links_text : HolochainError
bad_links_text =
    error_generic "Failed to deserialize Vec<Address> from HandleGetLinkResult DhtMetaData content"

-- `none` is the panic of `assert_eq!(dht_meta_data.content_list.len(), 1)`.
abbrev pub single_content : NetworkEnvironment → List String → Option (HcResult (List String))
single_content e (content ∷ []) = some (ok_or (e.addresses_of_json content) bad_links_text)
single_content e _ = none

unfoldable pub reduce_handle_get_links_result_inner :
    NetworkEnvironment → NetworkState → FetchMetaResultData → Option (HcResult (List String))
unfolding initialized
reduce_handle_get_links_result_inner e s d = elim (initialized s) [
  | err x ↦ some (err x)
  | ok x ↦ single_content e d.content_list
]

abbrev pub links_key_of : FetchMetaResultData → String → String → GetLinksKey
links_key_of d link_type tag = record {
  base_address = d.entry_address;
  link_type = option_of_star link_type;
  tag = option_of_star tag;
  id = d.request_id;
}

abbrev pub keep_links :
    NetworkState
    → FetchMetaResultData
    → String
    → String
    → Option (HcResult (List String))
    → Option NetworkState
keep_links s d link_type tag none = none
keep_links s d link_type tag (some result) = some (record s {
  get_links_results =
      HashMap.insert s.get_links_results (links_key_of d link_type tag) (some result);
})

unfoldable pub reduce_handle_get_links_result :
    NetworkEnvironment → NetworkState → FetchMetaResultData → String → String → Option NetworkState
unfolding reduce_handle_get_links_result_inner option_of_star
reduce_handle_get_links_result e s d link_type tag =
    keep_links s d link_type tag (reduce_handle_get_links_result_inner e s d)

abbrev pub message_to : NetworkEnvironment → String → String → String → DirectMessage → MessageData
message_to e dna agent to_agent_id message = record {
  dna_address = dna;
  request_id = e.fresh_id;
  to_agent_id = to_agent_id;
  from_agent_id = agent;
  content = e.direct_message_json message;
}

abbrev pub keep_connection :
    NetworkEnvironment
    → DirectMessage
    → HcResult (Unit {0}) × NetworkState
    → HcResult (Unit {0}) × NetworkState
keep_connection e message (err x, s) = (err x, s)
keep_connection e message (ok x, s) = (
  ok tt,
  record s {
    direct_message_connections = HashMap.insert s.direct_message_connections e.fresh_id message;
  },
)

-- `send_message`: the open connection is kept only if the message was taken.
unfoldable pub send_message :
    NetworkEnvironment
    → NetworkState
    → String
    → String
    → String
    → DirectMessage
    → HcResult (Unit {0}) × NetworkState
unfolding send
send_message e s dna agent to_agent_id message =
    keep_connection e message
      (send e s (JsonProtocol.send_message (message_to e dna agent to_agent_id message)))

abbrev pub ask_source :
    NetworkEnvironment
    → NetworkState
    → ChainHeader
    → String
    → String
    → Option Provenance
    → HcResult (Unit {0}) × NetworkState
ask_source e s header dna agent none = (err (error_generic "No source found in ChainHeader"), s)
ask_source e s header dna agent (some p) =
    send_message e s dna agent p.source
      (DirectMessage.request_validation_package header.entry_address)

-- Between `initialized` and the `unwrap` of the identities the program looks for the source of the
-- header, which changes nothing.
unfoldable pub get_validation_package_inner :
    NetworkEnvironment → NetworkState → ChainHeader → Option (HcResult (Unit {0}) × NetworkState)
unfolding initialized send_message
get_validation_package_inner e s header =
    once_initialized s
      λ dna agent. some (ask_source e s header dna agent (head? header.provenances))

unfoldable pub reduce_get_validation_package :
    NetworkEnvironment → NetworkState → ChainHeader → Option NetworkState
unfolding get_validation_package_inner
reduce_get_validation_package e s header =
    conclude (get_validation_package_inner e s header) λ result t. record t {
      get_validation_package_results =
          HashMap.insert t.get_validation_package_results header.entry_address
            (waiting_or_failed result);
    }

unfoldable pub reduce_handle_get_validation_package :
    NetworkState → String → Option ValidationPackage → NetworkState
reduce_handle_get_validation_package s address maybe_validation_package = record s {
  get_validation_package_results =
      HashMap.insert s.get_validation_package_results address (some (ok maybe_validation_package));
}
