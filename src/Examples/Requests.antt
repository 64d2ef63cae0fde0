-- ===== src/Examples/Requests.antt =====
-- Runs of the network state: requests, publications and direct messages.
use holochain_rust.Prelude.HashMap
use holochain_rust.Prelude.{
  if◌then◌else◌, ◌==◌, ok, String, ◌≡◌, refl, ◌≢◌, true, false, Option, none, some, [], ◌∷◌, arith,
  string_eq, nat_eq,
}
use holochain_rust.Network.{
  entry_key_eq, links_key_eq, new_network_state, P2pNetwork, NetworkEnvironment, NetworkState,
  ActionResponse,
}
use holochain_rust.Network.Exchange.{Step, ask, answer}
use holochain_rust.Network.Reduce.{reduce}
use holochain_rust.Network.Resolves.{
  rest, act, reduce-Step, entry_request_resolved, entry_result_kept, Run,
}
use holochain_rust.Network.Published.{online, sending, publish_lem, messages_of}
use holochain_rust.Examples.Shard.{shard_codec}
use holochain_rust.Examples.Nucleus.{held_header}
use holochain_rust.Actions.{
  EntryWithHeader, DirectMessageData, ActionWrapper, GetEntryKey, EntryWithMetaAndHeader,
  DirectMessage, Action,
}
use holochain_rust.Network.Requests.{fetch_entry_message}
use holochain_rust.Network.Refines.{entry_event, links_event}
use holochain_rust.Network.Connections.{resolve-send_direct_message}
use holochain_rust.Cas.{MemoryStorage}
use holochain_rust.CoreTypes.Entry.{Entry}
use holochain_rust.CoreTypes.Errors.{HcResult}
use holochain_rust.Network.Publish.{fetch_entry_with_header}

abbrev pub transport : NetworkEnvironment
transport = record {
  codec = shard_codec;
  opens = λ config. true;
  outcome = λ n m. ok tt;
  fresh_id = "fresh";
  entry_debug = λ e. "entry";
  entry_with_header_json = λ w. "entry with header";
  direct_message_json = λ m. "message";
  found_entry_json = λ o. "found";
  found_entry_of_json = λ s. some none;
  addresses_json = λ l. "addresses";
  addresses_of_json = λ s. some [];
}

abbrev no_contents : MemoryStorage
no_contents = record { storage = []; poisoned = false }

abbrev connection : P2pNetwork
connection = record { config = "memory"; sent = [] }

abbrev online_state : NetworkState
online_state = online new_network_state connection "dna" "alice"

abbrev page_key : GetEntryKey
page_key = record { address = "page"; id = "1" }

abbrev other_key : GetEntryKey
other_key = record { address = "other"; id = "2" }

abbrev fetch_page : ActionWrapper
fetch_page = record { action = Action.fetch_entry page_key; id = 1 }

abbrev fetch_other : ActionWrapper
fetch_other = record { action = Action.fetch_entry other_key; id = 2 }

abbrev page_asked : NetworkState
page_asked =
    record (online new_network_state
      (sending connection (fetch_entry_message page_key "dna" "alice" ∷ [])) "dna" "alice") {
        get_entry_with_meta_results = (page_key, none) ∷ [];
      }

abbrev both_asked : NetworkState
both_asked =
    record (online new_network_state
      (sending connection (
        fetch_entry_message page_key "dna" "alice"
        ∷ fetch_entry_message other_key "dna" "alice"
        ∷ []))
      "dna" "alice") { get_entry_with_meta_results = (page_key, none) ∷ (other_key, none) ∷ [] }

asks_page : reduce transport 1 no_contents none online_state fetch_page ≡ some page_asked
unfolding reduce HashMap.insert new_network_state
asks_page = refl

asks_other : reduce transport 1 no_contents none page_asked fetch_other ≡ some both_asked
unfolding reduce HashMap.insert
asks_other = refl

reduce-Step_example :
    Step online_state.get_entry_with_meta_results
      (entry_event fetch_page.action)
      page_asked.get_entry_with_meta_results
    × Step online_state.get_links_results
        (links_event fetch_page.action)
        page_asked.get_links_results
reduce-Step_example =
    reduce-Step transport 1 no_contents none online_state page_asked fetch_page asks_page

abbrev page_missing : NetworkState
page_missing = record page_asked { get_entry_with_meta_results = (page_key, some (ok none)) ∷ [] }

abbrev page_timeout : ActionWrapper
page_timeout = record { action = Action.get_entry_timeout page_key; id = 3 }

late_timeout : reduce transport 1 no_contents none page_missing page_timeout ≡ some page_missing
unfolding reduce HashMap.get
late_timeout = refl

missing_known :
    HashMap.get page_missing.get_entry_with_meta_results page_key ≡ some (some (ok none))
unfolding HashMap.get
missing_known = refl

not_asked : entry_event page_timeout.action ≢ ask page_key
not_asked q = ground arith

not_answered : entry_event page_timeout.action ≢ answer page_key
not_answered q = ground arith

entry_result_kept_example :
    HashMap.get page_missing.get_entry_with_meta_results page_key ≡ some (some (ok none))
entry_result_kept_example =
    entry_result_kept transport 1 no_contents none page_missing page_missing page_timeout page_key
      (ok none) late_timeout missing_known not_asked not_answered

other-Run : Run page_asked both_asked
other-Run = act transport 1 no_contents none fetch_other rest asks_other

entry_request_resolved_example :
    (v : NetworkState) × (r : HcResult (Option EntryWithMetaAndHeader)) × (reduce transport 1
        no_contents none both_asked page_timeout
      ≡ some v)
    × (HashMap.get v.get_entry_with_meta_results page_key ≡ some (some r))
entry_request_resolved_example =
    entry_request_resolved transport transport 1 1 1 3 no_contents no_contents none none
      online_state page_asked both_asked page_key asks_page other-Run

abbrev chain_contents : MemoryStorage
chain_contents = record { storage = ("page", "page") ∷ ("header", "header") ∷ []; poisoned = false }

abbrev page_with_header : EntryWithHeader
page_with_header = record { entry = Entry.app "pages" "text"; header = held_header }

page_found :
    fetch_entry_with_header shard_codec 1 chain_contents (some held_header) "page"
    ≡ some (ok page_with_header)
unfolding fetch_entry_with_header HashMap.get
page_found = refl

publish_lem_example :
    reduce transport 1 chain_contents
      (some held_header)
      online_state
      (record { action = Action.publish "page"; id = 4 })
    ≡ some
        (record (online new_network_state
          (sending connection
            (messages_of transport "dna" "alice" (Entry.app "pages" "text") held_header))
          "dna"
          "alice") { actions = HashMap.insert [] 4 (ActionResponse.publish (ok "page")) })
unfolding new_network_state
publish_lem_example =
    publish_lem transport 1 chain_contents (some held_header) new_network_state connection "dna"
      "alice" "page" 4 page_with_header (λ m x. refl) page_found

abbrev question : DirectMessageData
question = record {
  address = "bob";
  message = DirectMessage.custom "hello";
  msg_id = "7";
  is_response = false;
}

abbrev other_id : String
other_id = "8"

resolve-send_direct_message_example :
    (t : NetworkState) × (u : NetworkState) × (reduce transport 1 no_contents none online_state
        (record { action = Action.send_direct_message question; id = 5 })
      ≡ some t)
    × (HashMap.get t.direct_message_connections "7" ≡ some (DirectMessage.custom "hello"))
    × (reduce transport 1 no_contents none t
          (record { action = Action.resolve_direct_connection "7"; id = 6 })
        ≡ some u)
    × (HashMap.get u.direct_message_connections other_id ≡ (
        if question.msg_id == other_id
        then none
        else HashMap.get new_network_state.direct_message_connections other_id))
resolve-send_direct_message_example =
    resolve-send_direct_message transport transport 1 1 5 6 no_contents no_contents none none
      new_network_state connection "dna" "alice" question other_id refl
