-- ===== src/Chain/Agent.antt =====
-- core/src/agent/state.rs: the state of the agent and the reducer that commits an entry. The
-- content store is shared by all slices of the state, so it is passed along beside the agent's own
-- state, which holds an action by its id. `none` around a result is a panic, or that the fuel for
-- the iteration of the chain ran out. The lock that the program puts around a store is intact.
pub mod Commit
pub mod Failure
use holochain_rust.Prelude.HashMap
use holochain_rust.Prelude.{
  ◌==◌, ok, err, Map, ℕ, String, Option, some, List, [], ◌∷◌, ◌++◌, unless_panic, map_option,
  unwrap_or, string_eq, nat_eq,
}
use holochain_rust.CoreTypes.EntryType.{entry_type_eq, EntryType}
use holochain_rust.Actions.{ActionWrapper, Action}
use holochain_rust.CoreTypes.Entry.{entry_address, header_address, entry_type, Codec, Entry}
use holochain_rust.Chain.Store.{search, next_same_type, first_of_type}
use holochain_rust.CoreTypes.Header.{ChainHeader, Provenance}
use holochain_rust.Cas.{MemoryStorage, add}
use holochain_rust.CoreTypes.Errors.{HcResult}

pub data ActionResponse : Type 0 where
  commit : HcResult String → ActionResponse
  fetch_entry : Option Entry → ActionResponse
  get_links : HcResult (List String) → ActionResponse
  link_entries : HcResult Entry → ActionResponse

pub record AgentState : Type 0 where
  pub actions : Map ℕ ActionResponse
  pub top_chain_header : Option ChainHeader
  pub initial_agent_address : String

-- What the reducer takes from outside: the signature of a text by the conductor and the clock.
pub record Environment : Type 0 where
  pub sign : String → HcResult String
  pub now : ℕ

unfoldable pub new_with_top_chain_header : Option ChainHeader → String → AgentState
new_with_top_chain_header chain_header initial_agent_address = record {
  actions = [];
  top_chain_header = chain_header;
  initial_agent_address = initial_agent_address;
}

-- `iter_type(…).nth(0)`
unfoldable pub newest_of_type :
    Codec → ℕ → MemoryStorage → Option ChainHeader → EntryType → Option (Option ChainHeader)
unfolding first_of_type next_same_type
newest_of_type c fuel st top t =
    unless_panic (first_of_type c fuel st top t)
      λ first. unless_panic (next_same_type c st first) λ (item, rest). some item

-- The entry of the newest header for an agent, or the initial address; it does not fail.
unfoldable pub get_agent_address : Codec → ℕ → MemoryStorage → AgentState → Option String
unfolding newest_of_type
get_agent_address c fuel st a =
    unless_panic (newest_of_type c fuel st a.top_chain_header EntryType.agent_id)
      λ item. some (unwrap_or a.initial_agent_address (map_option (λ h. h.entry_address) item))

unfoldable pub get_most_recent_header_for_entry :
    Codec → ℕ → MemoryStorage → AgentState → Entry → Option (Option ChainHeader)
unfolding first_of_type next_same_type search entry_type entry_address
get_most_recent_header_for_entry c fuel st a entry =
    unless_panic (first_of_type c fuel st a.top_chain_header (entry_type entry)) λ first.
      search (next_same_type c st) fuel (λ h. h.entry_address == entry_address c entry) first

-- The header that `create_new_chain_header` builds from the values that it has collected
unfoldable pub build_header :
    Codec
    → Environment
    → AgentState
    → Entry
    → Option String
    → List Provenance
    → String
    → String
    → Option ChainHeader
    → ChainHeader
unfolding entry_type entry_address header_address
build_header c env a entry update_delete provenances agent signature same_type = record {
  entry_type = entry_type entry;
  entry_address = entry_address c entry;
  provenances = provenances ++ record { source = agent; signature = signature } ∷ [];
  link = map_option (header_address c) a.top_chain_header;
  link_same_type = map_option (header_address c) same_type;
  link_update_delete = update_delete;
  timestamp = env.now;
}

unfoldable pub sign_header :
    Codec
    → Environment
    → ℕ
    → MemoryStorage
    → AgentState
    → Entry
    → Option String
    → List Provenance
    → String
    → HcResult String
    → Option (HcResult ChainHeader)
unfolding newest_of_type build_header entry_type
sign_header c env fuel st a entry update_delete provenances agent (err e) = some (err e)
sign_header c env fuel st a entry update_delete provenances agent (ok signature) =
    unless_panic (newest_of_type c fuel st a.top_chain_header (entry_type entry)) λ same_type.
      some (ok (build_header c env a entry update_delete provenances agent signature same_type))

unfoldable pub create_new_chain_header :
    Codec
    → Environment
    → ℕ
    → MemoryStorage
    → AgentState
    → Entry
    → Option String
    → List Provenance
    → Option (HcResult ChainHeader)
unfolding get_agent_address sign_header entry_address
create_new_chain_header c env fuel st a entry update_delete provenances =
    unless_panic (get_agent_address c fuel st a) λ agent.
      sign_header c env fuel st a entry update_delete provenances agent
        (env.sign (entry_address c entry))

-- The two additions of `reduce_commit_entry`: what is stored stays when the second one fails.
unfoldable pub then_add_header :
    Codec → ChainHeader → HcResult (Unit {0}) × MemoryStorage → HcResult (Unit {0}) × MemoryStorage
unfolding add header_address
then_add_header c h (err e, st) = (err e, st)
then_add_header c h (ok x, st) = add st (header_address c h) (c.header_content h)

unfoldable pub add_entry_and_header :
    Codec → MemoryStorage → Entry → ChainHeader → HcResult (Unit {0}) × MemoryStorage
unfolding then_add_header add entry_address
add_entry_and_header c st entry h =
    then_add_header c h (add st (entry_address c entry) (c.entry_content entry))

unfoldable pub respond : AgentState → ℕ → HcResult String → AgentState
respond a id result = record a {
  actions = HashMap.insert a.actions id (ActionResponse.commit result);
}

-- What follows the additions: the new top header, and the response
unfoldable pub finish_commit :
    Codec
    → AgentState
    → ℕ
    → Entry
    → ChainHeader
    → HcResult (Unit {0}) × MemoryStorage
    → AgentState × MemoryStorage
unfolding respond entry_address
finish_commit c a id entry h (err e, st) = (respond a id (err e), st)
finish_commit c a id entry h (ok x, st) =
    (respond (record a { top_chain_header = some h }) id (ok (entry_address c entry)), st)

unfoldable pub commit_with_header :
    Codec
    → MemoryStorage
    → AgentState
    → ℕ
    → Entry
    → HcResult ChainHeader
    → AgentState × MemoryStorage
unfolding finish_commit add_entry_and_header respond
commit_with_header c st a id entry (err e) = (respond a id (err e), st)
commit_with_header c st a id entry (ok h) =
    finish_commit c a id entry h (add_entry_and_header c st entry h)

unfoldable pub reduce_commit_entry :
    Codec
    → Environment
    → ℕ
    → MemoryStorage
    → AgentState
    → ℕ
    → Entry
    → Option String
    → List Provenance
    → Option (AgentState × MemoryStorage)
unfolding create_new_chain_header commit_with_header
reduce_commit_entry c env fuel st a id entry update_delete provenances =
    unless_panic (create_new_chain_header c env fuel st a entry update_delete provenances)
      λ header. some (commit_with_header c st a id entry header)

-- `reduce` with its `resolve_reducer`: only `Commit` changes the agent's state.
unfoldable pub reduce :
    Codec
    → Environment
    → ℕ
    → MemoryStorage
    → AgentState
    → ActionWrapper
    → Option (AgentState × MemoryStorage)
unfolding reduce_commit_entry
reduce c env fuel st a w = elim w.action [
  | Action.commit entry update_delete provenances ↦
      reduce_commit_entry c env fuel st a w.id entry update_delete provenances
  | _ ↦ some (a, st)
]
