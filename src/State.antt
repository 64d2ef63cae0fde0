-- ===== src/State.antt =====
-- core/src/state.rs: the state of an instance, which has a slice for each part, and what an action
-- does to it. The content store is in the slice of the DHT: the builder of a context gives the
-- source chain and the DHT the same store. A reducer is handed the old state, but it finds in the
-- store also what the reducers before it have added. `none` is a panic, or that the fuel for the
-- iteration of the chain ran out.
pub mod Commits
pub mod Restarts
pub mod Headers
use holochain_rust.Prelude.{
  if◌then◌else◌, ◌==◌, last?, ok, err, and_then, ok_or, ℕ, String, Option, none, some, List, [],
  ◌∷◌, unless_panic, string_eq, nat_eq,
}
use holochain_rust.Cas.{MemoryStorage, fetch}
use holochain_rust.Chain.Store.{iter_type}
use holochain_rust.Chain.Agent.{
  reduce as reduce_agent, AgentState, Environment, new_with_top_chain_header,
}
use holochain_rust.Dht.Reduce.{reduce as reduce_dht, DhtStore, DhtEnvironment}
use holochain_rust.Network.Reduce.{reduce as reduce_network}
use holochain_rust.Nucleus.{
  reduce as reduce_nucleus, from_snapshot, NucleusState, NucleusStateSnapshot, new_nucleus_state,
}
use holochain_rust.CoreTypes.Entry.{Codec, Entry}
use holochain_rust.CoreTypes.Errors.{error_generic, serialization_error, HcResult, HolochainError}
use holochain_rust.Network.{new_network_state, NetworkEnvironment, NetworkState}
use holochain_rust.CoreTypes.EntryType.{EntryType}
use holochain_rust.CoreTypes.Header.{ChainHeader}
use holochain_rust.Actions.{ActionWrapper}
use holochain_rust.Dht.{DhtStorages}

pub record State : Type 0 where
  pub nucleus : NucleusState
  pub agent : AgentState
  pub dht : DhtStore
  pub network : NetworkState
  pub history : List ActionWrapper

pub record StateEnvironment : Type 0 where
  pub agent : Environment
  pub dht : DhtEnvironment
  pub network : NetworkEnvironment

-- `HashSet::insert`, which keeps an equal element
unfoldable pub remember : List ActionWrapper → ActionWrapper → List ActionWrapper
remember [] w = w ∷ []
remember (v ∷ vs) w = let rest = remember vs w in if v.id == w.id then v ∷ vs else v ∷ rest

-- `State::new`: the chain is empty.
unfoldable pub new_state : DhtStorages → String → State
unfolding new_nucleus_state new_network_state new_with_top_chain_header
new_state storages agent_address = record {
  nucleus = new_nucleus_state;
  agent = new_with_top_chain_header none agent_address;
  dht = record { storages = storages; actions = [] };
  network = new_network_state;
  history = [];
}

abbrev pub with_content : DhtStore → MemoryStorage → DhtStore
with_content d content = record d { storages = record d.storages { content_storage = content } }

abbrev pub with_network :
    StateEnvironment
    → State
    → ActionWrapper
    → AgentState
    → DhtStore
    → Option NetworkState
    → Option State
with_network e s w agent dht none = none
with_network e s w agent dht (some network) = some (record {
  nucleus = reduce_nucleus e.dht.codec s.nucleus w.action;
  agent = agent;
  dht = dht;
  network = network;
  history = remember s.history w;
})

-- The network reducers see the old top of the chain.
abbrev pub with_agent :
    StateEnvironment
    → ℕ
    → State
    → ActionWrapper
    → Option (AgentState × MemoryStorage)
    → Option State
with_agent e fuel s w none = none
with_agent e fuel s w (some (agent, content)) =
    let dht : DhtStore = reduce_dht e.dht (with_content s.dht content) w in
    with_network e s w agent dht (
      reduce_network (record e.network { codec = e.dht.codec }) fuel dht.storages.content_storage
        s.agent.top_chain_header s.network w)

unfoldable pub reduce : StateEnvironment → ℕ → State → ActionWrapper → Option State
unfolding reduce_agent reduce_dht reduce_network reduce_nucleus remember
reduce e fuel s w =
    with_agent e fuel s w
      (reduce_agent e.dht.codec e.agent fuel s.dht.storages.content_storage s.agent w)

-- `match entry` of `get_dna`
abbrev pub dna_of_entry : Entry → HcResult String
dna_of_entry (Entry.dna d) = ok d
dna_of_entry _ = err (serialization_error "Tried to get Dna from non-Dna Entry")

abbrev pub no_dna_header : HolochainError
no_dna_header = error_generic "No DNA entry found in source chain while creating state from agent"

abbrev pub no_dna_entry : HolochainError
no_dna_entry = error_generic "No DNA entry found in storage while creating state from agent"

unfoldable pub dna_of_header : Codec → MemoryStorage → Option ChainHeader → HcResult String
unfolding fetch
dna_of_header c st none = err no_dna_header
dna_of_header c st (some h) = and_then (fetch st h.entry_address) λ json.
    and_then (ok_or json no_dna_entry) λ content. and_then (c.entry_of_content content) dna_of_entry

unfoldable pub get_dna : Codec → ℕ → MemoryStorage → Option ChainHeader → Option (HcResult String)
unfolding iter_type dna_of_header
get_dna c fuel st top =
    unless_panic (iter_type c fuel st top EntryType.dna)
      λ headers. some (dna_of_header c st (last? headers))

-- `.ok()`
abbrev pub to_option : {A : Type 0} → HcResult A → Option A
to_option (err e) = none
to_option (ok a) = some a

unfoldable pub new_with_agent_and_nucleus :
    Codec → ℕ → DhtStorages → AgentState → NucleusState → Option State
unfolding get_dna new_network_state
new_with_agent_and_nucleus c fuel storages agent nucleus =
    unless_panic (get_dna c fuel storages.content_storage agent.top_chain_header) λ dna.
      some (record {
        nucleus = record nucleus { dna = to_option dna };
        agent = agent;
        dht = record { storages = storages; actions = [] };
        network = new_network_state;
        history = [];
      })

unfoldable pub new_with_agent : Codec → ℕ → DhtStorages → AgentState → Option State
unfolding new_with_agent_and_nucleus new_nucleus_state
new_with_agent c fuel storages agent =
    new_with_agent_and_nucleus c fuel storages agent new_nucleus_state

pub record AgentStateSnapshot : Type 0 where
  pub top_chain_header : Option ChainHeader

-- `impl From<&State> for AgentStateSnapshot`
unfoldable pub agent_snapshot : State → AgentStateSnapshot
agent_snapshot s = record { top_chain_header = s.agent.top_chain_header }

-- `try_from_snapshots`, which does not return an error
unfoldable pub try_from_snapshots :
    Codec → ℕ → DhtStorages → String → AgentStateSnapshot → NucleusStateSnapshot → Option State
unfolding new_with_agent_and_nucleus new_with_top_chain_header from_snapshot
try_from_snapshots c fuel storages agent_address agent nucleus =
    new_with_agent_and_nucleus c fuel storages
      (new_with_top_chain_header agent.top_chain_header agent_address) (from_snapshot nucleus)
