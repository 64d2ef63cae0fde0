-- ===== src/Network.antt =====
-- core/src/network: the state of an instance's network connection and the reducers that send on it
-- and keep what comes back. The connection itself is a parameter: whether it opens and the outcome
-- of each send are given; a state holds the messages that the connection has taken. JSON texts, the
-- ids of a process and the debug text of an entry are given too. The lock of the connection is
-- intact. A HashMap is an association list.
pub mod Requests
pub mod Messages
pub mod Publish
pub mod Reduce
pub mod Exchange
pub mod Frames
pub mod Refines
pub mod Resolves
pub mod Published
pub mod Connections
use holochain_rust.Prelude.HashMap
use holochain_rust.Prelude.{
  if◌then◌else◌, Eq, ◌==◌, Result, ok, err, Map, ℕ, String, ◌≡◌, refl, ◌↔◌, Bool, true, false, ◌&&◌,
  Option, none, some, List, [], ◌∷◌, ◌++◌, arith, eq_iff, string_eq,
}
use holochain_rust.Actions.{
  DirectMessage, EntryWithHeader, EntryWithMetaAndHeader, GetEntryKey, GetLinksKey,
  ValidationPackage,
}
use holochain_rust.CoreTypes.Entry.{Codec, Entry}
use holochain_rust.CoreTypes.Errors.{HcResult, error_generic, io_error, HolochainError}
use holochain_rust.Net.Protocol.{JsonProtocol}

pub data ActionResponse : Type 0 where
  publish : HcResult String → ActionResponse
  respond_fetch respond_get_links : HcResult (Unit {0}) → ActionResponse

-- A connection: its configuration and the messages that it has taken, the oldest first
pub record P2pNetwork : Type 0 where
  pub config : String
  pub sent : List JsonProtocol

-- What the reducers take from other code
pub record NetworkEnvironment : Type 0 where
  pub codec : Codec
  pub opens : String → Bool
  pub outcome : P2pNetwork → JsonProtocol → Result (Unit {0}) String
  pub fresh_id : String
  pub entry_debug : Entry → String
  pub entry_with_header_json : EntryWithHeader → String
  pub direct_message_json : DirectMessage → String
  pub found_entry_json : Option EntryWithMetaAndHeader → String
  pub found_entry_of_json : String → Option (Option EntryWithMetaAndHeader)
  pub addresses_json : List String → String
  pub addresses_of_json : String → Option (List String)

abbrev pub entry_key_beq : GetEntryKey → GetEntryKey → Bool
entry_key_beq k j = k.address == j.address && k.id == j.id

pub entry_key_beq_iff : (k j : GetEntryKey) → (entry_key_beq k j ≡ true) ↔ (k ≡ j)
entry_key_beq_iff k j = (
  λ h. ground (arith, eq_iff k.address j.address, eq_iff k.id j.id),
  λ h. ground (arith, eq_iff k.address j.address, eq_iff k.id j.id),
)

instance abbrev pub entry_key_eq : Eq GetEntryKey
entry_key_eq = record { test = entry_key_beq; test_iff = entry_key_beq_iff }

abbrev pub option_beq : Option String → Option String → Bool
option_beq none none = true
option_beq (some a) (some b) = a == b
option_beq _ _ = false

pub option_beq_iff : (a b : Option String) → (option_beq a b ≡ true) ↔ (a ≡ b)
option_beq_iff none none = (λ h. refl, λ h. refl)
option_beq_iff none (some b) = (λ h. ground arith, λ h. ground arith)
option_beq_iff (some a) none = (λ h. ground arith, λ h. ground arith)
option_beq_iff (some a) (some b) =
    (λ h. ground (arith, eq_iff a b), λ h. ground (arith, eq_iff a b))

abbrev pub links_key_beq : GetLinksKey → GetLinksKey → Bool
links_key_beq k j =
    k.base_address == j.base_address
    && option_beq k.link_type j.link_type
    && option_beq k.tag j.tag
    && k.id == j.id

pub links_key_beq_iff : (k j : GetLinksKey) → (links_key_beq k j ≡ true) ↔ (k ≡ j)
links_key_beq_iff k j = (
  λ h. ground (
    arith,
    eq_iff k.base_address j.base_address,
    eq_iff k.id j.id,
    option_beq_iff k.link_type j.link_type,
    option_beq_iff k.tag j.tag,
  ),
  λ h. ground (
    arith,
    eq_iff k.base_address j.base_address,
    eq_iff k.id j.id,
    option_beq_iff k.link_type j.link_type,
    option_beq_iff k.tag j.tag,
  ),
)

instance abbrev pub links_key_eq : Eq GetLinksKey
links_key_eq = record { test = links_key_beq; test_iff = links_key_beq_iff }

-- The id of a state, which only tells states apart, is left out.
pub record NetworkState : Type 0 where
  pub actions : Map ℕ ActionResponse
  pub network : Option P2pNetwork
  pub dna_address : Option String
  pub agent_id : Option String
  pub get_entry_with_meta_results :
      Map GetEntryKey (Option (HcResult (Option EntryWithMetaAndHeader)))
  pub get_links_results : Map GetLinksKey (Option (HcResult (List String)))
  pub get_validation_package_results : Map String (Option (HcResult (Option ValidationPackage)))
  pub direct_message_connections : Map String DirectMessage
  pub custom_direct_message_replys : Map String (HcResult String)

-- `NetworkState::new`
unfoldable pub new_network_state : NetworkState
new_network_state = record {
  actions = [];
  network = none;
  dna_address = none;
  agent_id = none;
  get_entry_with_meta_results = [];
  get_links_results = [];
  get_validation_package_results = [];
  direct_message_connections = [];
  custom_direct_message_replys = [];
}

abbrev pub not_initialized : HolochainError
not_initialized = error_generic "Network not initialized"

unfoldable pub initialized : NetworkState → HcResult (Unit {0})
initialized s =
    if HashMap.is_some s.network && HashMap.is_some s.dna_address && HashMap.is_some s.agent_id
    then ok tt
    else err not_initialized

-- What the connection says to a message
unfoldable pub taken :
    NetworkState
    → P2pNetwork
    → JsonProtocol
    → Result (Unit {0}) String
    → HcResult (Unit {0}) × NetworkState
taken s n m (err e) = (err (io_error e), s)
taken s n m (ok x) = (ok tt, record s { network = some (record n { sent = n.sent ++ m ∷ [] }) })

unfoldable pub send :
    NetworkEnvironment → NetworkState → JsonProtocol → HcResult (Unit {0}) × NetworkState
unfolding taken
send e s m = elim s.network [
  | none ↦ (err not_initialized, s)
  | some n ↦ taken s n m (e.outcome n m)
]

-- `x.and_then(…)` and `x?; …` of code that sends
abbrev pub then_send :
    HcResult (Unit {0}) × NetworkState
    → (NetworkState → HcResult (Unit {0}) × NetworkState)
    → HcResult (Unit {0}) × NetworkState
then_send (err e, s) f = (err e, s)
then_send (ok x, s) f = f s

-- `network_state.initialized()?`, and the `unwrap` of both identities in what follows; `none` is
-- its panic.
abbrev pub once_ok :
    HcResult (Unit {0})
    → Option String
    → Option String
    → NetworkState
    → (String → String → Option (HcResult (Unit {0}) × NetworkState))
    → Option (HcResult (Unit {0}) × NetworkState)
once_ok (err e) dna agent s f = some (err e, s)
once_ok (ok x) none agent s f = none
once_ok (ok x) (some dna) none s f = none
once_ok (ok x) (some dna) (some agent) s f = f dna agent

abbrev pub once_initialized :
    NetworkState
    → (String → String → Option (HcResult (Unit {0}) × NetworkState))
    → Option (HcResult (Unit {0}) × NetworkState)
once_initialized s f = once_ok (initialized s) s.dna_address s.agent_id s f

-- A message with both identities
abbrev pub send_once_initialized :
    NetworkEnvironment
    → NetworkState
    → (String → String → JsonProtocol)
    → Option (HcResult (Unit {0}) × NetworkState)
send_once_initialized e s message =
    once_initialized s λ dna agent. some (send e s (message dna agent))

-- A reducer that keeps what the inner function has made of the state
abbrev pub conclude :
    Option (HcResult (Unit {0}) × NetworkState)
    → (HcResult (Unit {0}) → NetworkState → NetworkState)
    → Option NetworkState
conclude none f = none
conclude (some (result, s)) f = some (f result s)
