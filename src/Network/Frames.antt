-- ===== src/Network/Frames.antt =====
-- What the sends leave as it is.
use holochain_rust.Network.Requests.{send_message}
use holochain_rust.Prelude.HashMap
use holochain_rust.Eav.CrudStatus.{modified, deleted}
use holochain_rust.Eav.Attribute.{display}
use holochain_rust.Prelude.{
  if◌then◌else◌, head?, ok, err, ℕ, String, ◌≡◌, refl, ◌∙◌, Bool, true, false, Option, none, some,
  arith,
}
use holochain_rust.Network.Publish.{
  publish_entry, publish_meta, publish_fetched, reduce_publish_inner, fetch_entry_with_header,
}
use holochain_rust.Network.{
  send, NetworkEnvironment, NetworkState, taken, then_send, once_ok, conclude,
  send_once_initialized, initialized,
}
use holochain_rust.Network.Publish.{publish_by_type, publish_link_meta, publish_update_delete_meta}
use holochain_rust.Actions.{EntryWithHeader, DirectMessageData, DirectMessage}
use holochain_rust.CoreTypes.Errors.{HcResult}
use holochain_rust.Eav.CrudStatus.{status_string, deleted}
use holochain_rust.CoreTypes.Entry.{entry_type, Entry, entry_address}
use holochain_rust.Eav.Attribute.{Attribute, display}
use holochain_rust.Net.Protocol.{JsonProtocol, MessageData}
use holochain_rust.CoreTypes.Header.{ChainHeader, Provenance}
use holochain_rust.Network.Messages.{
  send_direct_message_inner, direct_message_data, open_connection, deliver,
}
use holochain_rust.Network.Requests.{
  get_validation_package_inner, ask_source, keep_connection, message_to,
}
use holochain_rust.Cas.{MemoryStorage}

-- Only the connection, the open direct messages and the answers to actions may differ.
pub record Keeps (s t : NetworkState) : Type 0 where
  pub entries : t.get_entry_with_meta_results ≡ s.get_entry_with_meta_results
  pub links : t.get_links_results ≡ s.get_links_results
  pub packages : t.get_validation_package_results ≡ s.get_validation_package_results
  pub replys : t.custom_direct_message_replys ≡ s.custom_direct_message_replys
  pub dna : t.dna_address ≡ s.dna_address
  pub agent : t.agent_id ≡ s.agent_id

pub Keeps-refl : (s : NetworkState) → Keeps s s
Keeps-refl s = record {
  entries = refl;
  links = refl;
  packages = refl;
  replys = refl;
  dna = refl;
  agent = refl;
}

pub Keeps-trans : {s t u : NetworkState} → Keeps s t → Keeps t u → Keeps s u
Keeps-trans a b = record {
  entries = b.entries ∙ a.entries;
  links = b.links ∙ a.links;
  packages = b.packages ∙ a.packages;
  replys = b.replys ∙ a.replys;
  dna = b.dna ∙ a.dna;
  agent = b.agent ∙ a.agent;
}

send-Keeps : (e : NetworkEnvironment) (s : NetworkState) (m : JsonProtocol) → Keeps s (send e s m).1
unfolding send taken
send-Keeps e s m = ground arith

pub then_send-Keeps :
    (s : NetworkState) (p : HcResult (Unit {0}) × NetworkState)
    (f : NetworkState → HcResult (Unit {0}) × NetworkState)
    → Keeps s p.1
    → ((t : NetworkState) → Keeps t (f t).1)
    → Keeps s (then_send p f).1
then_send-Keeps s (err x, t) f kept after = kept
then_send-Keeps s (ok x, t) f kept after = Keeps-trans kept (after t)

module _ (e : NetworkEnvironment) (dna agent : String) (w : EntryWithHeader) where
  publish_entry-Keeps : (s : NetworkState) → Keeps s (publish_entry e dna agent s w).1
  unfolding publish_entry
  publish_entry-Keeps s = send-Keeps e s _

  publish_meta-Keeps :
      (address attribute : String) (s : NetworkState)
      → Keeps s (publish_meta e dna agent s address attribute w).1
  unfolding publish_meta
  publish_meta-Keeps address attribute s = send-Keeps e s _

module _ (e : NetworkEnvironment) (dna agent : String) (header : ChainHeader) where
  abbrev signed : Entry → EntryWithHeader
  signed entry = record { entry = entry; header = header }

  publish_link_meta-Keeps :
      (entry : Entry) (s : NetworkState)
      → Keeps s (publish_link_meta e dna agent s (signed entry)).1
  unfolding publish_link_meta
  publish_link_meta-Keeps (Entry.link_add l) s =
      publish_meta-Keeps e dna agent (signed (Entry.link_add l)) l.link.base
        (display Attribute.link) s
  publish_link_meta-Keeps (Entry.link_remove l) s =
      publish_meta-Keeps e dna agent (signed (Entry.link_remove l)) l.link.base
        (display Attribute.link_remove) s
  publish_link_meta-Keeps _ s = Keeps-refl s

  if-Keeps :
      (b : Bool) (s : NetworkState) (p : HcResult (Unit {0}) × NetworkState)
      → Keeps s p.1
      → Keeps s (if b then p else (ok tt, s)).1
  if-Keeps true s p h = h
  if-Keeps false s p h = Keeps-refl s

  entry_then-Keeps :
      (entry : Entry) (s : NetworkState) (f : NetworkState → HcResult (Unit {0}) × NetworkState)
      → ((t : NetworkState) → Keeps t (f t).1)
      → Keeps s (then_send (publish_entry e dna agent s (signed entry)) f).1
  entry_then-Keeps entry s f after =
      then_send-Keeps s (publish_entry e dna agent s (signed entry)) f
        (publish_entry-Keeps e dna agent (signed entry) s) after

  publish_by_type-Keeps :
      (entry : Entry) (s : NetworkState) → Keeps s (publish_by_type e dna agent s (signed entry)).1
  unfolding publish_by_type publish_update_delete_meta entry_type
  publish_by_type-Keeps (Entry.agent_id a) s =
      publish_entry-Keeps e dna agent (signed (Entry.agent_id a)) s
  publish_by_type-Keeps (Entry.app name value) s = entry_then-Keeps (Entry.app name value) s _ λ t.
      if-Keeps (HashMap.is_some header.link_update_delete) t _ (
        publish_meta-Keeps e dna agent (signed (Entry.app name value))
          (entry_address e.codec (Entry.app name value)) (status_string modified) t)
  publish_by_type-Keeps (Entry.link_add l) s =
      entry_then-Keeps (Entry.link_add l) s _ (publish_link_meta-Keeps (Entry.link_add l))
  publish_by_type-Keeps (Entry.link_remove l) s =
      entry_then-Keeps (Entry.link_remove l) s _ (publish_link_meta-Keeps (Entry.link_remove l))
  publish_by_type-Keeps (Entry.deletion a) s = entry_then-Keeps (Entry.deletion a) s _ λ t.
      publish_meta-Keeps e dna agent (signed (Entry.deletion a))
        (entry_address e.codec (Entry.deletion a)) (status_string deleted) t
  publish_by_type-Keeps _ s = Keeps-refl s

-- Nothing is claimed of a panic.
abbrev pub WhenSome : {A : Type 0} → (A → Type 0) → Option A → Type 0
WhenSome P none = Unit
WhenSome P (some a) = P a

abbrev pub KeepsAfter : NetworkState → Option (HcResult (Unit {0}) × NetworkState) → Type 0
KeepsAfter s = WhenSome (λ p. Keeps s p.1)

once_ok-KeepsAfter :
    (r : HcResult (Unit {0})) (dna agent : Option String) (s : NetworkState)
    (f : String → String → Option (HcResult (Unit {0}) × NetworkState))
    → ((d a : String) → KeepsAfter s (f d a))
    → KeepsAfter s (once_ok r dna agent s f)
once_ok-KeepsAfter (err x) dna agent s f h = Keeps-refl s
once_ok-KeepsAfter (ok x) none agent s f h = tt
once_ok-KeepsAfter (ok x) (some d) none s f h = tt
once_ok-KeepsAfter (ok x) (some d) (some a) s f h = h d a

pub conclude-WhenSome :
    (s : NetworkState) (o : Option (HcResult (Unit {0}) × NetworkState))
    (f : HcResult (Unit {0}) → NetworkState → NetworkState) (Q : NetworkState → Type 0)
    → KeepsAfter s o
    → ((r : HcResult (Unit {0})) (t : NetworkState) → Keeps s t → Q (f r t))
    → WhenSome Q (conclude o f)
conclude-WhenSome s none f Q kept h = tt
conclude-WhenSome s (some (r, t)) f Q kept h = h r t kept

module _ (e : NetworkEnvironment) (s : NetworkState) where
  pub send-KeepsAfter :
      (message : String → String → JsonProtocol) → KeepsAfter s (send_once_initialized e s message)
  send-KeepsAfter message =
      once_ok-KeepsAfter (initialized s) s.dna_address s.agent_id s
        (λ dna agent. some (send e s (message dna agent)))
        λ dna agent. send-Keeps e s (message dna agent)

  deliver-Keeps :
      (d : DirectMessageData) (m : MessageData) (is_response : Bool)
      → Keeps s (deliver e s d m is_response).1
  deliver-Keeps d m true = send-Keeps e s (JsonProtocol.handle_send_message_result m)
  deliver-Keeps d m false =
      let opened : Keeps s (open_connection s d) = record {
        entries = refl;
        links = refl;
        packages = refl;
        replys = refl;
        dna = refl;
        agent = refl;
      } in
      Keeps-trans opened (send-Keeps e (open_connection s d) (JsonProtocol.send_message m))

  pub send_direct_message-KeepsAfter :
      (d : DirectMessageData) → KeepsAfter s (send_direct_message_inner e s d)
  unfolding send_direct_message_inner
  send_direct_message-KeepsAfter d =
      once_ok-KeepsAfter (initialized s) s.dna_address s.agent_id s
        (λ dna agent. some (deliver e s d (direct_message_data e d dna agent) d.is_response))
        λ dna agent. deliver-Keeps d (direct_message_data e d dna agent) d.is_response

  connected-Keeps :
      (p : HcResult (Unit {0}) × NetworkState) (message : DirectMessage)
      → Keeps s p.1
      → Keeps s (keep_connection e message p).1
  connected-Keeps (err x, t) message kept = kept
  connected-Keeps (ok x, t) message kept = record {
    entries = kept.entries;
    links = kept.links;
    packages = kept.packages;
    replys = kept.replys;
    dna = kept.dna;
    agent = kept.agent;
  }

  send_message-Keeps :
      (dna agent to_agent_id : String) (message : DirectMessage)
      → Keeps s (send_message e s dna agent to_agent_id message).1
  unfolding send_message
  send_message-Keeps dna agent to_agent_id message =
      let m = message_to e dna agent to_agent_id message in
      connected-Keeps (send e s (JsonProtocol.send_message m)) message
        (send-Keeps e s (JsonProtocol.send_message m))

  ask_source-Keeps :
      (header : ChainHeader) (dna agent : String) (p : Option Provenance)
      → Keeps s (ask_source e s header dna agent p).1
  ask_source-Keeps header dna agent none = Keeps-refl s
  ask_source-Keeps header dna agent (some p) =
      send_message-Keeps dna agent p.source
        (DirectMessage.request_validation_package header.entry_address)

  pub get_validation_package-KeepsAfter :
      (header : ChainHeader) → KeepsAfter s (get_validation_package_inner e s header)
  unfolding get_validation_package_inner
  get_validation_package-KeepsAfter header =
      once_ok-KeepsAfter (initialized s) s.dna_address s.agent_id s
        (λ dna agent. some (ask_source e s header dna agent (head? header.provenances)))
        λ dna agent. ask_source-Keeps header dna agent (head? header.provenances)

  publish_fetched-KeepsAfter :
      (w : Option (HcResult EntryWithHeader)) (dna agent : String)
      → KeepsAfter s (publish_fetched e s w dna agent)
  publish_fetched-KeepsAfter none dna agent = tt
  publish_fetched-KeepsAfter (some (err x)) dna agent = Keeps-refl s
  publish_fetched-KeepsAfter (some (ok w)) dna agent =
      publish_by_type-Keeps e dna agent w.header w.entry s

  pub publish-KeepsAfter :
      (fuel : ℕ) (st : MemoryStorage) (top : Option ChainHeader) (address : String)
      → KeepsAfter s (reduce_publish_inner e fuel st top s address)
  unfolding reduce_publish_inner
  publish-KeepsAfter fuel st top address =
      once_ok-KeepsAfter (initialized s) s.dna_address s.agent_id s
        (publish_fetched e s (fetch_entry_with_header e.codec fuel st top address))
        (publish_fetched-KeepsAfter (fetch_entry_with_header e.codec fuel st top address))
