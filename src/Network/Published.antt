-- ===== src/Network/Published.antt =====
-- What is sent when an entry is published.
use holochain_rust.Network.Publish.{
  publish_entry, publish_meta, publish_link_meta, publish_by_type, publish_update_delete_meta,
  reduce_publish, reduce_publish_inner, fetch_entry_with_header,
}
use holochain_rust.Network.{
  send, NetworkEnvironment, P2pNetwork, NetworkState, taken, then_send, initialized, ActionResponse,
}
use holochain_rust.Eav.Attribute.{display}
use holochain_rust.Net.Protocol.{JsonProtocol}
use holochain_rust.Network.Reduce.{reduce}
use holochain_rust.Prelude.HashMap
use holochain_rust.Prelude.{
  if◌then◌else◌, ok, err, ℕ, String, ◌≡◌, refl, sym, ap, Bool, true, false, Option, some, List, [],
  ◌∷◌, ◌++◌, append-nil, append_assoc, nat_eq,
}
use holochain_rust.CoreTypes.Entry.{Entry, entry_type, entry_address}
use holochain_rust.CoreTypes.Errors.{error_generic, HcResult, HolochainError, error_text}
use holochain_rust.CoreTypes.Header.{ChainHeader}
use holochain_rust.Eav.CrudStatus.{status_string}
use holochain_rust.Actions.{EntryWithHeader, Action}
use holochain_rust.Cas.{MemoryStorage}
use holochain_rust.Network.Messages.{as_text}

-- A state whose connection is initialized
abbrev pub online : NetworkState → P2pNetwork → String → String → NetworkState
online s n dna agent = record s { network = some n; dna_address = some dna; agent_id = some agent }

abbrev pub sending : P2pNetwork → List JsonProtocol → P2pNetwork
sending n messages = record n { sent = n.sent ++ messages }

abbrev pub with_its : Entry → ChainHeader → EntryWithHeader
with_its entry header = record { entry = entry; header = header }

module _ (e : NetworkEnvironment) (dna agent : String) where
  abbrev pub entry_message : EntryWithHeader → JsonProtocol
  entry_message w = JsonProtocol.publish_entry (record {
    dna_address = dna;
    provider_agent_id = agent;
    entry_address = entry_address e.codec w.entry;
    entry_content = e.entry_with_header_json w;
  })

  abbrev pub meta_message : EntryWithHeader → String → String → JsonProtocol
  meta_message w address attribute = JsonProtocol.publish_meta (record {
    dna_address = dna;
    provider_agent_id = agent;
    entry_address = address;
    attribute = attribute;
    content_list = e.entry_with_header_json w ∷ [];
  })

  -- The messages that an entry is published by
  abbrev pub messages_of : Entry → ChainHeader → List JsonProtocol
  messages_of (Entry.agent_id a) h = entry_message (with_its (Entry.agent_id a) h) ∷ []
  messages_of (Entry.app name value) h =
      let w = with_its (Entry.app name value) h in
      entry_message w
      ∷ (if HashMap.is_some h.link_update_delete
          then meta_message w (entry_address e.codec (Entry.app name value)) "modified" ∷ []
          else [])
  messages_of (Entry.link_add l) h =
      let w = with_its (Entry.link_add l) h in
      entry_message w ∷ meta_message w l.link.base "link" ∷ []
  messages_of (Entry.link_remove l) h =
      let w = with_its (Entry.link_remove l) h in
      entry_message w ∷ meta_message w l.link.base "link_remove" ∷ []
  messages_of (Entry.deletion a) h =
      let w = with_its (Entry.deletion a) h in
      entry_message w ∷ meta_message w (entry_address e.codec (Entry.deletion a)) "deleted" ∷ []
  messages_of _ h = []

-- The answer to a publication: entries of five types can be published.
abbrev pub publication_answer : Entry → String → HcResult String
publication_answer (Entry.agent_id a) address = ok address
publication_answer (Entry.app name value) address = ok address
publication_answer (Entry.link_add l) address = ok address
publication_answer (Entry.link_remove l) address = ok address
publication_answer (Entry.deletion a) address = ok address
publication_answer _ address = err (error_generic "not implemented: reduce_publish_inner")

abbrev outcome_of : Entry → HcResult (Unit {0})
outcome_of (Entry.agent_id a) = ok tt
outcome_of (Entry.app name value) = ok tt
outcome_of (Entry.link_add l) = ok tt
outcome_of (Entry.link_remove l) = ok tt
outcome_of (Entry.deletion a) = ok tt
outcome_of _ = err (HolochainError.not_implemented "reduce_publish_inner")

module _ (e : NetworkEnvironment) (dna agent : String) (s : NetworkState) (n : P2pNetwork)
    (accepting : (m : P2pNetwork) (x : JsonProtocol) → e.outcome m x ≡ ok tt) where
  send_accepted :
      (m : JsonProtocol)
      → send e (online s n dna agent) m ≡ (ok tt, online s (sending n (m ∷ [])) dna agent)
  unfolding send taken
  send_accepted m = rw (accepting n m) refl

  twice_accepted :
      (m m' : JsonProtocol) (b : Bool)
      → then_send (send e (online s n dna agent) m) (λ t. if b then send e t m' else (ok tt, t))
        ≡ (ok tt, online s (sending n (m ∷ (if b then m' ∷ [] else []))) dna agent)
  unfolding send taken
  twice_accepted m m' true =
      rw (accepting n m)
        (rw (accepting (sending n (m ∷ [])) m') (rw (append_assoc n.sent (m ∷ []) (m' ∷ [])) refl))
  twice_accepted m m' false = rw (accepting n m) refl

  publish_by_type_lem :
      (entry : Entry) (header : ChainHeader)
      → publish_by_type e dna agent (online s n dna agent) (with_its entry header)
        ≡ (outcome_of entry, online s (sending n (messages_of e dna agent entry header)) dna agent)
  unfolding publish_by_type publish_entry publish_meta publish_link_meta publish_update_delete_meta
      entry_type display status_string
  publish_by_type_lem (Entry.agent_id a) header =
      send_accepted (entry_message e dna agent (with_its (Entry.agent_id a) header))
  publish_by_type_lem (Entry.app name value) header =
      let w = with_its (Entry.app name value) header in
      twice_accepted (entry_message e dna agent w)
        (meta_message e dna agent w (entry_address e.codec (Entry.app name value)) "modified")
        (HashMap.is_some header.link_update_delete)
  publish_by_type_lem (Entry.link_add l) header =
      let w = with_its (Entry.link_add l) header in
      twice_accepted (entry_message e dna agent w) (meta_message e dna agent w l.link.base "link")
        true
  publish_by_type_lem (Entry.link_remove l) header =
      let w = with_its (Entry.link_remove l) header in
      twice_accepted (entry_message e dna agent w)
        (meta_message e dna agent w l.link.base "link_remove") true
  publish_by_type_lem (Entry.deletion a) header =
      let w = with_its (Entry.deletion a) header in
      twice_accepted (entry_message e dna agent w)
        (meta_message e dna agent w (entry_address e.codec (Entry.deletion a)) "deleted") true
  publish_by_type_lem _ header =
      ap
        (λ l. (
          err (HolochainError.not_implemented "reduce_publish_inner"),
          online s (record n { sent = l }) dna agent,
        ))
        (sym (append-nil n.sent))

answer_lem :
    (entry : Entry) (address : String)
    → as_text address (outcome_of entry) ≡ publication_answer entry address
unfolding error_text
answer_lem (Entry.agent_id a) address = refl
answer_lem (Entry.app name value) address = refl
answer_lem (Entry.link_add l) address = refl
answer_lem (Entry.link_remove l) address = refl
answer_lem (Entry.deletion a) address = refl
answer_lem _ address = refl

-- Where the connection is initialized and takes every message, and the entry and its header are
-- found, publishing an entry sends, after what was sent before, exactly the messages of its type:
-- the entry, and for a link, a deletion or an update what it says about another entry. It changes
-- nothing else but the answer, which is an error for the types that are not published.
pub publish_lem :
    (e : NetworkEnvironment) (fuel : ℕ) (st : MemoryStorage) (top : Option ChainHeader)
    (s : NetworkState) (n : P2pNetwork) (dna agent address : String) (id : ℕ) (w : EntryWithHeader)
    → ((m : P2pNetwork) (x : JsonProtocol) → e.outcome m x ≡ ok tt)
    → fetch_entry_with_header e.codec fuel st top address ≡ some (ok w)
    → reduce e fuel st top
        (online s n dna agent)
        (record { action = Action.publish address; id = id })
      ≡ some (record (online s (sending n (messages_of e dna agent w.entry w.header)) dna agent) {
        actions =
            HashMap.insert s.actions id
              (ActionResponse.publish (publication_answer w.entry address));
      })
unfolding reduce reduce_publish reduce_publish_inner initialized
publish_lem e fuel st top s n dna agent address id w accepting found = rw found (
    rw (publish_by_type_lem e dna agent s n accepting w.entry w.header)
      (rw (answer_lem w.entry address) refl))
