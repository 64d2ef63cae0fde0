-- ===== src/Net/Server/Delivery.antt =====
-- Where the messages go: direct messages and published entries.
use holochain_rust.Prelude.HashMap
use holochain_rust.Net.Server.Serve.{serve}
use holochain_rust.Prelude.{
  if◌then◌else◌, ◌==◌, All, Map, ℕ, String, ◌≡◌, refl, sym, ap, ◌∙◌, Bool, true, false, ◌&&◌, ◌||◌,
  Option, none, some, List, [], ◌∷◌, ◌++◌, append-nil, append_assoc, arith, string_eq,
}
use holochain_rust.Net.Server.State.{
  panicked, done, failed, pure, Outcome, InMemoryServer, then_do, if_tracking, M, send, ◌>>◌,
}
use holochain_rust.Net.Server.Sends.{
  report_untracked, priv_check_or_fail, fail_message, priv_send_one, is_tracking, send_each,
  priv_send_all,
}
use holochain_rust.Net.Protocol.{JsonProtocol, MessageData, EntryData}
use holochain_rust.Net.Server.Entries.{relay_message, priv_serve_publish_entry, note_published}
use holochain_rust.Net.Book.{book_has, into_cell_id, bookkeep, bookkeep_with_cell_id}
use holochain_rust.Net.Book.Laws.{book_has-bookkeep_with_cell_id}

-- Whom a direct message is for: the receiver, if both agents track the DNA, and else the sender,
-- who is told that one of them does not.
abbrev pub recipient :
    (MessageData → JsonProtocol) → MessageData → InMemoryServer → String × JsonProtocol
recipient wrap msg s =
    if is_tracking s msg.dna_address msg.from_agent_id
      && is_tracking s msg.dna_address msg.to_agent_id
    then (msg.to_agent_id, wrap msg)
    else (msg.from_agent_id, fail_message msg.dna_address (msg.from_agent_id, some msg.request_id))

discard_lem :
    (r : Outcome (Unit {0}) × InMemoryServer) (k : M (Unit {0}))
    → then_do (then_do r (λ _. pure false)) (λ t. if t then k else pure tt) ≡ r
discard_lem (done x, s) k = refl
discard_lem (failed e, s) k = refl
discard_lem (panicked, s) k = refl

choose_lem :
    (t : Bool) (r : Outcome (Unit {0}) × InMemoryServer) (k : M (Unit {0})) (s : InMemoryServer)
    → then_do
        (if t then pure true s else then_do r (λ _. pure false))
        (λ t. if t then k else pure tt)
      ≡ (if t then k s else r)
choose_lem true r k s = refl
choose_lem false r k s = discard_lem r k

-- What follows the test of an agent, where a sender is there to be told
pub checked_lem :
    (dna agent : String) (info : String × Option String) (k : M (Unit {0})) (s : InMemoryServer)
    → if_tracking (priv_check_or_fail dna agent (some info)) k s ≡ (
        if is_tracking s dna agent then k s else priv_send_one dna info.0 (fail_message dna info) s)
unfolding priv_check_or_fail report_untracked
checked_lem dna agent info k s =
    choose_lem (is_tracking s dna agent) (priv_send_one dna info.0 (fail_message dna info) s) k s

-- A direct message is one send, whatever the state: to the receiver if both agents track the DNA,
-- and else a failure to the sender. Its outcome and the state after it are those of that send.
pub relay_message_lem :
    (wrap : MessageData → JsonProtocol) (msg : MessageData) (s : InMemoryServer)
    → relay_message wrap msg s
      ≡ priv_send_one msg.dna_address (recipient wrap msg s).0 (recipient wrap msg s).1 s
unfolding relay_message
relay_message_lem wrap msg s =
    let info : String × Option String = (msg.from_agent_id, some msg.request_id) in
    let last : M (Unit {0}) = priv_send_one msg.dna_address msg.to_agent_id (wrap msg) in
    ground (
      arith,
      checked_lem msg.dna_address msg.from_agent_id info
          (if_tracking (priv_check_or_fail msg.dna_address msg.to_agent_id (some info)) last) s,
      checked_lem msg.dna_address msg.to_agent_id info last s,
    )

-- The message of one cell after the other, with what was sent before
abbrev pub sent_to : Map String ℕ → JsonProtocol → List (ℕ × JsonProtocol)
sent_to [] msg = []
sent_to ((agent, channel) ∷ rest) msg = (channel, msg) ∷ sent_to rest msg

send_each_lem :
    (agents : Map String ℕ) (msg : JsonProtocol) (s : InMemoryServer)
    → All (λ a. s.is_open a.1 ≡ true) agents
    → send_each agents msg s ≡ (done tt, record s { sent = s.sent ++ sent_to agents msg })
unfolding send_each send
send_each_lem [] msg s opened = ap (λ l. (done tt, record s { sent = l })) (sym (append-nil s.sent))
send_each_lem ((agent, channel) ∷ rest) msg s (first, others) = rw first (
    send_each_lem rest msg (record s { sent = s.sent ++ (channel, msg) ∷ [] }) others
    ∙ ap (λ l. (done tt, record s { sent = l }))
        (append_assoc s.sent ((channel, msg) ∷ []) (sent_to rest msg)))

priv_send_all_lem :
    (dna : String) (msg : JsonProtocol) (s : InMemoryServer) (agents : Map String ℕ)
    → HashMap.get s.senders_by_dna dna ≡ some agents
    → All (λ a. s.is_open a.1 ≡ true) agents
    → priv_send_all dna msg s ≡ (done tt, record s { sent = s.sent ++ sent_to agents msg })
unfolding priv_send_all
priv_send_all_lem dna msg s agents joined opened =
    ground (arith, joined, send_each_lem agents msg s opened)

-- Where the provider tracks the DNA and the channel of each agent that joined it is open, a
-- published entry is sent to every one of them to store and nothing else is sent, and the book of
-- what is published has the entry under the provider's cell and is else as it was.
pub publish_entry_lem :
    (msg : EntryData) (s : InMemoryServer) (agents : Map String ℕ)
    → is_tracking s msg.dna_address msg.provider_agent_id ≡ true
    → HashMap.get s.senders_by_dna msg.dna_address ≡ some agents
    → All (λ a. s.is_open a.1 ≡ true) agents
    → (s' : InMemoryServer) × (serve (some (JsonProtocol.publish_entry msg)) s ≡ (done tt, s'))
      × (s'.sent ≡ s.sent ++ sent_to agents (JsonProtocol.handle_store_entry msg))
      × ((cell base d : String)
          → book_has s'.published_book cell base d ≡ (
              (into_cell_id msg.dna_address msg.provider_agent_id == cell
                && msg.entry_address == base
                && msg.entry_address == d)
              || book_has s.published_book cell base d))
unfolding serve priv_serve_publish_entry note_published bookkeep
publish_entry_lem msg s agents tracking joined opened =
    let cell = into_cell_id msg.dna_address msg.provider_agent_id in
    let book = bookkeep_with_cell_id s.published_book cell msg.entry_address msg.entry_address in
    let store = JsonProtocol.handle_store_entry msg in
    let noted = record s { published_book = book } in
    let rest =
      note_published msg.dna_address msg.provider_agent_id msg.entry_address msg.entry_address
      >> priv_send_all msg.dna_address store in
    (
      record noted { sent = s.sent ++ sent_to agents store },
      checked_lem msg.dna_address msg.provider_agent_id (msg.provider_agent_id, none) rest s
          ∙ rw tracking (priv_send_all_lem msg.dna_address store noted agents joined opened),
      refl,
      book_has-bookkeep_with_cell_id s.published_book cell msg.entry_address msg.entry_address,
    )
