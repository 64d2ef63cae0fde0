-- ===== src/Net/Server/Monotone.antt =====
-- The handlers of direct messages, entries and metadata extend the state.
use holochain_rust.Prelude.HashMap
use holochain_rust.Prelude.{
  Bool-cases, ◌==◌, Map, ℕ, String, refl, sym, inl, inr, Option, none, some, List, [], ◌∷◌,
  append-nil, arith, string_eq,
}
use holochain_rust.Net.Server.Extends.{
  Keeps, Extends-refl, Remembers, then-Keeps, if_tracking-Keeps,
}
use holochain_rust.Net.Server.State.{M, if_tracking, ◌>>◌, pure}
use holochain_rust.Net.Book.Laws.{book_has-bookkeep_with_cell_id}
use holochain_rust.Net.Book.{
  bookkeep_with_cell_id, into_cell_id, CellBook, bookkeep, into_meta_id, book_has,
}
use holochain_rust.Net.Server.Metas.{
  priv_serve_handle_fetch_meta_result, single_meta, priv_serve_fetch_meta,
  priv_resolve_handle_fetch_meta_result, note_contents, route_fetch_meta, resolve_content,
  priv_serve_publish_meta, resolve_contents, resolve_meta_result, empty_meta_result,
}
use holochain_rust.Net.Server.Frames.{
  priv_send_all-Keeps, if-Extends, priv_send_one-Keeps, send-Keeps, priv_check_or_fail-Keeps,
}
use holochain_rust.Net.Server.Entries.{
  route_fetch_entry, note_published, published_data, resolve_entry_result, priv_serve_publish_entry,
  relay_message, check_requester, priv_serve_fetch_entry, priv_serve_handle_fetch_entry_result,
  first_cell_or, empty_entry_result,
}
use holochain_rust.Net.Protocol.{
  FetchEntryData, MessageData, FetchMetaData, DhtMetaData, FetchEntryResultData, JsonProtocol,
  EntryData, FetchMetaResultData,
}
use holochain_rust.Net.Server.Sends.{SenderInfo, priv_send_all, priv_check_or_fail, priv_send_one}

-- What is kept in a book is an addition to it.
pub bookkeep-Remembers :
    (book : CellBook) (cell base d : String)
    → Remembers book (bookkeep_with_cell_id book cell base d)
bookkeep-Remembers book cell base d cell' base' d' has =
    ground (arith, book_has-bookkeep_with_cell_id book cell base d cell' base' d')

pub tracked-Keeps :
    (dna agent : String) (info : SenderInfo) (k : M (Unit {0}))
    → Keeps k
    → Keeps (if_tracking (priv_check_or_fail dna agent info) k)
tracked-Keeps dna agent info k kk =
    if_tracking-Keeps (priv_check_or_fail dna agent info) k
      (priv_check_or_fail-Keeps dna agent info) kk

pub relay_message-Keeps :
    (wrap : MessageData → JsonProtocol) (msg : MessageData) → Keeps (relay_message wrap msg)
unfolding relay_message
relay_message-Keeps wrap msg =
    let info : SenderInfo = some (msg.from_agent_id, some msg.request_id) in
    let last : M (Unit {0}) = priv_send_one msg.dna_address msg.to_agent_id (wrap msg) in
    let inner = if_tracking (priv_check_or_fail msg.dna_address msg.to_agent_id info) last in
    tracked-Keeps msg.dna_address msg.from_agent_id info inner (
      tracked-Keeps msg.dna_address msg.to_agent_id info last
        (priv_send_one-Keeps msg.dna_address msg.to_agent_id (wrap msg)))

note_published-Keeps : (dna agent base d : String) → Keeps (note_published dna agent base d)
unfolding note_published bookkeep
note_published-Keeps dna agent base d s = record {
  same_senders = refl;
  same_senders_by_dna = refl;
  same_client_count = refl;
  same_channels = refl;
  only_sends = ([], sym (append-nil s.sent), tt);
  published = bookkeep-Remembers s.published_book (into_cell_id dna agent) base d;
  stored = λ cell base d has. has;
}

pub priv_serve_publish_entry-Keeps : (msg : EntryData) → Keeps (priv_serve_publish_entry msg)
unfolding priv_serve_publish_entry
priv_serve_publish_entry-Keeps msg =
    let note =
      note_published msg.dna_address msg.provider_agent_id msg.entry_address msg.entry_address in
    let broadcast = priv_send_all msg.dna_address (JsonProtocol.handle_store_entry msg) in
    tracked-Keeps msg.dna_address msg.provider_agent_id (some (msg.provider_agent_id, none))
      (note >> broadcast)
      (then-Keeps note broadcast
        (note_published-Keeps msg.dna_address msg.provider_agent_id msg.entry_address
          msg.entry_address)
        (priv_send_all-Keeps msg.dna_address (JsonProtocol.handle_store_entry msg)))

first_cell_or-Keeps :
    (o : Option (Map String ℕ)) (msg : JsonProtocol) (otherwise : M (Unit {0}))
    → Keeps otherwise
    → Keeps (first_cell_or o msg otherwise)
unfolding first_cell_or
first_cell_or-Keeps none msg otherwise k = Extends-refl
first_cell_or-Keeps (some []) msg otherwise k = k
first_cell_or-Keeps (some ((agent, channel) ∷ rest)) msg otherwise k = send-Keeps channel msg

pub priv_serve_fetch_entry-Keeps : (msg : FetchEntryData) → Keeps (priv_serve_fetch_entry msg)
unfolding priv_serve_fetch_entry route_fetch_entry
priv_serve_fetch_entry-Keeps msg =
    let empty = JsonProtocol.fetch_entry_result (empty_entry_result msg) in
    tracked-Keeps msg.dna_address msg.requester_agent_id
      (some (msg.requester_agent_id, some msg.request_id)) (route_fetch_entry msg)
      (λ s.
        first_cell_or-Keeps (HashMap.get s.senders_by_dna msg.dna_address)
          (JsonProtocol.handle_fetch_entry msg)
          (priv_send_one msg.dna_address msg.requester_agent_id empty)
          (priv_send_one-Keeps msg.dna_address msg.requester_agent_id empty) s)

check_requester-Keeps :
    (dna requester : String) (info : SenderInfo) → Keeps (check_requester dna requester info)
unfolding check_requester
check_requester-Keeps dna requester info = elim (Bool-cases (requester == "")) [
  | inl own ↦ rw own Extends-refl
  | inr other ↦ rw other (priv_check_or_fail-Keeps dna requester info)
]

pub priv_serve_handle_fetch_entry_result-Keeps :
    (msg : FetchEntryResultData) → Keeps (priv_serve_handle_fetch_entry_result msg)
unfolding priv_serve_handle_fetch_entry_result resolve_entry_result
priv_serve_handle_fetch_entry_result-Keeps msg =
    let info : SenderInfo = some (msg.provider_agent_id, some msg.request_id) in
    let answer = JsonProtocol.fetch_entry_result msg in
    let checked = check_requester msg.dna_address msg.requester_agent_id info in
    tracked-Keeps msg.dna_address msg.provider_agent_id info
      (if_tracking checked (resolve_entry_result msg))
      (if_tracking-Keeps checked (resolve_entry_result msg)
        (check_requester-Keeps msg.dna_address msg.requester_agent_id info)
        (λ s.
          if-Extends s (HashMap.contains_key s.request_book msg.request_id)
            (priv_serve_publish_entry (published_data msg) s)
            (priv_send_one msg.dna_address msg.requester_agent_id answer s)
            (priv_serve_publish_entry-Keeps (published_data msg) s)
            (priv_send_one-Keeps msg.dna_address msg.requester_agent_id answer s)))

note_contents-Keeps :
    (msg : DhtMetaData) (contents : List String) → Keeps (note_contents msg contents)
unfolding note_contents
note_contents-Keeps msg [] = Extends-refl
note_contents-Keeps msg (content ∷ rest) =
    let meta_id = into_meta_id (msg.entry_address, msg.attribute, content) in
    then-Keeps (note_published msg.dna_address msg.provider_agent_id msg.entry_address meta_id)
      (note_contents msg rest)
      (note_published-Keeps msg.dna_address msg.provider_agent_id msg.entry_address meta_id)
      (note_contents-Keeps msg rest)

pub priv_serve_publish_meta-Keeps : (msg : DhtMetaData) → Keeps (priv_serve_publish_meta msg)
unfolding priv_serve_publish_meta
priv_serve_publish_meta-Keeps msg =
    let broadcast = priv_send_all msg.dna_address (JsonProtocol.handle_store_meta msg) in
    tracked-Keeps msg.dna_address msg.provider_agent_id (some (msg.provider_agent_id, none))
      (note_contents msg msg.content_list >> broadcast)
      (then-Keeps (note_contents msg msg.content_list) broadcast
        (note_contents-Keeps msg msg.content_list)
        (priv_send_all-Keeps msg.dna_address (JsonProtocol.handle_store_meta msg)))

pub priv_serve_fetch_meta-Keeps : (msg : FetchMetaData) → Keeps (priv_serve_fetch_meta msg)
unfolding priv_serve_fetch_meta route_fetch_meta
priv_serve_fetch_meta-Keeps msg =
    let empty = JsonProtocol.fetch_meta_result (empty_meta_result msg) in
    tracked-Keeps msg.dna_address msg.requester_agent_id
      (some (msg.requester_agent_id, some msg.request_id)) (route_fetch_meta msg)
      (λ s.
        first_cell_or-Keeps (HashMap.get s.senders_by_dna msg.dna_address)
          (JsonProtocol.handle_fetch_meta msg)
          (priv_send_one msg.dna_address msg.requester_agent_id empty)
          (priv_send_one-Keeps msg.dna_address msg.requester_agent_id empty) s)

resolve_contents-Keeps :
    (msg : FetchMetaResultData) (contents : List String) → Keeps (resolve_contents msg contents)
unfolding resolve_contents resolve_content
resolve_contents-Keeps msg [] = Extends-refl
resolve_contents-Keeps msg (content ∷ rest) =
    then-Keeps (resolve_content msg content) (resolve_contents msg rest)
      (λ s.
        if-Extends s
          (book_has s.published_book (into_cell_id msg.dna_address msg.provider_agent_id)
            msg.entry_address (into_meta_id (msg.entry_address, msg.attribute, content)))
          (pure tt s) (priv_serve_publish_meta (single_meta msg content) s) (Extends-refl s)
          (priv_serve_publish_meta-Keeps (single_meta msg content) s))
      (resolve_contents-Keeps msg rest)

pub priv_serve_handle_fetch_meta_result-Keeps :
    (msg : FetchMetaResultData) → Keeps (priv_serve_handle_fetch_meta_result msg)
unfolding priv_serve_handle_fetch_meta_result resolve_meta_result
    priv_resolve_handle_fetch_meta_result
priv_serve_handle_fetch_meta_result-Keeps msg =
    let info : SenderInfo = some (msg.provider_agent_id, some msg.request_id) in
    let answer = JsonProtocol.fetch_meta_result msg in
    let checked = check_requester msg.dna_address msg.requester_agent_id info in
    tracked-Keeps msg.dna_address msg.provider_agent_id info
      (if_tracking checked (resolve_meta_result msg))
      (if_tracking-Keeps checked (resolve_meta_result msg)
        (check_requester-Keeps msg.dna_address msg.requester_agent_id info)
        (λ s.
          if-Extends s (HashMap.contains_key s.request_book msg.request_id)
            (priv_resolve_handle_fetch_meta_result msg s)
            (priv_send_one msg.dna_address msg.requester_agent_id answer s)
            (resolve_contents-Keeps msg msg.content_list s)
            (priv_send_one-Keeps msg.dna_address msg.requester_agent_id answer s)))
