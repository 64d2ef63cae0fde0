-- ===== src/Net/Server/Lists.antt =====
-- The answers to the requests for lists: what a cell has published, and what it holds.
use holochain_rust.Prelude.{
  if◌then◌else◌, ◌==◌, any, String, Bool, ◌&&◌, none, some, List, [], ◌∷◌, ◌++◌, string_eq,
}
use holochain_rust.Net.Server.State.{M, ◌>>=◌, ◌>>◌, pure, panic, done}
use holochain_rust.Net.Protocol.{JsonProtocol, MetaTuple, EntryListData, MetaListData}
use holochain_rust.Net.Server.Cells.{priv_check_request, priv_create_request_with_cell_id}
use holochain_rust.Net.Book.{
  CellBook, book_has, book_has_entry, into_meta_id, bookkeep_with_cell_id,
}
use holochain_rust.Net.Server.Sends.{priv_send_one_with_cell_id}
use holochain_rust.CoreTypes.Entry.{entry_address}

-- `self.priv_check_request(&msg.request_id).expect("Not our request")`, and the rest with its cell
unfoldable pub with_own_request : String → (String → M (Unit {0})) → M (Unit {0})
unfolding priv_check_request
with_own_request request_id rest s = elim (priv_check_request s request_id) [
  | none ↦ panic s
  | some cell_id ↦ rest cell_id s
]

unfoldable pub request_entry : String → String → String → M (Unit {0})
unfolding priv_create_request_with_cell_id priv_send_one_with_cell_id
request_entry dna_address cell_id entry_address = do
  request_id ← priv_create_request_with_cell_id cell_id
  priv_send_one_with_cell_id cell_id (
      JsonProtocol.handle_fetch_entry (record {
        dna_address = dna_address;
        request_id = request_id;
        requester_agent_id = "";
        entry_address = entry_address;
      }))

-- One address of the list: what is published already is passed over.
unfoldable pub request_missing_entry : String → String → String → M (Unit {0})
unfolding book_has_entry request_entry
request_missing_entry dna_address cell_id entry_address s =
    if book_has_entry s.published_book cell_id entry_address
    then pure tt s
    else request_entry dna_address cell_id entry_address s

unfoldable pub request_missing_entries : String → String → List String → M (Unit {0})
unfolding request_missing_entry
request_missing_entries dna_address cell_id [] = pure tt
request_missing_entries dna_address cell_id (a ∷ rest) =
    request_missing_entry dna_address cell_id a >> request_missing_entries dna_address cell_id rest

unfoldable pub priv_serve_handle_get_publishing_entry_list_result : EntryListData → M (Unit {0})
unfolding with_own_request request_missing_entries
priv_serve_handle_get_publishing_entry_list_result msg =
    with_own_request msg.request_id
      λ cell_id. request_missing_entries msg.dna_address cell_id msg.entry_address_list

-- `if book_has(&self.stored_book, …) { continue; } bookkeep_with_cell_id(…)`
unfoldable pub note_stored : String → String → String → CellBook → CellBook
unfolding book_has bookkeep_with_cell_id
note_stored cell_id base data_address book =
    if book_has book cell_id base data_address
    then book
    else bookkeep_with_cell_id book cell_id base data_address

unfoldable pub note_stored_entries : String → List String → CellBook → CellBook
unfolding note_stored
note_stored_entries cell_id [] book = book
note_stored_entries cell_id (a ∷ rest) book =
    note_stored_entries cell_id rest (note_stored cell_id a a book)

unfoldable pub priv_serve_handle_get_holding_entry_list_result : EntryListData → M (Unit {0})
unfolding with_own_request note_stored_entries
priv_serve_handle_get_holding_entry_list_result msg = with_own_request msg.request_id λ cell_id s. (
  done tt,
  record s { stored_book = note_stored_entries cell_id msg.entry_address_list s.stored_book },
)

abbrev pub MetaKey : Type 0
MetaKey = String × String

-- `requested_meta_key.contains(&meta_key)`
unfoldable pub has_key : List MetaKey → MetaKey → Bool
has_key keys (a, t) = any (λ k. k.0 == a && k.1 == t) keys

unfoldable pub request_meta : String → String → MetaKey → M (Unit {0})
unfolding priv_create_request_with_cell_id priv_send_one_with_cell_id
request_meta dna_address cell_id (entry_address, attribute) = do
  request_id ← priv_create_request_with_cell_id cell_id
  priv_send_one_with_cell_id cell_id (
      JsonProtocol.handle_fetch_meta (record {
        dna_address = dna_address;
        request_id = request_id;
        requester_agent_id = "";
        entry_address = entry_address;
        attribute = attribute;
      }))

-- The loop over the tuples, with the keys requested so far: a known meta and a key that was
-- requested are passed over.
unfoldable pub request_missing_metas :
    String → String → List MetaKey → List MetaTuple → M (Unit {0})
unfolding book_has into_meta_id has_key request_meta
request_missing_metas dna_address cell_id keys [] s = pure tt s
request_missing_metas dna_address cell_id keys ((a, t, content) ∷ rest) s =
    let passed = request_missing_metas dna_address cell_id keys rest s in
    let asked =
      (request_meta dna_address cell_id (a, t)
          >> request_missing_metas dna_address cell_id (keys ++ (a, t) ∷ []) rest)
        s in
    if book_has s.published_book cell_id a (into_meta_id (a, t, content))
    then passed
    else if has_key keys (a, t)
    then passed
    else asked

unfoldable pub priv_serve_handle_get_publishing_meta_list_result : MetaListData → M (Unit {0})
unfolding with_own_request request_missing_metas
priv_serve_handle_get_publishing_meta_list_result msg =
    with_own_request msg.request_id
      λ cell_id. request_missing_metas msg.dna_address cell_id [] msg.meta_list

unfoldable pub note_stored_metas : String → List MetaTuple → CellBook → CellBook
unfolding note_stored into_meta_id
note_stored_metas cell_id [] book = book
note_stored_metas cell_id (m ∷ rest) book =
    note_stored_metas cell_id rest (note_stored cell_id m.0 (into_meta_id m) book)

unfoldable pub priv_serve_handle_get_holding_meta_list_result : MetaListData → M (Unit {0})
unfolding with_own_request note_stored_metas
priv_serve_handle_get_holding_meta_list_result msg = with_own_request msg.request_id λ cell_id s.
    (done tt, record s { stored_book = note_stored_metas cell_id msg.meta_list s.stored_book })
