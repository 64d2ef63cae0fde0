-- ===== src/Net/Server/Listings.antt =====
-- The handlers of the lists that cells report extend the state.
use holochain_rust.Prelude.{
  if◌then◌else◌, String, refl, sym, List, [], ◌∷◌, ◌++◌, append-nil, arith, string_eq,
}
use holochain_rust.Net.Server.Extends.{
  Keeps, Extends, Remembers, then-Keeps, bind-Keeps, Extends-refl,
}
use holochain_rust.Net.Server.State.{M, pure, InMemoryServer, panic, ◌>>=◌, ◌>>◌}
use holochain_rust.Net.Protocol.{JsonProtocol, MetaTuple}
use holochain_rust.Net.Server.Frames.{
  priv_create_request_with_cell_id-Keeps, option-Extends, priv_send_one_with_cell_id-Keeps,
  if-Extends,
}
use holochain_rust.Net.Server.Cells.{priv_check_request, priv_create_request_with_cell_id}
use holochain_rust.Net.Server.Lists.{
  request_entry, request_missing_entry, has_key, request_missing_metas, MetaKey, request_meta,
  with_own_request, note_stored_metas, note_stored, request_missing_entries, note_stored_entries,
}
use holochain_rust.Net.Server.Sends.{priv_send_one_with_cell_id}
use holochain_rust.Net.Book.{CellBook, book_has_entry, into_meta_id, book_has}
use holochain_rust.Net.Server.Monotone.{bookkeep-Remembers}

pub with_own_request-Keeps :
    (request_id : String) (rest : String → M (Unit {0}))
    → ((cell_id : String) → Keeps (rest cell_id))
    → Keeps (with_own_request request_id rest)
unfolding with_own_request
with_own_request-Keeps request_id rest k s =
    option-Extends s (priv_check_request s request_id) (panic s) (λ cell_id. rest cell_id s)
      (Extends-refl s) (λ cell_id. k cell_id s)

-- A request for what a cell has published
pub request-Keeps :
    (cell_id : String) (message : String → JsonProtocol)
    → Keeps (
        priv_create_request_with_cell_id cell_id >>= λ r.
        priv_send_one_with_cell_id cell_id (message r))
request-Keeps cell_id message =
    bind-Keeps (priv_create_request_with_cell_id cell_id)
      (λ r. priv_send_one_with_cell_id cell_id (message r))
      (priv_create_request_with_cell_id-Keeps cell_id)
      (λ r. priv_send_one_with_cell_id-Keeps cell_id (message r))

pub request_entry-Keeps : (dna cell_id a : String) → Keeps (request_entry dna cell_id a)
unfolding request_entry
request_entry-Keeps dna cell_id a = request-Keeps cell_id λ r.
    JsonProtocol.handle_fetch_entry
      (record { dna_address = dna; request_id = r; requester_agent_id = ""; entry_address = a })

pub request_missing_entries-Keeps :
    (dna cell_id : String) (l : List String) → Keeps (request_missing_entries dna cell_id l)
unfolding request_missing_entries request_missing_entry
request_missing_entries-Keeps dna cell_id [] = Extends-refl
request_missing_entries-Keeps dna cell_id (a ∷ rest) =
    then-Keeps (request_missing_entry dna cell_id a) (request_missing_entries dna cell_id rest)
      (λ s.
        if-Extends s (book_has_entry s.published_book cell_id a) (pure tt s)
          (request_entry dna cell_id a s) (Extends-refl s) (request_entry-Keeps dna cell_id a s))
      (request_missing_entries-Keeps dna cell_id rest)

pub request_meta-Keeps :
    (dna cell_id : String) (key : MetaKey) → Keeps (request_meta dna cell_id key)
unfolding request_meta
request_meta-Keeps dna cell_id (a, t) = request-Keeps cell_id λ r.
    JsonProtocol.handle_fetch_meta (record {
      dna_address = dna;
      request_id = r;
      requester_agent_id = "";
      entry_address = a;
      attribute = t;
    })

pub request_missing_metas-Keeps :
    (dna cell_id : String) (keys : List MetaKey) (l : List MetaTuple)
    → Keeps (request_missing_metas dna cell_id keys l)
unfolding request_missing_metas
request_missing_metas-Keeps dna cell_id keys [] s = Extends-refl s
request_missing_metas-Keeps dna cell_id keys ((a, t, content) ∷ rest) s =
    let later = request_missing_metas dna cell_id (keys ++ (a, t) ∷ []) rest in
    let passed = request_missing_metas dna cell_id keys rest s in
    let asked = (request_meta dna cell_id (a, t) >> later) s in
    let passed-Extends = request_missing_metas-Keeps dna cell_id keys rest s in
    if-Extends s (book_has s.published_book cell_id a (into_meta_id (a, t, content))) passed
      (if has_key keys (a, t) then passed else asked) passed-Extends
      (if-Extends s (has_key keys (a, t)) passed asked passed-Extends (
        then-Keeps (request_meta dna cell_id (a, t)) later (request_meta-Keeps dna cell_id (a, t))
          (request_missing_metas-Keeps dna cell_id (keys ++ (a, t) ∷ []) rest) s))

pub note_stored-Remembers :
    (cell base d : String) (book : CellBook) → Remembers book (note_stored cell base d book)
unfolding note_stored
note_stored-Remembers cell base d book cell' base' d' has =
    ground (arith, bookkeep-Remembers book cell base d cell' base' d' has)

pub note_stored_entries-Remembers :
    (cell : String) (l : List String) (book : CellBook)
    → Remembers book (note_stored_entries cell l book)
unfolding note_stored_entries
note_stored_entries-Remembers cell [] book cell' base' d' has = has
note_stored_entries-Remembers cell (a ∷ rest) book cell' base' d' has =
    note_stored_entries-Remembers cell rest (note_stored cell a a book) cell' base' d'
      (note_stored-Remembers cell a a book cell' base' d' has)

pub note_stored_metas-Remembers :
    (cell : String) (l : List MetaTuple) (book : CellBook)
    → Remembers book (note_stored_metas cell l book)
unfolding note_stored_metas
note_stored_metas-Remembers cell [] book cell' base' d' has = has
note_stored_metas-Remembers cell (m ∷ rest) book cell' base' d' has =
    note_stored_metas-Remembers cell rest (note_stored cell m.0 (into_meta_id m) book) cell' base'
      d' (note_stored-Remembers cell m.0 (into_meta_id m) book cell' base' d' has)

pub set_stored-Extends :
    (s : InMemoryServer) (book : CellBook)
    → Remembers s.stored_book book
    → Extends s (record s { stored_book = book })
set_stored-Extends s book more = record {
  same_senders = refl;
  same_senders_by_dna = refl;
  same_client_count = refl;
  same_channels = refl;
  only_sends = ([], sym (append-nil s.sent), tt);
  published = λ cell base d has. has;
  stored = more;
}
