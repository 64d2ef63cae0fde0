-- ===== src/Net/Server/Cells.antt =====
-- Requests of the server's own, and the public methods that connect clients and cells.
use Prim.Native.String.{◌++◌ as text_append}
use holochain_rust.Prelude.HashMap
use holochain_rust.Prelude.HashMap.{Map}
use holochain_rust.Prelude.{
  if◌then◌else◌, ◌==◌, ℕ, ◌+◌, ◌-◌, ◌%◌, ◌^◌, String, Bool, Option, none, some, [], unwrap_or,
  string_eq, nat_eq,
}
use holochain_rust.Net.Server.State.{M, done, panicked, InMemoryServer, decimal}
use holochain_rust.Net.Book.{into_cell_id}

-- `usize` addition
abbrev pub next_usize : ℕ → ℕ
next_usize n = (n + 1) % 2 ^ 64

-- `format!("req_{}", self.request_count)`
unfoldable pub request_id_of : ℕ → String
unfolding decimal
request_id_of n = text_append "req_" (decimal n n)

unfoldable pub priv_generate_request_id : M String
priv_generate_request_id s =
    let count = next_usize s.request_count in
    (done (request_id_of count), record s { request_count = count })

unfoldable pub priv_create_request_with_cell_id : String → M String
unfolding priv_generate_request_id
priv_create_request_with_cell_id cell_id s =
    let req_id = request_id_of (next_usize s.request_count) in
    let s' = (priv_generate_request_id s).1 in
    (done req_id, record s' { request_book = HashMap.insert s'.request_book req_id cell_id })

unfoldable pub priv_create_request : String → String → M String
unfolding priv_create_request_with_cell_id into_cell_id
priv_create_request dna_address agent_id =
    priv_create_request_with_cell_id (into_cell_id dna_address agent_id)

unfoldable pub priv_check_request : InMemoryServer → String → Option String
priv_check_request s request_id = HashMap.get s.request_book request_id

unfoldable pub new : String → (ℕ → Bool) → InMemoryServer
new name is_open = record {
  name = name;
  senders = [];
  senders_by_dna = [];
  client_count = 0;
  published_book = [];
  stored_book = [];
  trackdna_book = [];
  request_book = [];
  request_count = 0;
  is_open = is_open;
  sent = [];
}

unfoldable pub clock_in : M (Unit {0})
clock_in s = (done tt, record s { client_count = next_usize s.client_count })

-- The assertion panics; the last client to leave clears the channels.
unfoldable pub clock_out : M (Unit {0})
clock_out s =
    if s.client_count == 0
    then (panicked, s)
    else if s.client_count == 1
    then (done tt, record s { client_count = 0; senders = []; senders_by_dna = [] })
    else (done tt, record s { client_count = s.client_count - 1 })

-- `senders_by_dna.entry(dna)`: the agents of the DNA, or a new map
unfoldable pub agents_of : InMemoryServer → String → Map String ℕ
agents_of s dna_address = unwrap_or [] (HashMap.get s.senders_by_dna dna_address)

unfoldable pub register_cell : String → String → ℕ → M (Unit {0})
unfolding agents_of into_cell_id
register_cell dna_address agent_id sender s = (
  done tt,
  record s {
    senders = HashMap.insert s.senders (into_cell_id dna_address agent_id) sender;
    senders_by_dna =
        HashMap.insert s.senders_by_dna dna_address
          (HashMap.insert (agents_of s dna_address) agent_id sender);
  },
)

-- The `match` on `senders_by_dna.entry(dna)` after the removal from `senders`; the vacant entry
-- is `unreachable!()`.
unfoldable pub unregister_agent : String → String → Option (Map String ℕ) → M (Unit {0})
unregister_agent dna_address agent_id none s = (panicked, s)
unregister_agent dna_address agent_id (some agents) s = (
  done tt,
  record s {
    senders_by_dna = HashMap.insert s.senders_by_dna dna_address (HashMap.remove agents agent_id);
  },
)

unfoldable pub unregister_cell : String → String → M (Unit {0})
unfolding unregister_agent into_cell_id
unregister_cell dna_address agent_id s =
    let cell_id = into_cell_id dna_address agent_id in
    elim (HashMap.get s.senders cell_id) [
      | none ↦ (done tt, s)
      | some sender ↦
          unregister_agent dna_address agent_id (HashMap.get s.senders_by_dna dna_address)
            (record s { senders = HashMap.remove s.senders cell_id })
    ]
