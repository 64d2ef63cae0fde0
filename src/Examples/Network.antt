-- ===== src/Examples/Network.antt =====
-- Runs of the server with two cells of one DNA.
use holochain_rust.Prelude.HashMap
use holochain_rust.Prelude.{
  if◌then◌else◌, ◌==◌, ℕ, String, ◌≡◌, refl, true, ◌&&◌, ◌||◌, none, some, [], ◌∷◌, ◌++◌, string_eq,
  nat_eq,
}
use holochain_rust.Net.Server.State.{◌>>◌, done, InMemoryServer}
use holochain_rust.Net.Server.Serve.{serve}
use holochain_rust.Net.Server.Serves.{serve-Extends}
use holochain_rust.Net.Book.{into_cell_id, book_has}
use holochain_rust.Net.Server.Cells.{unregister_cell, register_cell, agents_of}
use holochain_rust.Net.Protocol.{JsonProtocol, MessageData, EntryData}
use holochain_rust.Net.Server.Entries.{relay_message}
use holochain_rust.Net.Server.Membership.{unregister_cell-register_cell}
use holochain_rust.Net.Server.Sends.{priv_send_one, is_tracking}
use holochain_rust.Net.Server.Delivery.{sent_to, relay_message_lem, publish_entry_lem, recipient}
use holochain_rust.Net.Server.Extends.{Extends}

abbrev server : InMemoryServer
server = record {
  name = "server";
  senders = ("dna::alice", 0) ∷ ("dna::bob", 1) ∷ [];
  senders_by_dna = ("dna", ("alice", 0) ∷ ("bob", 1) ∷ []) ∷ [];
  client_count = 1;
  published_book = [];
  stored_book = [];
  trackdna_book = ("dna::alice", tt) ∷ ("dna::bob", tt) ∷ [];
  request_book = [];
  request_count = 0;
  is_open = λ c. true;
  sent = [];
}

abbrev hello : MessageData
hello = record {
  dna_address = "dna";
  request_id = "r";
  to_agent_id = "bob";
  from_agent_id = "alice";
  content = "hello";
}

abbrev page : EntryData
page = record {
  dna_address = "dna";
  provider_agent_id = "alice";
  entry_address = "page";
  entry_content = "text";
}

serve-Extends_example : Extends server (serve (some (JsonProtocol.publish_entry page)) server).1
serve-Extends_example = serve-Extends (some (JsonProtocol.publish_entry page)) server

relay_message_lem_example :
    relay_message JsonProtocol.handle_send_message hello server
    ≡ priv_send_one "dna"
        (recipient JsonProtocol.handle_send_message hello server).0
        (recipient JsonProtocol.handle_send_message hello server).1
        server
relay_message_lem_example = relay_message_lem JsonProtocol.handle_send_message hello server

alice-tracks : is_tracking server "dna" "alice" ≡ true
unfolding is_tracking HashMap.contains_key HashMap.get into_cell_id
alice-tracks = refl

abbrev cells : HashMap.Map String ℕ
cells = ("alice", 0) ∷ ("bob", 1) ∷ []

dna-joined : HashMap.get server.senders_by_dna "dna" ≡ some cells
unfolding HashMap.get
dna-joined = refl

publish_entry_lem_example :
    (s' : InMemoryServer) × (serve (some (JsonProtocol.publish_entry page)) server ≡ (done tt, s'))
    × (s'.sent ≡ server.sent ++ sent_to cells (JsonProtocol.handle_store_entry page))
    × ((cell base d : String)
        → book_has s'.published_book cell base d ≡ (
            (into_cell_id "dna" "alice" == cell && "page" == base && "page" == d)
            || book_has server.published_book cell base d))
publish_entry_lem_example =
    publish_entry_lem page server cells alice-tracks dna-joined (refl, (refl, tt))

carol-absent : HashMap.get server.senders (into_cell_id "dna" "carol") ≡ none
unfolding HashMap.get into_cell_id
carol-absent = refl

unregister_cell-register_cell_example :
    (s' : InMemoryServer) × ((register_cell "dna" "carol" 2 >> unregister_cell "dna" "carol") server
      ≡ (done tt, s'))
    × ((cell : String) → HashMap.get s'.senders cell ≡ HashMap.get server.senders cell)
    × ((dna' agent' : String)
        → HashMap.get (agents_of s' dna') agent' ≡ (
            if "dna" == dna' && "carol" == agent'
            then none
            else HashMap.get (agents_of server dna') agent'))
unregister_cell-register_cell_example =
    unregister_cell-register_cell "dna" "carol" 2 server carol-absent

abbrev some_cell : String
some_cell = "cell"

abbrev some_base : String
some_base = "base"

abbrev some_address : String
some_address = "address"
