-- ===== src/Net/Server/Sends.antt =====
-- The private sends.
use holochain_rust.Prelude.HashMap
use holochain_rust.Prelude.HashMap.{Map}
use holochain_rust.Prelude.{
  if◌then◌else◌, ℕ, String, Bool, true, false, Option, none, some, [], ◌∷◌, unwrap_or, string_eq,
}
use holochain_rust.Net.Server.State.{
  ◌>>=◌, M, InMemoryServer, ◌>>◌, pure, fail, expect, send, not_tracked, no_sender_channel,
}
use holochain_rust.Net.Protocol.{JsonProtocol, GetListData}
use holochain_rust.Net.Server.Cells.{priv_create_request}
use holochain_rust.Net.Book.{into_cell_id}

unfoldable pub priv_send_one_with_cell_id : String → JsonProtocol → M (Unit {0})
unfolding send
priv_send_one_with_cell_id cell_id msg s = elim (HashMap.get s.senders cell_id) [
  | none ↦ fail (no_sender_channel s.name cell_id) s
  | some sender ↦ send sender msg s
]

unfoldable pub priv_send_one : String → String → JsonProtocol → M (Unit {0})
unfolding priv_send_one_with_cell_id into_cell_id
priv_send_one dna_address to_agent_id msg =
    priv_send_one_with_cell_id (into_cell_id dna_address to_agent_id) msg

-- The loop of `priv_send_all`; the first failure ends it.
unfoldable pub send_each : Map String ℕ → JsonProtocol → M (Unit {0})
unfolding send
send_each [] msg = pure tt
send_each ((agent, sender) ∷ rest) msg = send sender msg >> send_each rest msg

unfoldable pub priv_send_all : String → JsonProtocol → M (Unit {0})
unfolding send_each
priv_send_all dna_address msg s = elim (HashMap.get s.senders_by_dna dna_address) [
  | none ↦ pure tt s
  | some arr ↦ send_each arr msg s
]

unfoldable pub is_tracking : InMemoryServer → String → String → Bool
unfolding into_cell_id
is_tracking s dna_address agent_id =
    HashMap.contains_key s.trackdna_book (into_cell_id dna_address agent_id)

abbrev pub SenderInfo : Type 0
SenderInfo = Option (String × Option String)

unfoldable pub fail_message : String → String × Option String → JsonProtocol
fail_message dna_address (sender_agent_id, sender_request_id) =
    JsonProtocol.failure_result (record {
      dna_address = dna_address;
      request_id = unwrap_or "" sender_request_id;
      to_agent_id = sender_agent_id;
      error_info = "\"DNA not tracked by agent\"";
    })

-- What `priv_check_or_fail` does where the agent does not track the DNA
unfoldable pub report_untracked : String → SenderInfo → M Bool
unfolding fail_message priv_send_one
report_untracked dna_address none = fail not_tracked
report_untracked dna_address (some info) =
    priv_send_one dna_address info.0 (fail_message dna_address info) >> pure false

unfoldable pub priv_check_or_fail : String → String → SenderInfo → M Bool
unfolding is_tracking report_untracked
priv_check_or_fail dna_address agent_id maybe_sender_info s =
    if is_tracking s dna_address agent_id
    then pure true s
    else report_untracked dna_address maybe_sender_info s

-- One of the four requests of `priv_request_all_lists`
unfoldable pub request_list : (GetListData → JsonProtocol) → String → String → M (Unit {0})
unfolding priv_create_request priv_send_one
request_list message dna_address agent_id = do
  request_id ← priv_create_request dna_address agent_id
  expect (
      priv_send_one dna_address agent_id
        (message (record { dna_address = dna_address; request_id = request_id })))

unfoldable pub priv_request_all_lists : String → String → M (Unit {0})
unfolding request_list
priv_request_all_lists dna_address agent_id = do
  request_list JsonProtocol.handle_get_publishing_entry_list dna_address agent_id
  request_list JsonProtocol.handle_get_holding_entry_list dna_address agent_id
  request_list JsonProtocol.handle_get_publishing_meta_list dna_address agent_id
  request_list JsonProtocol.handle_get_holding_meta_list dna_address agent_id
