-- ===== src/Net/Server/Frames.antt =====
-- The sends and the requests extend the state.
use holochain_rust.Prelude.HashMap
use holochain_rust.Prelude.{
  if◌then◌else◌, Bool-cases, Map, ℕ, String, ◌≡◌, refl, sym, inl, inr, Bool, true, false, Option,
  none, some, [], ◌∷◌, ◌++◌, append-nil, string_eq,
}
use holochain_rust.Net.Server.Extends.{
  Keeps, bind-Keeps, expect-Keeps, Extends, Extends-refl, then-Keeps,
}
use holochain_rust.Net.Server.State.{
  send, pure, Outcome, InMemoryServer, no_sender_channel, fail, expect,
}
use holochain_rust.Net.Server.Sends.{
  priv_send_all, priv_send_one_with_cell_id, is_tracking, priv_check_or_fail, request_list,
  priv_send_one, priv_request_all_lists, fail_message, SenderInfo, report_untracked, send_each,
}
use holochain_rust.Net.Server.Cells.{
  priv_create_request, priv_create_request_with_cell_id, priv_generate_request_id,
}
use holochain_rust.Net.Book.{into_cell_id}
use holochain_rust.Net.Protocol.{GetListData, JsonProtocol}

pub if-Extends :
    {A : Type 0} (s : InMemoryServer) (b : Bool) (x y : Outcome A × InMemoryServer)
    → Extends s x.1
    → Extends s y.1
    → Extends s (if b then x else y).1
if-Extends s true x y ex ey = ex
if-Extends s false x y ex ey = ey

pub option-Extends :
    {X : Type 0} {A : Type 0} (s : InMemoryServer) (o : Option X) (x : Outcome A × InMemoryServer)
    (f : X → Outcome A × InMemoryServer)
    → Extends s x.1
    → ((v : X) → Extends s (f v).1)
    → (let r : Outcome A × InMemoryServer = elim o [ none ↦ x | some v ↦ f v ] in Extends s r.1)
option-Extends s none x f ex ef = ex
option-Extends s (some v) x f ex ef = ef v

push_sent-Extends :
    (s : InMemoryServer) (channel : ℕ) (msg : JsonProtocol)
    → s.is_open channel ≡ true
    → Extends s (record s { sent = s.sent ++ (channel, msg) ∷ [] })
push_sent-Extends s channel msg opened = record {
  same_senders = refl;
  same_senders_by_dna = refl;
  same_client_count = refl;
  same_channels = refl;
  only_sends = ((channel, msg) ∷ [], refl, (opened, tt));
  published = λ cell base d has. has;
  stored = λ cell base d has. has;
}

pub send-Keeps : (channel : ℕ) (msg : JsonProtocol) → Keeps (send channel msg)
unfolding send
send-Keeps channel msg s = elim (Bool-cases (s.is_open channel)) [
  | inl opened ↦ rw opened (push_sent-Extends s channel msg opened)
  | inr closed ↦ rw closed (Extends-refl s)
]

pub priv_send_one_with_cell_id-Keeps :
    (cell_id : String) (msg : JsonProtocol) → Keeps (priv_send_one_with_cell_id cell_id msg)
unfolding priv_send_one_with_cell_id
priv_send_one_with_cell_id-Keeps cell_id msg s =
    option-Extends s (HashMap.get s.senders cell_id) (fail (no_sender_channel s.name cell_id) s)
      (λ channel. send channel msg s) (Extends-refl s) (λ channel. send-Keeps channel msg s)

pub priv_send_one-Keeps :
    (dna agent : String) (msg : JsonProtocol) → Keeps (priv_send_one dna agent msg)
unfolding priv_send_one
priv_send_one-Keeps dna agent msg = priv_send_one_with_cell_id-Keeps (into_cell_id dna agent) msg

send_each-Keeps : (agents : Map String ℕ) (msg : JsonProtocol) → Keeps (send_each agents msg)
unfolding send_each
send_each-Keeps [] msg = Extends-refl
send_each-Keeps ((agent, channel) ∷ rest) msg =
    then-Keeps (send channel msg) (send_each rest msg) (send-Keeps channel msg)
      (send_each-Keeps rest msg)

pub priv_send_all-Keeps : (dna : String) (msg : JsonProtocol) → Keeps (priv_send_all dna msg)
unfolding priv_send_all
priv_send_all-Keeps dna msg s =
    option-Extends s (HashMap.get s.senders_by_dna dna) (pure tt s) (λ arr. send_each arr msg s)
      (Extends-refl s) (λ arr. send_each-Keeps arr msg s)

report_untracked-Keeps : (dna : String) (info : SenderInfo) → Keeps (report_untracked dna info)
unfolding report_untracked
report_untracked-Keeps dna none = Extends-refl
report_untracked-Keeps dna (some info) =
    then-Keeps (priv_send_one dna info.0 (fail_message dna info)) (pure false)
      (priv_send_one-Keeps dna info.0 (fail_message dna info)) Extends-refl

pub priv_check_or_fail-Keeps :
    (dna agent : String) (info : SenderInfo) → Keeps (priv_check_or_fail dna agent info)
unfolding priv_check_or_fail
priv_check_or_fail-Keeps dna agent info s =
    if-Extends s (is_tracking s dna agent) (pure true s) (report_untracked dna info s)
      (Extends-refl s) (report_untracked-Keeps dna info s)

pub priv_create_request_with_cell_id-Keeps :
    (cell_id : String) → Keeps (priv_create_request_with_cell_id cell_id)
unfolding priv_create_request_with_cell_id priv_generate_request_id
priv_create_request_with_cell_id-Keeps cell_id s = record {
  same_senders = refl;
  same_senders_by_dna = refl;
  same_client_count = refl;
  same_channels = refl;
  only_sends = ([], sym (append-nil s.sent), tt);
  published = λ cell base d has. has;
  stored = λ cell base d has. has;
}

request_list-Keeps :
    (message : GetListData → JsonProtocol) (dna agent : String)
    → Keeps (request_list message dna agent)
unfolding request_list priv_create_request
request_list-Keeps message dna agent =
    bind-Keeps (priv_create_request_with_cell_id (into_cell_id dna agent))
      (λ request_id.
        expect (
          priv_send_one dna agent
            (message (record { dna_address = dna; request_id = request_id }))))
      (priv_create_request_with_cell_id-Keeps (into_cell_id dna agent))
      (λ request_id.
        expect-Keeps
          (priv_send_one dna agent
            (message (record { dna_address = dna; request_id = request_id })))
          (priv_send_one-Keeps dna agent
            (message (record { dna_address = dna; request_id = request_id }))))

pub priv_request_all_lists-Keeps : (dna agent : String) → Keeps (priv_request_all_lists dna agent)
unfolding priv_request_all_lists
priv_request_all_lists-Keeps dna agent =
    then-Keeps (request_list JsonProtocol.handle_get_publishing_entry_list dna agent) _
      (request_list-Keeps JsonProtocol.handle_get_publishing_entry_list dna agent)
      (then-Keeps (request_list JsonProtocol.handle_get_holding_entry_list dna agent) _
        (request_list-Keeps JsonProtocol.handle_get_holding_entry_list dna agent)
        (then-Keeps (request_list JsonProtocol.handle_get_publishing_meta_list dna agent) _
          (request_list-Keeps JsonProtocol.handle_get_publishing_meta_list dna agent)
          (request_list-Keeps JsonProtocol.handle_get_holding_meta_list dna agent)))
