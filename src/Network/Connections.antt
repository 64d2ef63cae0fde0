-- ===== src/Network/Connections.antt =====
-- The open direct messages and their replies.
use holochain_rust.Prelude.{
  if◌then◌else◌, ◌==◌, Result, map_err, ℕ, String, ◌≡◌, refl, sym, ◌∙◌, false, Option, none, some,
  arith, string_eq, nat_eq,
}
use holochain_rust.Prelude.HashMap
use holochain_rust.Network.Published.{online}
use holochain_rust.Network.{send, initialized, NetworkEnvironment, NetworkState, P2pNetwork, taken}
use holochain_rust.Network.Reduce.{reduce}
use holochain_rust.Net.Protocol.{JsonProtocol}
use holochain_rust.Network.Messages.{
  reduce_send_direct_message, direct_message_data, reduce_resolve_direct_connection,
  reduce_send_direct_message_timeout, send_direct_message_inner, open_connection,
  reduce_handle_custom_send_response,
}
use holochain_rust.Cas.{MemoryStorage}
use holochain_rust.Actions.{DirectMessageData, Action}
use holochain_rust.CoreTypes.Header.{ChainHeader}
use holochain_rust.CoreTypes.Errors.{error_generic, HcResult}

send-connections :
    (e : NetworkEnvironment) (s : NetworkState) (m : JsonProtocol)
    → (send e s m).1.direct_message_connections ≡ s.direct_message_connections
unfolding send taken
send-connections e s m = ground arith

-- Where the identities of the instance are known, a direct message that asks for an answer opens a
-- connection, also where the message is not taken; resolving the connection then leaves the others
-- as they were, and none with its id.
pub resolve-send_direct_message :
    (e e' : NetworkEnvironment) (fuel fuel' id id' : ℕ) (st st' : MemoryStorage)
    (top top' : Option ChainHeader) (s : NetworkState) (n : P2pNetwork) (dna agent : String)
    (d : DirectMessageData) (msg_id : String)
    → d.is_response ≡ false
    → (t : NetworkState) × (u : NetworkState) × (reduce e fuel st top
          (online s n dna agent)
          (record { action = Action.send_direct_message d; id = id })
        ≡ some t)
      × (HashMap.get t.direct_message_connections d.msg_id ≡ some d.message)
      × (reduce e' fuel' st' top' t
            (record { action = Action.resolve_direct_connection d.msg_id; id = id' })
          ≡ some u)
      × (HashMap.get u.direct_message_connections msg_id
          ≡ (if d.msg_id == msg_id then none else HashMap.get s.direct_message_connections msg_id))
unfolding reduce reduce_send_direct_message send_direct_message_inner initialized
    reduce_resolve_direct_connection
resolve-send_direct_message e e' fuel fuel' id id' st st' top top' s n dna agent d msg_id asks =
    let o = online s n dna agent in
    let m = JsonProtocol.send_message (direct_message_data e d dna agent) in
    let t : NetworkState = (send e (open_connection o d) m).1 in
    let kept = send-connections e (open_connection o d) m in
    (
      t,
      reduce_resolve_direct_connection t d.msg_id,
      rw asks refl,
      rw kept (HashMap.get-insert_self s.direct_message_connections d.msg_id d.message),
      refl,
      ground (
        arith,
        kept,
        HashMap.get-remove t.direct_message_connections d.msg_id msg_id,
        HashMap.get-insert s.direct_message_connections d.msg_id msg_id d.message,
      ),
    )

-- A timeout of a direct message counts only while there is no reply, and a reply is kept whenever
-- it comes.
pub reply-timeout :
    (e e' : NetworkEnvironment) (fuel fuel' id id' : ℕ) (st st' : MemoryStorage)
    (top top' : Option ChainHeader) (s : NetworkState) (msg_id : String)
    (response : Result String String)
    → (t : NetworkState) × (u : NetworkState) × (v : NetworkState) × (reduce e fuel st top s
          (record { action = Action.handle_custom_send_response msg_id response; id = id })
        ≡ some t)
      × (reduce e' fuel' st' top' t
            (record { action = Action.send_direct_message_timeout msg_id; id = id' })
          ≡ some t)
      × (reduce e' fuel' st' top' s
            (record { action = Action.send_direct_message_timeout msg_id; id = id' })
          ≡ some u)
      × (reduce e fuel st top u
            (record { action = Action.handle_custom_send_response msg_id response; id = id })
          ≡ some v)
      × (HashMap.get t.custom_direct_message_replys msg_id
          ≡ HashMap.get v.custom_direct_message_replys msg_id)
unfolding reduce reduce_handle_custom_send_response reduce_send_direct_message_timeout
reply-timeout e e' fuel fuel' id id' st st' top top' s msg_id response =
    let u : NetworkState = reduce_send_direct_message_timeout s msg_id in
    let r : HcResult String = map_err error_generic response in
    let first = HashMap.get-insert_self s.custom_direct_message_replys msg_id r in
    let second = HashMap.get-insert_self u.custom_direct_message_replys msg_id r in
    (
      reduce_handle_custom_send_response s msg_id response,
      u,
      reduce_handle_custom_send_response u msg_id response,
      refl,
      rw first refl,
      refl,
      refl,
      first ∙ sym second,
    )
