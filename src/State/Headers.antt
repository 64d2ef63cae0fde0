-- ===== src/State/Headers.antt =====
-- `State::get_headers` of core/src/state.rs: the headers of an entry, from the agent's own chain and
-- from its shard of the DHT. `none` is a panic of the iteration of the chain, or that its
-- fuel ran out.
use holochain_rust.Prelude.{
  ◌==◌, keep, any, ok, and_then, ℕ, String, Bool, not, Option, some, List, ◌++◌, map, unless_panic,
  string_eq,
}
use holochain_rust.State.{State}
use holochain_rust.Cas.{fetch}
use holochain_rust.Dht.Headers.{present, header_query, collect_results}
use holochain_rust.Chain.Store.{iter}
use holochain_rust.Eav.Storage.{fetch_eavi}
use holochain_rust.Dht.{DhtStorages}
use holochain_rust.CoreTypes.Entry.{Codec, header_address}
use holochain_rust.CoreTypes.Header.{ChainHeader}
use holochain_rust.CoreTypes.Errors.{HcResult}

-- `header_addresses.contains(a)`
abbrev pub is_address_of : Codec → List ChainHeader → String → Bool
is_address_of c headers a = any (λ h. header_address c h == a) headers

-- The headers of the shard that are not in the agent's own chain
unfoldable pub other_headers :
    Codec → DhtStorages → List ChainHeader → String → HcResult (List ChainHeader)
unfolding fetch fetch_eavi header_address
other_headers c s headers address =
    and_then (fetch_eavi s.meta_storage (header_query address)) λ found.
      and_then
        (collect_results (fetch s.content_storage)
          (keep (λ a. not (is_address_of c headers a)) (map (λ e. e.value) found)))
        λ contents. collect_results c.header_of_content (present contents)

abbrev pub with_others :
    List ChainHeader → HcResult (List ChainHeader) → HcResult (List ChainHeader)
with_others headers others = and_then others λ dht_headers. ok (headers ++ dht_headers)

unfoldable pub get_headers : Codec → ℕ → State → String → Option (HcResult (List ChainHeader))
unfolding iter other_headers
get_headers c fuel s address =
    unless_panic (iter c fuel s.dht.storages.content_storage s.agent.top_chain_header) λ chain.
      let headers = keep (λ h. h.entry_address == address) chain in
      some (with_others headers (other_headers c s.dht.storages headers address))
