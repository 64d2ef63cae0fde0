-- ===== src/State/Restarts.antt =====
-- An instance that is built again from its snapshots.
use holochain_rust.CoreTypes.EntryType.{entry_type_eq, EntryType}
use holochain_rust.Cas.{fetch}
use holochain_rust.Prelude.{
  ◌==◌, length, keep, last?, head?, ok, ℕ, ◌<◌, String, ◌≡◌, refl, some, List, [], string_eq,
  nat_eq,
}
use holochain_rust.State.{
  State, dna_of_header, get_dna, new_with_agent_and_nucleus, agent_snapshot, try_from_snapshots,
  fetch,
}
use holochain_rust.Chain.Store.Iteration.{iter_type_lem, Chain}
use holochain_rust.CoreTypes.Entry.{Codec, Entry}
use holochain_rust.Nucleus.{to_snapshot, from_snapshot}
use holochain_rust.Chain.Store.{iter_type}
use holochain_rust.CoreTypes.EntryType.{EntryType}
use holochain_rust.CoreTypes.Header.{ChainHeader}
use holochain_rust.Chain.Agent.{new_with_top_chain_header}
use holochain_rust.Network.{new_network_state}

-- Let the chain of an instance be stored, its newest header be the top one, and the fuel be one step
-- more than its length, and let the oldest header of a DNA lead to the content of a DNA. Then the
-- instance can be built again from its snapshots: it has that DNA, the same top header, status and
-- pending validations, and the same storages.
pub restarted_lem :
    (c : Codec) (fuel : ℕ) (s : State) (hs : List ChainHeader) (h : ChainHeader)
    (agent_address content d : String)
    → Chain c s.dht.storages.content_storage hs
    → length hs < fuel
    → s.agent.top_chain_header ≡ head? hs
    → last? (keep (λ g. g.entry_type == EntryType.dna) hs) ≡ some h
    → fetch s.dht.storages.content_storage h.entry_address ≡ ok (some content)
    → c.entry_of_content content ≡ ok (Entry.dna d)
    → (t : State) × (try_from_snapshots c fuel s.dht.storages agent_address
          (agent_snapshot s)
          (to_snapshot s.nucleus)
        ≡ some t)
      × (t.nucleus.dna ≡ some d)
      × (t.agent.top_chain_header ≡ s.agent.top_chain_header)
      × (t.nucleus.status ≡ s.nucleus.status)
      × (t.nucleus.pending_validations ≡ s.nucleus.pending_validations)
      × (t.dht.storages ≡ s.dht.storages)
unfolding try_from_snapshots new_with_agent_and_nucleus get_dna dna_of_header agent_snapshot
    to_snapshot from_snapshot new_with_top_chain_header
restarted_lem c fuel s hs h agent_address content d ch l top oldest stored readable =
    let found : iter_type c fuel s.dht.storages.content_storage s.agent.top_chain_header
          EntryType.dna
        ≡ some (keep (λ g. g.entry_type == EntryType.dna) hs) =
      rw top (iter_type_lem c fuel s.dht.storages.content_storage EntryType.dna hs ch l) in
    (
      record {
        nucleus = record (from_snapshot (to_snapshot s.nucleus)) { dna = some d };
        agent = new_with_top_chain_header s.agent.top_chain_header agent_address;
        dht = record { storages = s.dht.storages; actions = [] };
        network = new_network_state;
        history = [];
      },
      rw found (rw oldest (rw stored (rw readable refl))),
      refl,
      refl,
      refl,
      refl,
      refl,
    )
