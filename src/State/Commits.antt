-- ===== src/State/Commits.antt =====
-- A commit through all slices.
use holochain_rust.Dht.Reduce.{reduce_commit_entry as store_committed}
use holochain_rust.Prelude.{
  length, head?, All, Member, ok, ℕ, suc, ◌+◌, ◌^◌, ◌<◌, String, ◌≡◌, refl, ◌≢◌, ◌↔◌, ◌⊎◌, false,
  Option, some, List, ◌∷◌, arith, eq_iff, string_eq, nat_eq,
}
use holochain_rust.Cas.{MemoryStorage, fetch, fetch-add, add}
use holochain_rust.Chain.Agent.Commit.{add-Chain, header_of_commit, reduce_commit-Chain}
use holochain_rust.CoreTypes.Entry.{Entry, entry_address, header_address}
use holochain_rust.State.{State, StateEnvironment, reduce, remember}
use holochain_rust.Dht.Reduce.{reduce as reduce_dht}
use holochain_rust.Network.Reduce.{reduce as reduce_network}
use holochain_rust.Nucleus.{reduce as reduce_nucleus}
use holochain_rust.Chain.Store.Iteration.{Chain}
use holochain_rust.CoreTypes.Header.{Provenance, ChainHeader}
use holochain_rust.Dht.Holds.{live_item, store_lem}
use holochain_rust.Eav.Storage.Append.{Placed, add_eavi_lem}
use holochain_rust.Dht.{DhtStorages}
use holochain_rust.Actions.{ActionWrapper, Action}
use holochain_rust.Eav.Eavi.{Eavi}
use holochain_rust.Eav.Sorted.{IsSorted}

fetched-unlocked :
    (st : MemoryStorage) (a : String) (o : Option String) → fetch st a ≡ ok o → st.poisoned ≡ false
unfolding fetch
fetched-unlocked st a o h = ground arith

-- A commit through all slices. Let the chain be stored, its newest header be the top one, the fuel
-- be one step more than its length, the conductor sign, the locks be intact, and the items of the
-- shard be in order with indices left. Let the new header be read back from its content, and let
-- its address and that of the entry differ from each other and from those of the headers of the
-- chain. Then the commit succeeds: the chain with the new header before it is stored and the new
-- header is the top one; the store has the content of the entry; the shard has exactly one more
-- item, which says that the entry is live; the nucleus and the network state are as they were, and
-- the action is in the history.
pub commit_lem :
    (e : StateEnvironment) (fuel : ℕ) (s : State) (id : ℕ) (entry : Entry)
    (update_delete : Option String) (provenances : List Provenance) (hs : List ChainHeader)
    (signature : String) (h : ChainHeader)
    → Chain e.dht.codec s.dht.storages.content_storage hs
    → length hs < fuel
    → s.agent.top_chain_header ≡ head? hs
    → e.agent.sign (entry_address e.dht.codec entry) ≡ ok signature
    → s.dht.storages.content_storage.poisoned ≡ false
    → h ≡ header_of_commit e.dht.codec e.agent s.agent hs entry update_delete provenances signature
    → e.dht.codec.header_of_content (e.dht.codec.header_content h) ≡ ok h
    → All (λ g. header_address e.dht.codec g ≢ entry_address e.dht.codec entry) (h ∷ hs)
    → All (λ g. header_address e.dht.codec g ≢ header_address e.dht.codec h) hs
    → s.dht.storages.meta_storage.poisoned ≡ false
    → IsSorted s.dht.storages.meta_storage.storage
    → e.dht.now + suc (length s.dht.storages.meta_storage.storage) < 2 ^ 64
    → (t : State) × (x : Eavi) × (reduce e fuel s
          (record { action = Action.commit entry update_delete provenances; id = id })
        ≡ some t)
      × Chain e.dht.codec t.dht.storages.content_storage (h ∷ hs)
      × (t.agent.top_chain_header ≡ some h)
      × (fetch t.dht.storages.content_storage (entry_address e.dht.codec entry)
          ≡ ok (some (e.dht.codec.entry_content entry)))
      × Placed (live_item e.dht entry) s.dht.storages.meta_storage.storage x
      × ((z : Eavi)
          → Member z t.dht.storages.meta_storage.storage
            ↔ (Member z s.dht.storages.meta_storage.storage ⊎ (z ≡ x)))
      × (t.nucleus ≡ s.nucleus)
      × (t.network ≡ s.network)
      × (t.history
          ≡ remember s.history
              (record { action = Action.commit entry update_delete provenances; id = id }))
unfolding reduce reduce_dht store_committed reduce_network reduce_nucleus
commit_lem e fuel s id entry update_delete provenances hs signature h ch l top signed p built
      readable apart fresh q sorted room =
    let c = e.dht.codec in
    let st = s.dht.storages in
    let ea = entry_address c entry in
    let w : ActionWrapper = record {
      action = Action.commit entry update_delete provenances;
      id = id;
    } in
    let (agent, content, run, chained, newest, answered, held) =
      reduce_commit-Chain c e.agent fuel st.content_storage s.agent id entry update_delete
        provenances hs signature h ch l top signed p built readable apart fresh in
    let p' = fetched-unlocked content ea (some (c.entry_content entry)) held in
    let (x, m, added, placed, sorted_m, q_m, members) =
      add_eavi_lem st.meta_storage (live_item e.dht entry) q sorted room in
    let mid : DhtStorages = record { content_storage = content; meta_storage = st.meta_storage } in
    let stored = store_lem e.dht mid entry (some x) m p' added in
    (
      record {
        nucleus = s.nucleus;
        agent = agent;
        dht = record s.dht {
          storages = record {
            content_storage = (add content ea (c.entry_content entry)).1;
            meta_storage = m;
          };
        };
        network = s.network;
        history = remember s.history w;
      },
      x,
      rw run (rw stored refl),
      add-Chain c content ea (c.entry_content entry) (h ∷ hs) p' apart chained,
      newest,
      ground (arith, (fetch-add content ea ea (c.entry_content entry) p').1, eq_iff ea ea),
      placed,
      members,
      refl,
      refl,
      refl,
    )
