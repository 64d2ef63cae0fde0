-- ===== src/Examples/Instance.antt =====
-- Runs of the shard and of the whole state: an entry that is held, a commit and a restart.
use holochain_rust.Prelude.HashMap
use holochain_rust.Prelude.{
  if◌then◌else◌, ◌==◌, length, keep, last?, Member, here, there, ok, err, String, ◌≡◌, refl, ◌≢◌,
  ◌↔◌, ◌⊎◌, false, none, some, List, [], ◌∷◌, arith, eq_iff, string_eq, nat_eq,
}
use holochain_rust.Cas.{fetch}
use holochain_rust.State.Headers.{get_headers, other_headers}
use holochain_rust.Chain.Store.{iter}
use holochain_rust.Dht.Reduce.{reduce, DhtStore, DhtEnvironment}
use holochain_rust.Examples.Shard.{shard_codec, no_match, linked}
use holochain_rust.Examples.Requests.{transport}
use holochain_rust.Examples.Nucleus.{ready}
use holochain_rust.Examples.Storage.{
  signer, agent, page, older, page_header_built, dna_apart, page_apart, dna_fresh, older-Chain,
  page_header, dna_store, page_codec,
}
use holochain_rust.State.{
  State, reduce as reduce_state, agent_snapshot, try_from_snapshots, StateEnvironment, remember,
}
use holochain_rust.CoreTypes.EntryType.{entry_type_eq, EntryType, type_beq}
use holochain_rust.Examples.Nucleus.{held_header}
use holochain_rust.CoreTypes.Entry.{Entry, header_address, entry_address, Codec}
use holochain_rust.Dht.Entries.Final.{remove_final, after}
use holochain_rust.Examples.Shard.{shard, removed_shard, page-removed}
use holochain_rust.CoreTypes.Errors.{HolochainError}
use holochain_rust.Dht.Entries.{reduce_remove_entry_inner}
use holochain_rust.Dht.Lookup.{get_entry_with_meta}
use holochain_rust.Dht.Lookup.Found.{hold-get_entry_with_meta}
use holochain_rust.Eav.CrudStatus.{live}
use holochain_rust.Dht.Holds.{hold_lem, live_item, header_item}
use holochain_rust.Actions.{ActionWrapper, EntryWithHeader, Action}
use holochain_rust.Dht.Grows.{reduce-Holds, Holds}
use holochain_rust.Dht.{DhtStorages}
use holochain_rust.Eav.Eavi.{Eavi}
use holochain_rust.Eav.Storage.Append.{Placed}
use holochain_rust.State.Commits.{commit_lem}
use holochain_rust.State.Restarts.{restarted_lem}
use holochain_rust.Nucleus.{to_snapshot}
use holochain_rust.Chain.Store.Iteration.{Chain}
use holochain_rust.Network.{new_network_state}
use holochain_rust.Eav.Storage.{fetch_eavi}
use holochain_rust.Eav.Sorted.{IsSorted}
use holochain_rust.Eav.Attribute.{Attribute}

abbrev shard_environment : DhtEnvironment
shard_environment = record {
  codec = shard_codec;
  now = 5;
  later = 6;
  is_match = no_match;
  debug = λ e. "error";
}

abbrev linked_store : DhtStore
linked_store = record {
  storages = record {
    content_storage = record { storage = ("page", "page") ∷ []; poisoned = false };
    meta_storage = record { storage = linked ∷ []; poisoned = false };
  };
  actions = [];
}

abbrev removal : ActionWrapper
removal = record { action = Action.remove_entry "page" "deletion"; id = 1 }

linked-Holds : Holds "page" linked false false linked_store.storages
unfolding HashMap.contains_key HashMap.get
linked-Holds = record {
  known = refl;
  content_locked = refl;
  item = here;
  sorted = (tt, tt);
  meta_locked = refl;
}

reduce-Holds_example :
    Holds "page" linked false false (reduce shard_environment linked_store removal).storages
reduce-Holds_example =
    reduce-Holds shard_environment linked_store removal "page" linked false false linked-Holds

abbrev held_page : EntryWithHeader
held_page = record { entry = Entry.app "pages" "text"; header = held_header }

hold_lem_example :
    (t : DhtStorages) × (x : Eavi) × (y : Eavi) × (with_live : List Eavi) × (reduce
        shard_environment linked_store
        (record { action = Action.hold held_page; id = 2 })
      ≡ record linked_store { storages = t })
    × ((a : String)
        → fetch t.content_storage a ≡ (
            if header_address shard_codec held_header == a
            then ok (some "header")
            else if entry_address shard_codec (Entry.app "pages" "text") == a
            then ok (some "page")
            else fetch linked_store.storages.content_storage a))
    × Placed (live_item shard_environment (Entry.app "pages" "text")) (linked ∷ []) x
    × ((z : Eavi) → Member z with_live ↔ (Member z (linked ∷ []) ⊎ (z ≡ x)))
    × Placed (header_item shard_environment held_page) with_live y
    × ((z : Eavi) → Member z t.meta_storage.storage ↔ (Member z with_live ⊎ (z ≡ y)))
    × (t.meta_storage.poisoned ≡ false)
    × IsSorted t.meta_storage.storage
    × (length t.meta_storage.storage ≡ 3)
hold_lem_example =
    hold_lem shard_environment linked_store held_page 2 refl refl (tt, tt) (omega arith)
      (omega arith)

linked_only-live :
    (z : Eavi)
    → Member z (linked ∷ [])
    → z.entity ≡ "page"
    → z.attribute ≡ Attribute.crud_status
    → z.value ≡ "live"
linked_only-live z here of is = cc
linked_only-live z (there m) of is = elim m [ ]

linked_only-unlinked :
    (z : Eavi) → Member z (linked ∷ []) → z.entity ≡ "page" → z.attribute ≢ Attribute.crud_link
linked_only-unlinked z here of is = cc
linked_only-unlinked z (there m) of is = elim m [ ]

header_apart :
    header_address shard_codec held_header ≢ entry_address shard_codec (Entry.app "pages" "text")
unfolding header_address entry_address
header_apart q = ground (arith, q, eq_iff "header" "page")

hold-get_entry_with_meta_example :
    get_entry_with_meta shard_codec
      (reduce shard_environment linked_store
        (record { action = Action.hold held_page; id = 2 })).storages
      (entry_address shard_codec (Entry.app "pages" "text"))
    ≡ some (
        ok (
          some (record {
            entry = Entry.app "pages" "text";
            crud_status = live;
            maybe_link_update_delete = none;
          })))
unfolding entry_address
hold-get_entry_with_meta_example =
    hold-get_entry_with_meta shard_environment linked_store held_page 2 refl refl (tt, tt)
      (omega arith) (omega arith) refl header_apart linked_only-live linked_only-unlinked

-- The shard after the removal of the page, and a run that holds the page again
abbrev removed_store : DhtStore
removed_store = record { storages = removed_shard; actions = [] }

abbrev held_again : List (DhtEnvironment × ActionWrapper)
held_again =
    (shard_environment, record { action = Action.hold held_page; id = 2 })
    ∷ (shard_environment, record { action = Action.update_entry "page" "newer"; id = 3 })
    ∷ []

remove_final_example :
    (e : HolochainError) × (reduce_remove_entry_inner shard_codec no_match 7 8
        (after held_again removed_store).storages
        "page"
        "other"
      ≡ (err e, (after held_again removed_store).storages))
remove_final_example =
    remove_final shard_codec shard_codec no_match no_match 5 6 7 8 shard removed_store held_again
      "page" "deletion" "other" "page" refl tt (omega arith) page-removed

abbrev page_environment : StateEnvironment
page_environment = record {
  agent = signer;
  dht = record shard_environment { codec = page_codec };
  network = transport;
}

abbrev young : State
young = record {
  nucleus = ready;
  agent = agent;
  dht = record {
    storages = record {
      content_storage = dna_store;
      meta_storage = record { storage = []; poisoned = false };
    };
    actions = [];
  };
  network = new_network_state;
  history = [];
}

abbrev page_commit : ActionWrapper
page_commit = record { action = Action.commit page none []; id = 7 }

commit_lem_example :
    (t : State) × (x : Eavi) × (reduce_state page_environment 2 young page_commit ≡ some t)
    × Chain page_codec t.dht.storages.content_storage (page_header ∷ older ∷ [])
    × (t.agent.top_chain_header ≡ some page_header)
    × (fetch t.dht.storages.content_storage (entry_address page_codec page) ≡ ok (some "entry"))
    × Placed (live_item page_environment.dht page) [] x
    × ((z : Eavi) → Member z t.dht.storages.meta_storage.storage ↔ (Member z [] ⊎ (z ≡ x)))
    × (t.nucleus ≡ young.nucleus)
    × (t.network ≡ young.network)
    × (t.history ≡ remember young.history page_commit)
commit_lem_example =
    commit_lem page_environment 2 young 7 page none [] (older ∷ []) "signature" page_header
      older-Chain (omega arith) refl refl refl page_header_built refl (page_apart, (dna_apart, tt))
      (dna_fresh, tt) refl tt (omega arith)

abbrev dna_codec : Codec
dna_codec = record page_codec { entry_of_content = λ s. ok (Entry.dna s) }

dna-Chain : Chain dna_codec dna_store (older ∷ [])
unfolding fetch header_address HashMap.get
dna-Chain = (record { at_address = refl; readable = refl }, refl, refl, tt)

oldest_dna : last? (keep (λ g. g.entry_type == EntryType.dna) (older ∷ [])) ≡ some older
unfolding type_beq
oldest_dna = refl

dna_stored : fetch dna_store "dna" ≡ ok (some "dna")
unfolding fetch HashMap.get
dna_stored = refl

restarted_lem_example :
    (t : State) × (try_from_snapshots dna_codec 2 young.dht.storages "alice"
        (agent_snapshot young)
        (to_snapshot young.nucleus)
      ≡ some t)
    × (t.nucleus.dna ≡ some "dna")
    × (t.agent.top_chain_header ≡ young.agent.top_chain_header)
    × (t.nucleus.status ≡ young.nucleus.status)
    × (t.nucleus.pending_validations ≡ young.nucleus.pending_validations)
    × (t.dht.storages ≡ young.dht.storages)
restarted_lem_example =
    restarted_lem dna_codec 2 young (older ∷ []) older "alice" "dna" "dna" dna-Chain (omega arith)
      refl oldest_dna dna_stored refl

young-get_headers : get_headers page_codec 2 young older.entry_address ≡ some (ok (older ∷ []))
unfolding get_headers iter other_headers fetch fetch_eavi HashMap.get
young-get_headers = refl
