-- ===== src/Examples/Storage.antt =====
-- Runs of the content store and of a chain of two headers.
use holochain_rust.Prelude.HashMap
use holochain_rust.Actions.{Action}
use holochain_rust.Chain.Query.{query, GlobSetBuilder, ChainStoreQueryOptions}
use holochain_rust.Chain.Query.Answers.{query_lem, Asks, answer}
use holochain_rust.WasmMemory.Codes.{RibosomeErrorCode}
use holochain_rust.Chain.Agent.{reduce, Environment, AgentState, build_header, ActionResponse}
use holochain_rust.CoreTypes.Entry.{Entry, entry_address, entry_type}
use holochain_rust.CoreTypes.EntryType.{entry_type_eq, type_beq, EntryType}
use holochain_rust.Prelude.{
  if◌then◌else◌, ◌==◌, keep, Result, ok, err, String, ◌≡◌, refl, ◌≢◌, Bool, false, none, some, List,
  [], ◌∷◌, arith, string_eq, nat_eq,
}
use holochain_rust.Cas.{MemoryStorage, fetch}
use holochain_rust.Chain.Store.Iteration.{iter_type_lem, iter_lem, Chain}
use holochain_rust.CoreTypes.EntryType.{EntryType}
use holochain_rust.Chain.Store.{iter_type, iter}
use holochain_rust.CoreTypes.Errors.{error_generic}
use holochain_rust.CoreTypes.Entry.{header_address, Codec}
use holochain_rust.CoreTypes.Header.{ChainHeader}
use holochain_rust.Chain.Agent.Commit.{header_of_commit, reduce_commit-Chain}
use holochain_rust.Chain.Agent.Failure.{reduce_commit_failed, FailedWith}

abbrev empty_store : MemoryStorage
empty_store = record { storage = []; poisoned = false }

abbrev other : String
other = "a"

abbrev pub older : ChainHeader
older = record {
  entry_type = EntryType.dna;
  entry_address = "dna";
  provenances = [];
  link = none;
  link_same_type = none;
  link_update_delete = none;
  timestamp = 1;
}

abbrev newer : ChainHeader
newer = record {
  entry_type = EntryType.agent_id;
  entry_address = "agent";
  provenances = [];
  link = some "dna";
  link_same_type = none;
  link_update_delete = none;
  timestamp = 2;
}

-- A coding that tells the headers of this file apart by their entry.
abbrev codec : Codec
codec = record {
  encode_from_str = λ s. s;
  entry_content = λ e. "entry";
  entry_of_content = λ s. err (error_generic s);
  header_content = λ h. h.entry_address;
  header_of_content = λ s. if s == "dna" then ok older else ok newer;
}

abbrev chain_store : MemoryStorage
chain_store = record { storage = ("agent", "agent") ∷ ("dna", "dna") ∷ []; poisoned = false }

abbrev headers : List ChainHeader
headers = newer ∷ older ∷ []

headers-Chain : Chain codec chain_store headers
unfolding fetch header_address HashMap.get type_beq
headers-Chain =
    ((
      record { at_address = refl; readable = refl },
      refl,
      refl,
      ((record { at_address = refl; readable = refl }, refl, refl, tt)),
    ))

iter_lem_example : iter codec 3 chain_store (some newer) ≡ some headers
iter_lem_example = iter_lem codec 3 chain_store headers headers-Chain (omega arith)

iter_type_lem_example :
    iter_type codec 3 chain_store (some newer) EntryType.dna
    ≡ some (keep (λ g. g.entry_type == EntryType.dna) headers)
iter_type_lem_example =
    iter_type_lem codec 3 chain_store EntryType.dna headers headers-Chain (omega arith)

abbrev first_page : ChainStoreQueryOptions
first_page = record { start = 0; limit = 1; headers = false }

abbrev no_globs : GlobSetBuilder
no_globs names = none

query_lem_example :
    (wanted : Result (ChainHeader → Bool) RibosomeErrorCode) × Asks no_globs ("%dna" ∷ []) wanted
    × (query codec no_globs 3 chain_store (some newer) ("%dna" ∷ []) first_page
        ≡ some (answer first_page headers wanted))
query_lem_example =
    query_lem codec no_globs 3 chain_store ("%dna" ∷ []) first_page headers headers-Chain
      (omega arith) (omega arith)

abbrev pub signer : Environment
signer = record { sign = λ s. ok "signature"; now = 3 }

abbrev failing_signer : Environment
failing_signer = record { sign = λ s. err (error_generic "no key"); now = 3 }

abbrev pub agent : AgentState
agent = record { actions = []; top_chain_header = some older; initial_agent_address = "alice" }

abbrev pub page : Entry
page = Entry.app "pages" "text"

-- The header that a commit of the page makes after the first header of the chain
abbrev pub page_header : ChainHeader
page_header = record {
  entry_type = EntryType.app "pages";
  entry_address = "entry";
  provenances = record { source = "alice"; signature = "signature" } ∷ [];
  link = some "dna";
  link_same_type = none;
  link_update_delete = none;
  timestamp = 3;
}

-- A coding for the header of the page and the first header
abbrev pub page_codec : Codec
page_codec = record {
  encode_from_str = λ s. s;
  entry_content = λ e. "entry";
  entry_of_content = λ s. err (error_generic s);
  header_content = λ h. if h.timestamp == 1 then "dna" else "page header";
  header_of_content = λ s. if s == "dna" then ok older else ok page_header;
}

abbrev pub dna_store : MemoryStorage
dna_store = record { storage = ("dna", "dna") ∷ []; poisoned = false }

pub older-Chain : Chain page_codec dna_store (older ∷ [])
unfolding fetch header_address HashMap.get
older-Chain = (record { at_address = refl; readable = refl }, refl, refl, tt)

pub page_header_built :
    page_header ≡ header_of_commit page_codec signer agent (older ∷ []) page none [] "signature"
unfolding build_header entry_address entry_type header_address type_beq
page_header_built = refl

pub dna_apart : header_address page_codec older ≢ entry_address page_codec page
unfolding header_address entry_address
dna_apart e = cc

pub page_apart : header_address page_codec page_header ≢ entry_address page_codec page
unfolding header_address entry_address
page_apart e = cc

pub dna_fresh : header_address page_codec older ≢ header_address page_codec page_header
unfolding header_address
dna_fresh e = cc

reduce_commit-Chain_example :
    (a' : AgentState) × (st' : MemoryStorage) × (reduce page_codec signer 2 dna_store agent
        (record { action = Action.commit page none []; id = 7 })
      ≡ some (a', st'))
    × Chain page_codec st' (page_header ∷ older ∷ [])
    × (a'.top_chain_header ≡ some page_header)
    × (HashMap.get a'.actions 7 ≡ some (ActionResponse.commit (ok (entry_address page_codec page))))
    × (fetch st' (entry_address page_codec page) ≡ ok (some "entry"))
reduce_commit-Chain_example =
    reduce_commit-Chain page_codec signer 2 dna_store agent 7 page none [] (older ∷ []) "signature"
      page_header older-Chain (omega arith) refl refl refl page_header_built refl
      (page_apart, (dna_apart, tt)) (dna_fresh, tt)

abbrev refused : AgentState
refused = record agent { actions = (7, ActionResponse.commit (err (error_generic "no key"))) ∷ [] }

signing_fails :
    reduce page_codec failing_signer 2 dna_store agent
      (record { action = Action.commit page none []; id = 7 })
    ≡ some (refused, dna_store)
unfolding reduce entry_address HashMap.insert HashMap.get type_beq
signing_fails = refl

refused-FailedWith : FailedWith refused 7 (error_generic "no key")
unfolding HashMap.get
refused-FailedWith = refl

reduce_commit_failed_example : refused.top_chain_header ≡ some older
reduce_commit_failed_example =
    reduce_commit_failed page_codec failing_signer 2 dna_store dna_store agent refused 7 page none
      [] (error_generic "no key") signing_fails refused-FailedWith
