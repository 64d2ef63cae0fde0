-- ===== src/Chain/Query.antt =====
-- `ChainStore::query` of core/src/agent/chain_store.rs. The compiled glob set of the `globset`
-- crate is an argument: from the patterns it makes the test of a name, or fails to. `none` around
-- a result is a panic, or that the fuel ran out.
pub mod Glob
pub mod Pages
pub mod Patterns
pub mod Answers
use holochain_rust.Chain.Store.{next, page, first_of_type, next_same_type}
use holochain_rust.Chain.Query.Glob.{is_glob_str}
use holochain_rust.Prelude.{
  if◌then◌else◌, ◌==◌, Result, ok, err, ℕ, ◌-◌, ◌^◌, String, Bool, true, Option, none, some, List,
  [], ◌∷◌, map, unless_panic, string_eq, nat_eq,
}
use holochain_rust.CoreTypes.Header.{ChainHeader}
use holochain_rust.Cas.{MemoryStorage}
use holochain_rust.WasmMemory.Codes.{unknown_entry_type, RibosomeErrorCode}
use holochain_rust.CoreTypes.EntryType.{from_str, to_string, EntryType}
use holochain_rust.CoreTypes.Entry.{Codec}

pub record ChainStoreQueryOptions : Type 0 where
  pub start : ℕ
  pub limit : ℕ
  pub headers : Bool

pub data ChainStoreQueryResult : Type 0 where
  addresses : List String → ChainStoreQueryResult
  headers : List ChainHeader → ChainStoreQueryResult

-- `limit == 0` stands for all: `usize::max_value()`
unfoldable pub effective_limit : ChainStoreQueryOptions → ℕ
effective_limit options = if options.limit == 0 then 2 ^ 64 - 1 else options.limit

-- The items of a page as what the options ask for
unfoldable pub collected : ChainStoreQueryOptions → List ChainHeader → ChainStoreQueryResult
collected options hs =
    if options.headers
    then ChainStoreQueryResult.headers hs
    else addresses (map (λ h. h.entry_address) hs)

abbrev pub GlobSetBuilder : Type 0
GlobSetBuilder = List String → Option (String → Bool)

-- What to look for: everything, one entry type, or what a glob set matches.
pub data Selection : Type 0 where
  everything : Selection
  single_type : EntryType → Selection
  matching : (String → Bool) → Selection

unfoldable pub glob_selection : Option (String → Bool) → Result Selection RibosomeErrorCode
glob_selection none = err unknown_entry_type
glob_selection (some matches) = ok (matching matches)

-- The `match` on the names. `EntryType::from_str` does not fail.
unfoldable pub selection : GlobSetBuilder → List String → Result Selection RibosomeErrorCode
unfolding glob_selection is_glob_str from_str
selection build [] = ok everything
selection build (one ∷ []) =
    if one == ""
    then ok everything
    else if one == "**"
    then ok everything
    else if is_glob_str one
    then glob_selection (build (one ∷ []))
    else ok (single_type (from_str one))
selection build (one ∷ rest) = glob_selection (build (one ∷ rest))

abbrev pub any_header : ChainHeader → Bool
any_header h = true

unfoldable pub select :
    Codec
    → ℕ
    → MemoryStorage
    → Option ChainHeader
    → ChainStoreQueryOptions
    → Selection
    → Option (List ChainHeader)
unfolding page next effective_limit first_of_type next_same_type to_string
select c fuel st start options everything =
    page (next c st) fuel any_header options.start (effective_limit options) start
select c fuel st start options (single_type t) =
    unless_panic (first_of_type c fuel st start t) λ first.
      page (next_same_type c st) fuel any_header options.start (effective_limit options) first
select c fuel st start options (matching matches) =
    page (next c st) fuel (λ h. matches (to_string h.entry_type)) options.start
      (effective_limit options) start

unfoldable pub query_selected :
    Codec
    → Result Selection RibosomeErrorCode
    → ℕ
    → MemoryStorage
    → Option ChainHeader
    → ChainStoreQueryOptions
    → Option (Result ChainStoreQueryResult RibosomeErrorCode)
unfolding select collected
query_selected c (err e) fuel st start options = some (err e)
query_selected c (ok s) fuel st start options =
    unless_panic (select c fuel st start options s) λ hs. some (ok (collected options hs))

unfoldable pub query :
    Codec
    → GlobSetBuilder
    → ℕ
    → MemoryStorage
    → Option ChainHeader
    → List String
    → ChainStoreQueryOptions
    → Option (Result ChainStoreQueryResult RibosomeErrorCode)
unfolding selection query_selected
query c build fuel st start names options =
    query_selected c (selection build names) fuel st start options
