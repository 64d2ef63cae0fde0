-- ===== src/Chain/Query/Pages.antt =====
-- What a query returns for what it selects, without reference to the iterators.
use holochain_rust.Chain.Query.{
  everything, matching, single_type, any_header, effective_limit, ChainStoreQueryResult,
  ChainStoreQueryOptions, Selection, single_type, matching, collected, select, query_selected,
}
use holochain_rust.Chain.Store.{next, next_same_type}
use holochain_rust.Prelude.{
  ◌==◌, length, drop, take, keep, find, head?, Result, ok, err, ℕ, ◌<◌, ◌≡◌, refl, ap, Bool, true,
  some, List, [], ◌∷◌, arith, length-keep, string_eq, nat_eq,
}
use holochain_rust.CoreTypes.EntryType.{entry_type_eq, to_string}
use holochain_rust.Chain.Store.Iteration.{Chain-Yields, Chain, same_type-Yields, first_of_type_lem}
use holochain_rust.CoreTypes.Header.{ChainHeader}
use holochain_rust.Chain.Store.Consumers.{page_lem}
use holochain_rust.Cas.{MemoryStorage}
use holochain_rust.WasmMemory.Codes.{RibosomeErrorCode}
use holochain_rust.CoreTypes.Entry.{Codec}

-- which headers a selection is about
abbrev pub selects : Selection → ChainHeader → Bool
selects everything h = true
selects (single_type t) h = h.entry_type == t
selects (matching matches) h = matches (to_string h.entry_type)

-- the page of a chain that a query should return
abbrev pub page_of : ChainStoreQueryOptions → Selection → List ChainHeader → List ChainHeader
page_of options s hs = take (effective_limit options) (drop options.start (keep (selects s) hs))

abbrev pub expected :
    ChainStoreQueryOptions
    → List ChainHeader
    → Result Selection RibosomeErrorCode
    → Result ChainStoreQueryResult RibosomeErrorCode
expected options hs (err e) = err e
expected options hs (ok s) = ok (collected options (page_of options s hs))

keep-any : (hs : List ChainHeader) → keep any_header hs ≡ hs
keep-any [] = refl
keep-any (h ∷ hs) = ap (λ l. h ∷ l) (keep-any hs)

module _ (c : Codec) where
  select_lem :
      (fuel : ℕ) (st : MemoryStorage) (options : ChainStoreQueryOptions) (s : Selection)
      (hs : List ChainHeader)
      → Chain c st hs
      → length hs < fuel
      → select c fuel st (head? hs) options s ≡ some (page_of options s hs)
  unfolding select
  select_lem fuel st options everything hs ch l =
      page_lem (next c st) fuel any_header options.start (effective_limit options) (head? hs) hs
        (Chain-Yields c st hs ch) l
  select_lem fuel st options (matching matches) hs ch l =
      page_lem (next c st) fuel (λ h. matches (to_string h.entry_type)) options.start
        (effective_limit options) (head? hs) hs (Chain-Yields c st hs ch) l
  select_lem fuel st options (single_type t) hs ch l =
      let typed : ChainHeader → Bool = λ g. g.entry_type == t in
      ground (
        arith,
        keep-any (keep typed hs),
        first_of_type_lem c fuel st t hs ch l,
        page_lem (next_same_type c st) fuel any_header options.start (effective_limit options)
            (find typed hs) (keep typed hs) (same_type-Yields c st t hs ch)
            (omega (arith, length-keep typed hs, l)),
      )

  pub query_selected_lem :
      (r : Result Selection RibosomeErrorCode) (fuel : ℕ) (st : MemoryStorage)
      (options : ChainStoreQueryOptions) (hs : List ChainHeader)
      → Chain c st hs
      → length hs < fuel
      → query_selected c r fuel st (head? hs) options ≡ some (expected options hs r)
  unfolding query_selected
  query_selected_lem (err e) fuel st options hs ch l = refl
  query_selected_lem (ok s) fuel st options hs ch l =
      ground (arith, select_lem fuel st options s hs ch l)
