-- ===== src/Chain/Query/Answers.antt =====
-- What a query asks for and what it is answered, in terms of the names, the options and the headers.
use holochain_rust.Prelude.{
  if◌then◌else◌, Bool-cases, Option-cases, ◌==◌, length, drop, take, keep, any, head?, Result, ok,
  err, ℕ, zero, suc, ◌-◌, ◌^◌, ◌≤◌, ◌<◌, String, ◌≡◌, refl, ap, ◌∙◌, ◌≢◌, inl, inr, Bool, true,
  none, some, List, [], ◌∷◌, map, arith, eq_iff, length-keep, string_eq, nat_eq,
}
use holochain_rust.Chain.Query.{
  GlobSetBuilder, ChainStoreQueryResult, ChainStoreQueryOptions, glob_selection, effective_limit,
  Selection, collected, selection, query,
}
use holochain_rust.Chain.Query.Glob.{is_glob_str}
use holochain_rust.Chain.Query.Patterns.{IsPattern, not_glob_str-IsPattern, is_glob_str-IsPattern}
use holochain_rust.CoreTypes.EntryType.{entry_type_eq, to_string, from_str}
use holochain_rust.CoreTypes.Header.{ChainHeader}
use holochain_rust.WasmMemory.Codes.{RibosomeErrorCode, unknown_entry_type}
use holochain_rust.CoreTypes.Entry.{Codec}
use holochain_rust.Cas.{MemoryStorage}
use holochain_rust.Chain.Query.Pages.{query_selected_lem, selects, expected}
use holochain_rust.Chain.Store.Iteration.{Chain}

-- Several names, or one that is a pattern, are for the glob set.
abbrev pub IsForGlobs : List String → Type 0
IsForGlobs [] = ⊥
IsForGlobs (one ∷ []) = (one ≢ "**") × IsPattern one
IsForGlobs (one ∷ (other ∷ names)) = Unit

-- Which headers the names ask for, or the error that they are
pub data Asks (build : GlobSetBuilder)
    : List String → Result (ChainHeader → Bool) RibosomeErrorCode → Type 0 where
  no_name : Asks build [] (ok (λ h. true))
  empty_name : Asks build ("" ∷ []) (ok (λ h. true))
  any_name : Asks build ("**" ∷ []) (ok (λ h. true))
  type_name :
      (name : String)
      → name ≢ ""
      → ¬ IsPattern name
      → Asks build (name ∷ []) (ok (λ h. h.entry_type == from_str name))
  globs :
      (names : List String) (matches : String → Bool)
      → IsForGlobs names
      → build names ≡ some matches
      → Asks build names (ok (λ h. matches (to_string h.entry_type)))
  invalid_globs :
      (names : List String)
      → IsForGlobs names
      → build names ≡ none
      → Asks build names (err unknown_entry_type)

-- From the start, at most as many as the limit, where the limit 0 is none
abbrev pub part : ChainStoreQueryOptions → List ChainHeader → List ChainHeader
part options hs =
    if options.limit == 0 then drop options.start hs else take options.limit (drop options.start hs)

abbrev pub shown : ChainStoreQueryOptions → List ChainHeader → ChainStoreQueryResult
shown options hs =
    if options.headers
    then ChainStoreQueryResult.headers hs
    else ChainStoreQueryResult.addresses (map (λ h. h.entry_address) hs)

abbrev pub answer :
    ChainStoreQueryOptions
    → List ChainHeader
    → Result (ChainHeader → Bool) RibosomeErrorCode
    → Result ChainStoreQueryResult RibosomeErrorCode
answer options hs (err e) = err e
answer options hs (ok wanted) = ok (shown options (part options (keep wanted hs)))

take_all : (n : ℕ) (hs : List ChainHeader) → length hs ≤ n → take n hs ≡ hs
take_all zero [] l = refl
take_all zero (h ∷ hs) l = absurd (omega arith)
take_all (suc n) [] l = refl
take_all (suc n) (h ∷ hs) l = ap (λ r. h ∷ r) (take_all n hs (omega arith))

length-drop : (n : ℕ) (hs : List ChainHeader) → length (drop n hs) ≤ length hs
length-drop zero hs = omega arith
length-drop (suc n) [] = omega arith
length-drop (suc n) (h ∷ hs) = omega (arith, length-drop n hs)

effective_limit-part :
    (options : ChainStoreQueryOptions) (hs : List ChainHeader)
    → length hs < 2 ^ 64
    → take (effective_limit options) (drop options.start hs) ≡ part options hs
unfolding effective_limit
effective_limit-part options hs l = elim (Bool-cases (options.limit == 0)) [
  | inl unlimited ↦ rw unlimited (
      take_all (2 ^ 64 - 1) (drop options.start hs)
        (omega (arith, length-drop options.start hs, l)))
  | inr limited ↦ rw limited refl
]

-- What a selection of the code wants
abbrev wanted_by :
    Result Selection RibosomeErrorCode → Result (ChainHeader → Bool) RibosomeErrorCode
wanted_by (err e) = err e
wanted_by (ok s) = ok (selects s)

expected-answer :
    (options : ChainStoreQueryOptions) (hs : List ChainHeader)
    (r : Result Selection RibosomeErrorCode)
    → length hs < 2 ^ 64
    → expected options hs r ≡ answer options hs (wanted_by r)
unfolding collected
expected-answer options hs (err e) l = refl
expected-answer options hs (ok s) l =
    let fits : length (keep (selects s) hs) < 2 ^ 64 =
      omega (arith, length-keep (selects s) hs, l) in
    rw (effective_limit-part options (keep (selects s) hs) fits) refl

glob_selection-Asks :
    (build : GlobSetBuilder) (names : List String)
    → IsForGlobs names
    → Asks build names (wanted_by (glob_selection (build names)))
unfolding glob_selection
glob_selection-Asks build names for_globs = elim (Option-cases (build names)) [
  | inl none_built ↦ rw none_built (invalid_globs names for_globs none_built)
  | inr (matches, built) ↦ rw built (globs names matches for_globs built)
]

one_name-Asks :
    (build : GlobSetBuilder) (one : String)
    → Asks build (one ∷ []) (wanted_by (selection build (one ∷ [])))
unfolding selection
one_name-Asks build one = elim (Bool-cases (one == "")) [
  | inl empty ↦ rw (empty, (eq_iff one "").0 empty) empty_name
  | inr named ↦ elim (Bool-cases (one == "**")) [
    | inl any ↦ rw (named, any, (eq_iff one "**").0 any) any_name
    | inr not_any ↦ elim (Bool-cases (is_glob_str one)) [
      | inl pattern_found ↦
          rw (named, not_any, pattern_found)
            (glob_selection-Asks build (one ∷ [])
              (λ q. ground (arith, (eq_iff one "**").1 q), is_glob_str-IsPattern one pattern_found))
      | inr plain ↦
          rw (named, not_any, plain)
            (type_name one (λ q. ground (arith, (eq_iff one "").1 q))
              (not_glob_str-IsPattern one plain))
    ]
  ]
]

selection-Asks :
    (build : GlobSetBuilder) (names : List String)
    → Asks build names (wanted_by (selection build names))
unfolding selection
selection-Asks build [] = no_name
selection-Asks build (one ∷ []) = one_name-Asks build one
selection-Asks build (one ∷ (other ∷ names)) = glob_selection-Asks build (one ∷ (other ∷ names)) tt

-- On a stored chain that fits in memory, with fuel for one step more than its length, a query is
-- answered with the headers that its names ask for, newest first, from the start on and as many as
-- the limit, where the limit 0 is none: all headers for no name, for an empty one and for "**",
-- those of one type for another name that is no pattern, and else what the glob set matches. An
-- invalid glob set is the error `UnknownEntryType`.
pub query_lem :
    (c : Codec) (build : GlobSetBuilder) (fuel : ℕ) (st : MemoryStorage) (names : List String)
    (options : ChainStoreQueryOptions) (hs : List ChainHeader)
    → Chain c st hs
    → length hs < fuel
    → length hs < 2 ^ 64
    → (wanted : Result (ChainHeader → Bool) RibosomeErrorCode) × Asks build names wanted
      × (query c build fuel st (head? hs) names options ≡ some (answer options hs wanted))
unfolding query
query_lem c build fuel st names options hs ch l fits = (
  wanted_by (selection build names),
  selection-Asks build names,
  query_selected_lem c (selection build names) fuel st options hs ch l
      ∙ ap some (expected-answer options hs (selection build names) fits),
)
