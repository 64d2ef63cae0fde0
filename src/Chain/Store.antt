-- ===== src/Chain/Store.antt =====
-- The iterators of core/src/agent/chain_store.rs. A state of an iterator is its `current` header;
-- `none` around a result is a panic.
pub mod Iteration
pub mod Consumers
use holochain_rust.CoreTypes.EntryType.{entry_type_eq, EntryType}
use holochain_rust.Prelude.{
  ◌==◌, ok, err, ℕ, zero, suc, String, Bool, true, false, Option, none, some, List, [], ◌∷◌,
  unless_panic,
}
use holochain_rust.Cas.{fetch, MemoryStorage}
use holochain_rust.CoreTypes.Entry.{Codec}
use holochain_rust.CoreTypes.Errors.{HcResult}
use holochain_rust.CoreTypes.Header.{ChainHeader}

-- `storage.read().unwrap().fetch(a).expect(…).map(|content| try_from_content(…).expect(…))`
unfoldable pub load_header : Codec → HcResult (Option String) → Option (Option ChainHeader)
load_header c (err e) = none
load_header c (ok none) = some none
load_header c (ok (some content)) = elim (c.header_of_content content) [
  | err e ↦ none
  | ok h ↦ some (some h)
]

unfoldable pub follow : Codec → MemoryStorage → Option String → Option (Option ChainHeader)
unfolding load_header fetch
follow c st none = some none
follow c st (some address) = load_header c (fetch st address)

-- `ChainStoreIterator::next`: the item and the new current header
unfoldable pub next :
    Codec → MemoryStorage → Option ChainHeader → Option (Option ChainHeader × Option ChainHeader)
unfolding follow
next c st none = some (none, none)
next c st (some h) = unless_panic (follow c st h.link) λ current. some (some h, current)

-- `ChainStoreTypeIterator::next`
unfoldable pub next_same_type :
    Codec → MemoryStorage → Option ChainHeader → Option (Option ChainHeader × Option ChainHeader)
unfolding follow
next_same_type c st none = some (none, none)
next_same_type c st (some h) =
    unless_panic (follow c st h.link_same_type) λ current. some (some h, current)

-- All items of an iterator, whose `next` is given, on fuel; `none` also when the fuel runs out.
unfoldable pub drain :
    (Option ChainHeader → Option (Option ChainHeader × Option ChainHeader))
    → ℕ
    → Option ChainHeader
    → Option (List ChainHeader)
drain step zero current = none
drain step (suc fuel) current = elim (step current) [
  | none ↦ none
  | some (none, rest) ↦ some []
  | some (some h, rest) ↦ elim (drain step fuel rest) [ none ↦ none | some hs ↦ some (h ∷ hs) ]
]

-- `ChainStore::iter`
unfoldable pub iter : Codec → ℕ → MemoryStorage → Option ChainHeader → Option (List ChainHeader)
unfolding drain next
iter c fuel st start = drain (next c st) fuel start

-- `Iterator::find`, which asks for no item after the one it finds; `none` as for `drain`.
unfoldable pub search :
    (Option ChainHeader → Option (Option ChainHeader × Option ChainHeader))
    → ℕ
    → (ChainHeader → Bool)
    → Option ChainHeader
    → Option (Option ChainHeader)
search step zero p current = none
search step (suc fuel) p current = elim (step current) [
  | none ↦ none
  | some (none, rest) ↦ some none
  | some (some h, rest) ↦ elim (p h) [ true ↦ some (some h) | false ↦ search step fuel p rest ]
]

-- `ChainStore::iter_type`: the first header of the type
unfoldable pub first_of_type :
    Codec → ℕ → MemoryStorage → Option ChainHeader → EntryType → Option (Option ChainHeader)
unfolding search next
first_of_type c fuel st start t = search (next c st) fuel (λ h. h.entry_type == t) start

-- All items of the iterator of `ChainStore::iter_type`, which follows the links of the same type
-- from the first header of the type on.
unfoldable pub iter_type :
    Codec → ℕ → MemoryStorage → Option ChainHeader → EntryType → Option (List ChainHeader)
unfolding drain next_same_type first_of_type
iter_type c fuel st start t =
    unless_panic (first_of_type c fuel st start t) λ first. drain (next_same_type c st) fuel first

-- `.filter(p).skip(start).take(limit).collect()` of an iterator, which asks for no item after the
-- last it takes; `none` as for `drain`.
unfoldable pub page :
    (Option ChainHeader → Option (Option ChainHeader × Option ChainHeader))
    → ℕ
    → (ChainHeader → Bool)
    → ℕ
    → ℕ
    → Option ChainHeader
    → Option (List ChainHeader)
page step fuel p start zero current = some []
page step zero p start (suc limit) current = none
page step (suc fuel) p start (suc limit) current = elim (step current) [
  | none ↦ none
  | some (none, rest) ↦ some []
  | some (some h, rest) ↦ elim (p h) [
    | false ↦ page step fuel p start (suc limit) rest
    | true ↦ elim start [
      | suc n ↦ page step fuel p n (suc limit) rest
      | zero ↦ elim (page step fuel p 0 limit rest) [ none ↦ none | some hs ↦ some (h ∷ hs) ]
    ]
  ]
]
