-- ===== src/Chain/Store/Iteration.antt =====
-- On a chain whose headers are stored the iterators yield what they should.
use mathlib.Core.Path.{subst}
use holochain_rust.CoreTypes.EntryType.{entry_type_eq, EntryType, type_beq_iff}
use holochain_rust.Prelude.{
  Bool-cases, ◌==◌, length, keep, find, head?, ok, ℕ, ◌<◌, String, ◌≡◌, refl, ap, ◌∙◌, inl, inr,
  Bool, Option, none, some, List, [], ◌∷◌, arith, map_option, length-keep, string_eq,
}
use holochain_rust.Cas.{fetch, MemoryStorage}
use holochain_rust.Chain.Store.{
  follow, iter_type, next_same_type, load_header, iter, next, first_of_type,
}
use holochain_rust.CoreTypes.Entry.{Codec, header_address}
use holochain_rust.CoreTypes.Header.{ChainHeader}
use holochain_rust.Chain.Store.Consumers.{Yields, search_lem, drain_lem}

module _ (c : Codec) where
  -- A header is stored under its address, and its content can be read back.
  pub record IsStored (st : MemoryStorage) (h : ChainHeader) : Type 0 where
    pub at_address : fetch st (header_address c h) ≡ ok (some (c.header_content h))
    pub readable : c.header_of_content (c.header_content h) ≡ ok h

  abbrev pub address_of : Option ChainHeader → Option String
  address_of o = map_option (header_address c) o

  -- The headers of a chain, newest first. Each is stored, its link leads to the one before it, and
  -- its link of the same type to the newest before it with its type.
  abbrev pub Chain : MemoryStorage → List ChainHeader → Type 0
  Chain st [] = Unit
  Chain st (h ∷ hs) =
      IsStored st h
      × (h.link ≡ address_of (head? hs))
      × (h.link_same_type ≡ address_of (find (λ g. g.entry_type == h.entry_type) hs))
      × Chain st hs

  follow_lem :
      (st : MemoryStorage) (o : Option ChainHeader)
      → ((h : ChainHeader) → o ≡ some h → IsStored st h)
      → follow c st (address_of o) ≡ some o
  unfolding follow load_header
  follow_lem st none stored = refl
  follow_lem st (some h) stored =
      ground (arith, (stored h refl).at_address, (stored h refl).readable)

  find-IsStored :
      (st : MemoryStorage) (p : ChainHeader → Bool) (hs : List ChainHeader) (h : ChainHeader)
      → Chain st hs
      → find p hs ≡ some h
      → IsStored st h
  find-IsStored st p [] h ch e = cc
  find-IsStored st p (g ∷ hs) h ch e = elim (Bool-cases (p g)) [
    | inl this ↦ let same : h ≡ g = ground arith in rw same ch.0
    | inr later ↦ find-IsStored st p hs h ch.3 (ground arith)
  ]

  head?-IsStored :
      (st : MemoryStorage) (hs : List ChainHeader) (h : ChainHeader)
      → Chain st hs
      → head? hs ≡ some h
      → IsStored st h
  head?-IsStored st [] h ch e = cc
  head?-IsStored st (g ∷ hs) h ch e = let same : h ≡ g = cc in rw same ch.0

  pub Chain-Yields :
      (st : MemoryStorage) (hs : List ChainHeader) → Chain st hs → Yields (next c st) (head? hs) hs
  unfolding next
  Chain-Yields st [] ch = (none, refl)
  Chain-Yields st (h ∷ hs) ch =
      let linked : follow c st h.link ≡ some (head? hs) =
        ap (follow c st) ch.1 ∙ follow_lem st (head? hs) (λ g e. head?-IsStored st hs g ch.3 e) in
      (head? hs, rw linked refl, Chain-Yields st hs ch.3)

  -- the iteration over one type, from its first header on
  pub same_type-Yields :
      (st : MemoryStorage) (t : EntryType) (hs : List ChainHeader)
      → Chain st hs
      → Yields
          (next_same_type c st)
          (find (λ g. g.entry_type == t) hs)
          (keep (λ g. g.entry_type == t) hs)
  unfolding next_same_type
  same_type-Yields st t [] ch = (none, refl)
  same_type-Yields st t (h ∷ hs) ch = elim (Bool-cases (h.entry_type == t)) [
    | inr other ↦ rw other (same_type-Yields st t hs ch.3)
    | inl same ↦
        let type : h.entry_type ≡ t = (type_beq_iff _ _).0 same in
        let links : h.link_same_type ≡ address_of (find (λ g. g.entry_type == t) hs) =
          subst (λ u. h.link_same_type ≡ address_of (find (λ g. g.entry_type == u) hs)) type ch.2 in
        let linked : follow c st h.link_same_type ≡ some (find (λ g. g.entry_type == t) hs) =
          ap (follow c st) links
          ∙ follow_lem st (find (λ g. g.entry_type == t) hs)
              (λ g e. find-IsStored st (λ g. g.entry_type == t) hs g ch.3 e) in
        rw same (find (λ g. g.entry_type == t) hs, rw linked refl, same_type-Yields st t hs ch.3)
  ]

  -- Iterating from the newest header yields the whole chain, newest first, and ends.
  pub iter_lem :
      (fuel : ℕ) (st : MemoryStorage) (hs : List ChainHeader)
      → Chain st hs
      → length hs < fuel
      → iter c fuel st (head? hs) ≡ some hs
  unfolding iter
  iter_lem fuel st hs ch l = drain_lem (next c st) fuel (head? hs) hs (Chain-Yields st hs ch) l

  pub first_of_type_lem :
      (fuel : ℕ) (st : MemoryStorage) (t : EntryType) (hs : List ChainHeader)
      → Chain st hs
      → length hs < fuel
      → first_of_type c fuel st (head? hs) t ≡ some (find (λ g. g.entry_type == t) hs)
  unfolding first_of_type
  first_of_type_lem fuel st t hs ch l =
      search_lem (next c st) fuel (λ g. g.entry_type == t) (head? hs) hs (Chain-Yields st hs ch) l

  -- Iterating over one entry type by the links of the same type yields exactly what filtering the
  -- whole chain by that type does.
  pub iter_type_lem :
      (fuel : ℕ) (st : MemoryStorage) (t : EntryType) (hs : List ChainHeader)
      → Chain st hs
      → length hs < fuel
      → iter_type c fuel st (head? hs) t ≡ some (keep (λ g. g.entry_type == t) hs)
  unfolding iter_type
  iter_type_lem fuel st t hs ch l =
      let typed : ChainHeader → Bool = λ g. g.entry_type == t in
      ground (
        arith,
        first_of_type_lem fuel st t hs ch l,
        drain_lem (next_same_type c st) fuel (find typed hs) (keep typed hs)
            (same_type-Yields st t hs ch) (omega (arith, length-keep typed hs, l)),
      )
