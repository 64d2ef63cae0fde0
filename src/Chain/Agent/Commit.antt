-- ===== src/Chain/Agent/Commit.antt =====
-- A commit extends the chain by one header.
use holochain_rust.Prelude.HashMap
use holochain_rust.Chain.Agent.{reduce}
use holochain_rust.Prelude.{
  ◌==◌, length, keep, find, head?, find-eq-head?-keep, All, ok, ℕ, ◌<◌, String, ◌≡◌, refl, sym, ap,
  ◌∙◌, ◌≢◌, Bool, false, Option, some, List, [], ◌∷◌, arith, eq_iff, map_option, unwrap_or,
  string_eq, nat_eq,
}
use holochain_rust.CoreTypes.EntryType.{entry_type_eq, EntryType}
use holochain_rust.Cas.{MemoryStorage, add, fetch-add, fetch}
use holochain_rust.Chain.Agent.{
  Environment, sign_header, newest_of_type, AgentState, create_new_chain_header, get_agent_address,
  build_header, finish_commit, add_entry_and_header, commit_with_header, then_add_header,
  reduce_commit_entry, ActionResponse, reduce, respond,
}
use holochain_rust.CoreTypes.Entry.{entry_type, Codec, header_address, Entry, entry_address}
use holochain_rust.Chain.Store.Iteration.{
  Chain, IsStored, same_type-Yields, first_of_type_lem, address_of,
}
use holochain_rust.CoreTypes.Header.{ChainHeader, Provenance}
use holochain_rust.Chain.Store.{next_same_type}
use holochain_rust.Chain.Store.Consumers.{head_lem}
use holochain_rust.Actions.{Action}

module _ (c : Codec) where
  newest_of_type_lem :
      (fuel : ℕ) (st : MemoryStorage) (t : EntryType) (hs : List ChainHeader)
      → Chain c st hs
      → length hs < fuel
      → newest_of_type c fuel st (head? hs) t ≡ some (find (λ g. g.entry_type == t) hs)
  unfolding newest_of_type
  newest_of_type_lem fuel st t hs ch l =
      let typed : ChainHeader → Bool = λ g. g.entry_type == t in
      let item =
        head_lem (next_same_type c st) (find typed hs) (keep typed hs)
          (same_type-Yields c st t hs ch) in
      ground (arith, first_of_type_lem c fuel st t hs ch l, item.1, find-eq-head?-keep typed hs)

  -- The header of a commit, from the chain alone
  abbrev pub header_of_commit :
      Environment
      → AgentState
      → List ChainHeader
      → Entry
      → Option String
      → List Provenance
      → String
      → ChainHeader
  header_of_commit env a hs entry update_delete provenances signature =
      build_header c env a entry update_delete provenances
        (unwrap_or a.initial_agent_address
          (map_option (λ h. h.entry_address) (find (λ g. g.entry_type == EntryType.agent_id) hs)))
        signature (find (λ g. g.entry_type == entry_type entry) hs)

  create_new_chain_header_lem :
      (env : Environment) (fuel : ℕ) (st : MemoryStorage) (a : AgentState) (entry : Entry)
      (update_delete : Option String) (provenances : List Provenance) (hs : List ChainHeader)
      (signature : String)
      → Chain c st hs
      → length hs < fuel
      → a.top_chain_header ≡ head? hs
      → env.sign (entry_address c entry) ≡ ok signature
      → create_new_chain_header c env fuel st a entry update_delete provenances
        ≡ some (ok (header_of_commit env a hs entry update_delete provenances signature))
  unfolding create_new_chain_header get_agent_address sign_header
  create_new_chain_header_lem env fuel st a entry update_delete provenances hs signature ch l top
        signed =
      ground (
        arith,
        top,
        signed,
        newest_of_type_lem fuel st EntryType.agent_id hs ch l,
        newest_of_type_lem fuel st (entry_type entry) hs ch l,
      )

  add-IsStored :
      (st : MemoryStorage) (address content : String) (h : ChainHeader)
      → st.poisoned ≡ false
      → header_address c h ≢ address
      → IsStored c st h
      → IsStored c (add st address content).1 h
  add-IsStored st address content h p other s = record {
    at_address = ground (
      arith,
      (fetch-add st address (header_address c h) content p).1,
      eq_iff address (header_address c h),
      s.at_address,
    );
    readable = s.readable;
  }

  pub add-Chain :
      (st : MemoryStorage) (address content : String) (hs : List ChainHeader)
      → st.poisoned ≡ false
      → All (λ g. header_address c g ≢ address) hs
      → Chain c st hs
      → Chain c (add st address content).1 hs
  add-Chain st address content [] p other ch = tt
  add-Chain st address content (h ∷ hs) p (this, others) (s, e, f, ch) = (
    add-IsStored st address content h p this s,
    e,
    f,
    add-Chain st address content hs p others ch,
  )

  add-poisoned :
      (st : MemoryStorage) (address content : String)
      → st.poisoned ≡ false
      → (add st address content).1.poisoned ≡ false
  unfolding add
  add-poisoned st address content p = ground arith

  -- what the store holds after both additions of a commit
  abbrev pub committed : MemoryStorage → Entry → ChainHeader → MemoryStorage
  committed st entry h =
      (add (add st (entry_address c entry) (c.entry_content entry)).1 (header_address c h)
        (c.header_content h)).1

  add_entry_and_header_lem :
      (st : MemoryStorage) (entry : Entry) (h : ChainHeader)
      → st.poisoned ≡ false
      → add_entry_and_header c st entry h ≡ (ok tt, committed st entry h)
  unfolding add_entry_and_header then_add_header add
  add_entry_and_header_lem st entry h p = ground arith

  committed-Chain :
      (st : MemoryStorage) (entry : Entry) (h : ChainHeader) (hs : List ChainHeader)
      → st.poisoned ≡ false
      → Chain c st hs
      → c.header_of_content (c.header_content h) ≡ ok h
      → All (λ g. header_address c g ≢ entry_address c entry) hs
      → All (λ g. header_address c g ≢ header_address c h) hs
      → h.link ≡ address_of c (head? hs)
      → h.link_same_type ≡ address_of c (find (λ g. g.entry_type == h.entry_type) hs)
      → Chain c (committed st entry h) (h ∷ hs)
  committed-Chain st entry h hs p ch readable apart fresh link same_type =
      let st1 = (add st (entry_address c entry) (c.entry_content entry)).1 in
      let p1 = add-poisoned st (entry_address c entry) (c.entry_content entry) p in
      (
        record {
          at_address = ground (
            arith,
            (fetch-add st1 (header_address c h) (header_address c h) (c.header_content h) p1).1,
            eq_iff (header_address c h) (header_address c h),
          );
          readable = readable;
        },
        link,
        same_type,
        add-Chain st1 (header_address c h) (c.header_content h) hs p1 fresh
            (add-Chain st (entry_address c entry) (c.entry_content entry) hs p apart ch),
      )

  -- A commit extends the chain. Let the chain be stored, its newest header be the top one, the fuel
  -- be one step more than its length, the conductor sign, and the lock be intact. Let the new header
  -- be read back from its content, and let its address and that of the entry differ from each other
  -- and from those of the headers of the chain. Then the reducer succeeds: the chain with the new
  -- header before it is stored, the new header is the top one, the response to the action is the
  -- address of the entry, and the entry's content is stored there.
  pub reduce_commit-Chain :
      (env : Environment) (fuel : ℕ) (st : MemoryStorage) (a : AgentState) (id : ℕ) (entry : Entry)
      (update_delete : Option String) (provenances : List Provenance) (hs : List ChainHeader)
      (signature : String) (h : ChainHeader)
      → Chain c st hs
      → length hs < fuel
      → a.top_chain_header ≡ head? hs
      → env.sign (entry_address c entry) ≡ ok signature
      → st.poisoned ≡ false
      → h ≡ header_of_commit env a hs entry update_delete provenances signature
      → c.header_of_content (c.header_content h) ≡ ok h
      → All (λ g. header_address c g ≢ entry_address c entry) (h ∷ hs)
      → All (λ g. header_address c g ≢ header_address c h) hs
      → (a' : AgentState) × (st' : MemoryStorage) × (reduce c env fuel st a
            (record { action = Action.commit entry update_delete provenances; id = id })
          ≡ some (a', st'))
        × Chain c st' (h ∷ hs)
        × (a'.top_chain_header ≡ some h)
        × (HashMap.get a'.actions id ≡ some (ActionResponse.commit (ok (entry_address c entry))))
        × (fetch st' (entry_address c entry) ≡ ok (some (c.entry_content entry)))
  unfolding reduce reduce_commit_entry commit_with_header finish_commit respond build_header
  reduce_commit-Chain env fuel st a id entry update_delete provenances hs signature h ch l top
        signed p built readable (apart_h, apart) fresh =
      let ea = entry_address c entry in
      let st1 = (add st ea (c.entry_content entry)).1 in
      (
        respond (record a { top_chain_header = some h }) id (ok ea),
        committed st entry h,
        ground (
          arith,
          create_new_chain_header_lem env fuel st a entry update_delete provenances hs signature ch
              l top signed,
          sym built,
          add_entry_and_header_lem st entry h p,
        ),
        committed-Chain st entry h hs p ch readable apart fresh
            (ap (λ g. g.link) built ∙ ap (map_option (header_address c)) top)
            (ap (λ g. g.link_same_type) built
              ∙ ap (λ t. address_of c (find (λ g. g.entry_type == t) hs))
                  (ap (λ g. g.entry_type) (sym built))),
        refl,
        HashMap.get-insert_self a.actions id (ActionResponse.commit (ok ea)),
        ground (
          arith,
          (fetch-add st1 (header_address c h) ea (c.header_content h)
              (add-poisoned st ea (c.entry_content entry) p)).1,
          (fetch-add st ea ea (c.entry_content entry) p).1,
          eq_iff ea ea,
          eq_iff (header_address c h) ea,
        ),
      )
