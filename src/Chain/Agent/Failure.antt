-- ===== src/Chain/Agent/Failure.antt =====
-- A commit that fails leaves the top of the chain where it was.
use holochain_rust.Prelude.{
  Option-cases, ok, err, ℕ, String, ◌≡◌, refl, sym, ap, inl, inr, Option, some, List, arith,
  string_eq, nat_eq,
}
use holochain_rust.Prelude.HashMap
use holochain_rust.Chain.Agent.{
  reduce, reduce_commit_entry, Environment, finish_commit, commit_with_header,
  create_new_chain_header, AgentState, add_entry_and_header, ActionResponse, respond,
}
use holochain_rust.Actions.{Action}
use holochain_rust.CoreTypes.Entry.{Entry, entry_address, Codec}
use holochain_rust.Cas.{MemoryStorage}
use holochain_rust.CoreTypes.Header.{ChainHeader, Provenance}
use holochain_rust.CoreTypes.Errors.{HolochainError, HcResult}

-- The response of a state to an action is an error.
abbrev pub FailedWith : AgentState → ℕ → HolochainError → Type 0
FailedWith a id e = HashMap.get a.actions id ≡ some (ActionResponse.commit (err e))

module _ (c : Codec) (a : AgentState) (id : ℕ) (entry : Entry) (e : HolochainError) where
  finish_commit_failed :
      (h : ChainHeader) (r : HcResult (Unit {0}) × MemoryStorage)
      → FailedWith (finish_commit c a id entry h r).0 id e
      → (finish_commit c a id entry h r).0.top_chain_header ≡ a.top_chain_header
  unfolding finish_commit respond
  finish_commit_failed h (err x, st) f = refl
  finish_commit_failed h (ok x, st) f = ground (
    arith,
    f,
    HashMap.get-insert_self a.actions id (ActionResponse.commit (ok (entry_address c entry))),
  )

  commit_with_header_failed :
      (st : MemoryStorage) (r : HcResult ChainHeader)
      → FailedWith (commit_with_header c st a id entry r).0 id e
      → (commit_with_header c st a id entry r).0.top_chain_header ≡ a.top_chain_header
  unfolding commit_with_header respond
  commit_with_header_failed st (err x) f = refl
  commit_with_header_failed st (ok h) f =
      finish_commit_failed h (add_entry_and_header c st entry h) f

-- Where the reducer answers a commit with an error, for whatever reason, the top of the chain is
-- the one it was.
pub reduce_commit_failed :
    (c : Codec) (env : Environment) (fuel : ℕ) (st st' : MemoryStorage) (a a' : AgentState) (id : ℕ)
    (entry : Entry) (update_delete : Option String) (provenances : List Provenance)
    (e : HolochainError)
    → reduce c env fuel st a
        (record { action = Action.commit entry update_delete provenances; id = id })
      ≡ some (a', st')
    → FailedWith a' id e
    → a'.top_chain_header ≡ a.top_chain_header
unfolding reduce reduce_commit_entry
reduce_commit_failed c env fuel st st' a a' id entry update_delete provenances e run f =
    elim (Option-cases (create_new_chain_header c env fuel st a entry update_delete provenances)) [
      | inl panic ↦ ground (arith, panic, run)
      | inr (r, made) ↦
          let whole : commit_with_header c st a id entry r ≡ (a', st') =
            ground (arith, made, run) in
          let same : a' ≡ (commit_with_header c st a id entry r).0 = ap (λ p. p.0) (sym whole) in
          rw same (commit_with_header_failed c a id entry e st r (rw same at f))
    ]
