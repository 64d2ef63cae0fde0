-- ===== src/Nucleus/Lifecycle.antt =====
-- The life cycle of the nucleus: which changes of its status the reducers make.
use holochain_rust.Prelude.HashMap
use holochain_rust.Prelude.{
  Bool-cases, Option-cases, ok, err, String, ◌≡◌, refl, ◌≢◌, ◌↔◌, inl, inr, Bool, true, false, not,
  ◌||◌, none, some, List, [], ◌∷◌, arith,
}
use holochain_rust.Actions.{Action, Initialization}
use holochain_rust.CoreTypes.Entry.{Codec}
use holochain_rust.Nucleus.{
  NucleusStatus, new, initializing, initialized, initialization_failed, NucleusState, reduce,
  new_nucleus_state, reduce_remove_pending_validation, reduce_return_initialization_result,
  reduce_add_pending_validation, reduce_return_zome_function_result,
  reduce_return_validation_package, reduce_initialize_chain, not_initializing,
  reduce_return_validation_result, has_initialized, initialization,
}

-- The transition diagram. An initialization that is tried while another is under way or done fails,
-- and so does a result that nobody waits for; only a failed nucleus can be initialized again.
infix 40 ◌⟶◌
pub data ◌⟶◌ : NucleusStatus → NucleusStatus → Type 0 where
  stay : {s : NucleusStatus} → s ⟶ s
  begin : new ⟶ initializing
  retry : {m : String} → initialization_failed m ⟶ initializing
  finish : {i : Initialization} → initializing ⟶ initialized i
  give_up : {m : String} → initializing ⟶ initialization_failed m
  interrupt : initializing ⟶ initialization_failed "Nucleus already initializing"
  repeat :
      {i : Initialization} → initialized i ⟶ initialization_failed "Nucleus already initialized"
  unexpected : {s : NucleusStatus} → s ≢ initializing → s ⟶ initialization_failed not_initializing

-- The states that a nucleus gets into by actions
pub data Reachable (c : Codec) : NucleusState → Type 0 where
  start : Reachable c new_nucleus_state
  after : {s : NucleusState} → Reachable c s → (a : Action) → Reachable c (reduce c s a)

ruleset edges = (stay, begin, retry, finish, give_up, interrupt, repeat)

-- Every action, in every state, changes the status along an edge of the diagram.
pub reduce-⟶ : (c : Codec) (s : NucleusState) (a : Action) → s.status ⟶ (reduce c s a).status
unfolding reduce reduce_initialize_chain reduce_return_initialization_result
    reduce_add_pending_validation reduce_remove_pending_validation
    reduce_return_zome_function_result reduce_return_validation_result
    reduce_return_validation_package
reduce-⟶ c s a = grind (arith, edges, unexpected)

edge_taken :
    (c : Codec) (s : NucleusState) (status t : NucleusStatus)
    → s.status ≡ status
    → status ⟶ t
    → (a : Action) × ((reduce c s a).status ≡ t)
unfolding reduce reduce_initialize_chain reduce_return_initialization_result
edge_taken c s status t same stay = (Action.publish "", same)
edge_taken c s new t same begin = (Action.initialize_chain "", ground (arith, same))
edge_taken c s (initialization_failed m) t same retry =
    (Action.initialize_chain "", ground (arith, same))
edge_taken c s initializing (initialized i) same finish =
    (Action.return_initialization_result (ok i), ground (arith, same))
edge_taken c s initializing (initialization_failed m) same give_up =
    (Action.return_initialization_result (err m), ground (arith, same))
edge_taken c s initializing t same interrupt = (Action.initialize_chain "", ground (arith, same))
edge_taken c s (initialized i) t same repeat = (Action.initialize_chain "", ground (arith, same))
edge_taken c s status t same (unexpected other) =
    (Action.return_initialization_result (err ""), ground (arith, same))

-- In every state, the statuses that the nucleus has after some action are exactly those that an
-- edge of the diagram leads to.
pub reduce-⟶_iff :
    (c : Codec) (s : NucleusState) (t : NucleusStatus)
    → ((a : Action) × ((reduce c s a).status ≡ t)) ↔ (s.status ⟶ t)
reduce-⟶_iff c s t =
    (λ (a, same). rw same at (reduce-⟶ c s a), λ edge. edge_taken c s s.status t refl edge)

-- A nucleus whose initialization is under way or done has a DNA.
abbrev is_active : NucleusStatus → Bool
is_active new = false
is_active initializing = true
is_active (initialized i) = true
is_active (initialization_failed m) = false

abbrev knows_dna : NucleusState → Bool
knows_dna s = not (is_active s.status) || HashMap.is_some s.dna

reduce-knows_dna :
    (c : Codec) (s : NucleusState) (a : Action)
    → knows_dna s ≡ true
    → knows_dna (reduce c s a) ≡ true
unfolding reduce reduce_initialize_chain reduce_return_initialization_result
    reduce_add_pending_validation reduce_remove_pending_validation
    reduce_return_zome_function_result reduce_return_validation_result
    reduce_return_validation_package
reduce-knows_dna c s a h = ground arith

Reachable-knows_dna : {c : Codec} {s : NucleusState} → Reachable c s → knows_dna s ≡ true
unfolding new_nucleus_state
Reachable-knows_dna start = refl
Reachable-knows_dna {c} (after {s} r a) = reduce-knows_dna c s a (Reachable-knows_dna r)

-- Whatever actions were reduced since the start, a nucleus that says it is initialized has a DNA.
pub has_initialized-dna :
    (c : Codec) (s : NucleusState)
    → Reachable c s
    → has_initialized s ≡ true
    → (dna : String) × (s.dna ≡ some dna)
unfolding has_initialized
has_initialized-dna c s r h = elim (Option-cases s.dna) [
  | inl missing ↦ absurd (ground (arith, Reachable-knows_dna r))
  | inr known ↦ known
]

-- A nucleus becomes initialized only by the result of the initialization that is under way.
pub initialization_origin :
    (c : Codec) (s : NucleusState) (a : Action) (i : Initialization)
    → initialization s ≡ none
    → initialization (reduce c s a) ≡ some i
    → (s.status ≡ initializing) × (a ≡ Action.return_initialization_result (ok i))
unfolding initialization reduce reduce_initialize_chain reduce_return_initialization_result
    reduce_add_pending_validation reduce_remove_pending_validation
    reduce_return_zome_function_result reduce_return_validation_result
    reduce_return_validation_package
initialization_origin c s a i before now = ground arith

abbrev pub reduce_all : Codec → NucleusState → List Action → NucleusState
reduce_all c s [] = s
reduce_all c s (a ∷ actions) = reduce_all c (reduce c s a) actions

restarted :
    (c : Codec) (s : NucleusState) (dna : String) (i : Initialization)
    → (actions : List Action) × ((reduce_all c s actions).status ≡ initialized i)
      × ((reduce_all c s actions).dna ≡ some dna)
unfolding reduce reduce_initialize_chain reduce_return_initialization_result
restarted c s dna i =
    let begin_it = Action.initialize_chain dna in
    let end_it = Action.return_initialization_result (ok i) in
    elim (Bool-cases (is_active s.status)) [
      | inl active ↦ (begin_it ∷ begin_it ∷ end_it ∷ [], ground arith, ground arith)
      | inr idle ↦ (begin_it ∷ end_it ∷ [], ground arith, ground arith)
    ]

-- From every state some run of actions leads to a nucleus that is initialized, with any DNA and
-- any outcome asked for.
pub initialization_possible :
    (c : Codec) (s : NucleusState) (dna : String) (i : Initialization)
    → (actions : List Action) × (initialization (reduce_all c s actions) ≡ some i)
      × ((reduce_all c s actions).dna ≡ some dna)
unfolding initialization
initialization_possible c s dna i =
    let (actions, status, known) = restarted c s dna i in (actions, ground (arith, status), known)
