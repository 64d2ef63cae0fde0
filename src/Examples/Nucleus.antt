-- ===== src/Examples/Nucleus.antt =====
-- Runs of the nucleus: its initialization and a pending validation.
use holochain_rust.Prelude.{ok, String, ◌≡◌, refl, ◌↔◌, true, none, some, List, [], string_eq}
use holochain_rust.Nucleus.Lifecycle.{
  after, start, ◌⟶◌, initialization_origin, reduce-⟶_iff, initialization_possible, reduce_all,
  Reachable, has_initialized-dna,
}
use holochain_rust.Nucleus.{
  initializing, initialized, reduce, has_initialized, new_nucleus_state, NucleusState,
  initialization,
}
use holochain_rust.Examples.Shard.{shard_codec}
use holochain_rust.CoreTypes.Entry.{Entry}
use holochain_rust.Actions.{PendingValidation, Initialization, Action, ValidatingWorkflow}
use holochain_rust.CoreTypes.EntryType.{EntryType}
use holochain_rust.Nucleus.Pending.{reduce-pending_of, pending_after, pending_of}
use holochain_rust.CoreTypes.Header.{ChainHeader}

abbrev no_token : Initialization
no_token = record { public_token = none; payload = none }

abbrev started : NucleusState
started = record new_nucleus_state { status = initializing; dna = some "dna" }

abbrev pub ready : NucleusState
ready = record started { status = initialized no_token }

reduce-⟶_iff_example :
    ((a : Action) × ((reduce shard_codec started a).status ≡ initialized no_token))
    ↔ (initializing ⟶ initialized no_token)
reduce-⟶_iff_example = reduce-⟶_iff shard_codec started (initialized no_token)

ready-Reachable : Reachable shard_codec ready
unfolding reduce new_nucleus_state
ready-Reachable =
    after (after start (Action.initialize_chain "dna"))
      (Action.return_initialization_result (ok no_token))

ready_says : has_initialized ready ≡ true
unfolding has_initialized
ready_says = refl

was_not : initialization started ≡ none
unfolding initialization
was_not = refl

has_initialized-dna_example : (dna : String) × (ready.dna ≡ some dna)
has_initialized-dna_example = has_initialized-dna shard_codec ready ready-Reachable ready_says

now_is :
    initialization (reduce shard_codec started (Action.return_initialization_result (ok no_token)))
    ≡ some no_token
unfolding initialization reduce
now_is = refl

initialization_origin_example :
    (started.status ≡ initializing)
    × (Action.return_initialization_result (ok no_token)
        ≡ Action.return_initialization_result (ok no_token))
initialization_origin_example =
    initialization_origin shard_codec started (Action.return_initialization_result (ok no_token))
      no_token was_not now_is

initialization_possible_example :
    (actions : List Action) × (initialization (reduce_all shard_codec ready actions)
      ≡ some no_token)
    × ((reduce_all shard_codec ready actions).dna ≡ some "other")
initialization_possible_example = initialization_possible shard_codec ready "other" no_token

abbrev pub held_header : ChainHeader
held_header = record {
  entry_type = EntryType.app "pages";
  entry_address = "page";
  provenances = [];
  link = none;
  link_same_type = none;
  link_update_delete = none;
  timestamp = 1;
}

abbrev waiting : PendingValidation
waiting = record {
  entry_with_header = record { entry = Entry.app "pages" "text"; header = held_header };
  dependencies = [];
  workflow = ValidatingWorkflow.hold_entry;
}

reduce-pending_of_example :
    pending_of
      (reduce shard_codec ready (Action.add_pending_validation waiting))
      "page"
      ValidatingWorkflow.hold_entry
    ≡ pending_after shard_codec
        (Action.add_pending_validation waiting)
        (pending_of ready)
        "page"
        ValidatingWorkflow.hold_entry
reduce-pending_of_example =
    reduce-pending_of shard_codec ready (Action.add_pending_validation waiting) "page"
      ValidatingWorkflow.hold_entry
