-- ===== src/Nucleus.antt =====
-- core/src/nucleus: the state of the nucleus and its reducers. A DNA is its JSON, a unique id of a
-- process is a number. A `HashMap` is an association list. The root state that a reducer is handed
-- is not used by any of them.
pub mod Lifecycle
pub mod Pending
use holochain_rust.Prelude.HashMap
use holochain_rust.Prelude.{
  Eq, ◌==◌, Result, ok, err, Map, ℕ, String, ◌≡◌, ◌↔◌, Bool, true, false, ◌&&◌, Option, none, some,
  [], arith, eq_iff, string_eq, nat_eq,
}
use holochain_rust.Actions.{
  Action, ExecuteZomeFnResponse, Initialization, PendingValidation, ValidatingWorkflow,
  ValidationPackage, ValidationResult, ZomeFnCall,
}
use holochain_rust.CoreTypes.Entry.{Codec, entry_address}
use holochain_rust.CoreTypes.Errors.{HcResult}
use Prim.Native.String.{◌++◌ as text_append}

pub data NucleusStatus : Type 0 where
  new initializing : NucleusStatus
  initialized : Initialization → NucleusStatus
  initialization_failed : String → NucleusStatus

abbrev pub call_beq : ZomeFnCall → ZomeFnCall → Bool
call_beq a b =
    a.id == b.id
    && a.zome_name == b.zome_name
    && a.cap == b.cap
    && a.fn_name == b.fn_name
    && a.parameters == b.parameters

pub call_beq_iff : (a b : ZomeFnCall) → (call_beq a b ≡ true) ↔ (a ≡ b)
call_beq_iff a b = (
  λ h. ground (
    arith,
    eq_iff a.zome_name b.zome_name,
    eq_iff a.cap b.cap,
    eq_iff a.fn_name b.fn_name,
    eq_iff a.parameters b.parameters,
  ),
  λ h. ground (
    arith,
    eq_iff a.zome_name b.zome_name,
    eq_iff a.cap b.cap,
    eq_iff a.fn_name b.fn_name,
    eq_iff a.parameters b.parameters,
  ),
)

instance abbrev pub call_eq : Eq ZomeFnCall
call_eq = record { test = call_beq; test_iff = call_beq_iff }

-- An id with an address
abbrev pub ResultKey : Type 0
ResultKey = ℕ × String

abbrev pub key_beq : ResultKey → ResultKey → Bool
key_beq (i, a) (j, b) = i == j && a == b

pub key_beq_iff : (k j : ResultKey) → (key_beq k j ≡ true) ↔ (k ≡ j)
key_beq_iff (i, a) (j, b) = (λ h. ground (arith, eq_iff a b), λ h. ground (arith, eq_iff a b))

instance abbrev pub result_key_eq : Eq ResultKey
result_key_eq = record { test = key_beq; test_iff = key_beq_iff }

pub record NucleusState : Type 0 where
  pub status : NucleusStatus
  pub pending_validations : Map String PendingValidation
  pub dna : Option String
  pub zome_calls : Map ZomeFnCall (Option (HcResult String))
  pub validation_results : Map ResultKey ValidationResult
  pub validation_packages : Map ℕ (HcResult ValidationPackage)

-- `NucleusState::new`
unfoldable pub new_nucleus_state : NucleusState
new_nucleus_state = record {
  status = new;
  pending_validations = [];
  dna = none;
  zome_calls = [];
  validation_results = [];
  validation_packages = [];
}

-- `impl fmt::Display for ValidatingWorkflow`
unfoldable pub workflow_name : ValidatingWorkflow → String
workflow_name ValidatingWorkflow.hold_entry = "HoldEntryWorkflow"
workflow_name ValidatingWorkflow.hold_link = "HoldLinkWorkflow"

-- `PendingValidationKey::new`
unfoldable pub pending_validation_key : String → ValidatingWorkflow → String
unfolding workflow_name
pending_validation_key address workflow =
    text_append (workflow_name workflow) (text_append ":" address)

unfoldable pub zome_call_result : NucleusState → ZomeFnCall → Option (HcResult String)
zome_call_result s call = elim (HashMap.get s.zome_calls call) [ none ↦ none | some value ↦ value ]

unfoldable pub has_initialized : NucleusState → Bool
has_initialized s = elim s.status [ initialized i ↦ true | _ ↦ false ]

unfoldable pub initialization : NucleusState → Option Initialization
initialization s = elim s.status [ initialized i ↦ some i | _ ↦ none ]

unfoldable pub has_initialization_failed : NucleusState → Bool
has_initialization_failed s = elim s.status [ initialization_failed m ↦ true | _ ↦ false ]

unfoldable pub reduce_initialize_chain : NucleusState → String → NucleusState
reduce_initialize_chain s dna = elim s.status [
  | initializing ↦ record s { status = initialization_failed "Nucleus already initializing" }
  | initialized i ↦ record s { status = initialization_failed "Nucleus already initialized" }
  | new ↦ record s { status = initializing; dna = some dna }
  | initialization_failed m ↦ record s { status = initializing; dna = some dna }
]

abbrev pub not_initializing : String
not_initializing = "reduce of ReturnInitializationResult attempted when status != Initializing"

abbrev pub status_of_result : Result Initialization String → NucleusStatus
status_of_result (ok i) = initialized i
status_of_result (err e) = initialization_failed e

unfoldable pub reduce_return_initialization_result :
    NucleusState → Result Initialization String → NucleusState
reduce_return_initialization_result s result = elim s.status [
  | initializing ↦ record s { status = status_of_result result }
  | _ ↦ record s { status = initialization_failed not_initializing }
]

unfoldable pub reduce_return_zome_function_result :
    NucleusState → ExecuteZomeFnResponse → NucleusState
reduce_return_zome_function_result s r = record s {
  zome_calls = HashMap.insert s.zome_calls r.call (some r.result);
}

unfoldable pub reduce_return_validation_result :
    NucleusState → ℕ → String → ValidationResult → NucleusState
reduce_return_validation_result s id hash result = record s {
  validation_results = HashMap.insert s.validation_results (id, hash) result;
}

unfoldable pub reduce_return_validation_package :
    NucleusState → ℕ → HcResult ValidationPackage → NucleusState
reduce_return_validation_package s id answer = record s {
  validation_packages = HashMap.insert s.validation_packages id answer;
}

unfoldable pub reduce_add_pending_validation :
    Codec → NucleusState → PendingValidation → NucleusState
unfolding entry_address pending_validation_key
reduce_add_pending_validation c s p =
    let address = entry_address c p.entry_with_header.entry in
    record s {
      pending_validations =
          HashMap.insert s.pending_validations (pending_validation_key address p.workflow) p;
    }

unfoldable pub reduce_remove_pending_validation :
    NucleusState → String → ValidatingWorkflow → NucleusState
unfolding pending_validation_key
reduce_remove_pending_validation s address workflow = record s {
  pending_validations =
      HashMap.remove s.pending_validations (pending_validation_key address workflow);
}

-- `reduce` with its `resolve_reducer`
unfoldable pub reduce : Codec → NucleusState → Action → NucleusState
unfolding reduce_add_pending_validation reduce_remove_pending_validation
    reduce_return_initialization_result reduce_initialize_chain reduce_return_zome_function_result
    reduce_return_validation_result reduce_return_validation_package
reduce c s (Action.add_pending_validation p) = reduce_add_pending_validation c s p
reduce c s (Action.remove_pending_validation address workflow) =
    reduce_remove_pending_validation s address workflow
reduce c s (Action.return_initialization_result result) =
    reduce_return_initialization_result s result
reduce c s (Action.initialize_chain dna) = reduce_initialize_chain s dna
reduce c s (Action.return_zome_function_result r) = reduce_return_zome_function_result s r
reduce c s (Action.return_validation_result id hash result) =
    reduce_return_validation_result s id hash result
reduce c s (Action.return_validation_package id answer) =
    reduce_return_validation_package s id answer
reduce c s _ = s

-- What a snapshot keeps of the state, and the state it is turned back into
pub record NucleusStateSnapshot : Type 0 where
  pub status : NucleusStatus
  pub pending_validations : Map String PendingValidation

unfoldable pub to_snapshot : NucleusState → NucleusStateSnapshot
to_snapshot s = record { status = s.status; pending_validations = s.pending_validations }

unfoldable pub from_snapshot : NucleusStateSnapshot → NucleusState
from_snapshot snapshot = record {
  status = snapshot.status;
  pending_validations = snapshot.pending_validations;
  dna = none;
  zome_calls = [];
  validation_results = [];
  validation_packages = [];
}
