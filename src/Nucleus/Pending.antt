-- ===== src/Nucleus/Pending.antt =====
-- The pending validations of the nucleus: their keys and what the reducers keep of them.
use holochain_rust.Prelude.HashMap
use holochain_rust.Prelude.{
  if◌then◌else◌, ◌==◌, String, ◌≡◌, refl, sym, ap, ◌∙◌, ◌≢◌, Bool, true, false, ◌&&◌, Option, none,
  some, arith, eq_iff, string_eq,
}
use Prim.Native.String.{◌++◌ as text_append, slice}
use text.Mathlib.TextLemmas.{append_assoc as text_append_assoc, append_cancel_left}
use text.Mathlib.TextPositions.{slice-append_left}
use holochain_rust.Actions.{ValidatingWorkflow, hold_entry, hold_link, Action, PendingValidation}
use holochain_rust.Nucleus.{
  pending_validation_key, workflow_name, reduce_add_pending_validation,
  reduce_return_validation_result, reduce_return_zome_function_result, NucleusState,
  reduce_return_validation_package, reduce_remove_pending_validation, reduce_initialize_chain,
  reduce_return_initialization_result, reduce,
}
use holochain_rust.CoreTypes.Entry.{Codec, entry_address}

false_differs : ¬ Path Bool false true
false_differs h = cc

letters_differ : ¬ Path String "HoldE" "HoldL"
letters_differ h = false_differs ((eq_iff "HoldE" "HoldL").1 h)

names_differ :
    (a b : String)
    → text_append "HoldEntryWorkflow" (text_append ":" a)
      ≢ text_append "HoldLinkWorkflow" (text_append ":" b)
names_differ a b h =
    let first = slice-append_left "HoldE" (text_append "ntryWorkflow" (text_append ":" a)) in
    let second = slice-append_left "HoldL" (text_append "inkWorkflow" (text_append ":" b)) in
    let left = text_append_assoc "HoldE" "ntryWorkflow" (text_append ":" a) in
    let right = text_append_assoc "HoldL" "inkWorkflow" (text_append ":" b) in
    let same : slice (text_append "HoldE" (text_append "ntryWorkflow" (text_append ":" a))) 0 5
        ≡ slice (text_append "HoldL" (text_append "inkWorkflow" (text_append ":" b))) 0 5 =
      ap (λ t. slice t 0 5) (sym left ∙ h ∙ right) in
    letters_differ (sym first ∙ same ∙ second)

-- Two pending validations have the same key only if they are of one address and one workflow.
pub pending_validation_key_injective :
    (a b : String) (v w : ValidatingWorkflow)
    → pending_validation_key a v ≡ pending_validation_key b w
    → (a ≡ b) × (v ≡ w)
unfolding pending_validation_key workflow_name
pending_validation_key_injective a b hold_entry hold_entry h = (
  append_cancel_left "HoldEntryWorkflow:" a b (
      text_append_assoc "HoldEntryWorkflow" ":" a
      ∙ h
      ∙ sym (text_append_assoc "HoldEntryWorkflow" ":" b)),
  refl,
)
pending_validation_key_injective a b hold_link hold_link h = (
  append_cancel_left "HoldLinkWorkflow:" a b (
      text_append_assoc "HoldLinkWorkflow" ":" a
      ∙ h
      ∙ sym (text_append_assoc "HoldLinkWorkflow" ":" b)),
  refl,
)
pending_validation_key_injective a b hold_entry hold_link h = absurd (names_differ a b h)
pending_validation_key_injective a b hold_link hold_entry h = absurd (names_differ b a (sym h))

abbrev pub workflow_beq : ValidatingWorkflow → ValidatingWorkflow → Bool
workflow_beq hold_entry hold_entry = true
workflow_beq hold_link hold_link = true
workflow_beq _ _ = false

key_test :
    (a b : String) (v w : ValidatingWorkflow)
    → (pending_validation_key a v == pending_validation_key b w) ≡ (a == b && workflow_beq v w)
key_test a b hold_entry hold_entry = ground (
  arith,
  eq_iff a b,
  eq_iff (pending_validation_key a hold_entry) (pending_validation_key b hold_entry),
  pending_validation_key_injective a b hold_entry hold_entry,
)
key_test a b hold_entry hold_link = ground (
  arith,
  eq_iff a b,
  eq_iff (pending_validation_key a hold_entry) (pending_validation_key b hold_link),
  pending_validation_key_injective a b hold_entry hold_link,
)
key_test a b hold_link hold_entry = ground (
  arith,
  eq_iff a b,
  eq_iff (pending_validation_key a hold_link) (pending_validation_key b hold_entry),
  pending_validation_key_injective a b hold_link hold_entry,
)
key_test a b hold_link hold_link = ground (
  arith,
  eq_iff a b,
  eq_iff (pending_validation_key a hold_link) (pending_validation_key b hold_link),
  pending_validation_key_injective a b hold_link hold_link,
)

-- The pending validation of an address in a workflow
abbrev pub pending_of : NucleusState → String → ValidatingWorkflow → Option PendingValidation
pending_of s address workflow =
    HashMap.get s.pending_validations (pending_validation_key address workflow)

-- What the pending validations promise: for each address and workflow the last one that was added
-- and not removed since.
abbrev pub pending_after :
    Codec
    → Action
    → (String → ValidatingWorkflow → Option PendingValidation)
    → String
    → ValidatingWorkflow
    → Option PendingValidation
pending_after c (Action.add_pending_validation p) old address workflow =
    if entry_address c p.entry_with_header.entry == address && workflow_beq p.workflow workflow
    then some p
    else old address workflow
pending_after c (Action.remove_pending_validation a v) old address workflow =
    if a == address && workflow_beq v workflow then none else old address workflow
pending_after c _ old address workflow = old address workflow

-- Keyed by a text, the pending validations behave as a map from addresses and workflows: every
-- action changes what its address and workflow say, and nothing else.
pub reduce-pending_of :
    (c : Codec) (s : NucleusState) (a : Action) (address : String) (workflow : ValidatingWorkflow)
    → pending_of (reduce c s a) address workflow ≡ pending_after c a (pending_of s) address workflow
unfolding reduce reduce_initialize_chain reduce_return_initialization_result
    reduce_add_pending_validation reduce_remove_pending_validation
    reduce_return_zome_function_result reduce_return_validation_result
    reduce_return_validation_package
reduce-pending_of c s (Action.add_pending_validation p) address workflow =
    let from = entry_address c p.entry_with_header.entry in
    ground (
      arith,
      HashMap.get-insert s.pending_validations (pending_validation_key from p.workflow)
          (pending_validation_key address workflow) p,
      key_test from address p.workflow workflow,
    )
reduce-pending_of c s (Action.remove_pending_validation a v) address workflow = ground (
  arith,
  HashMap.get-remove s.pending_validations (pending_validation_key a v)
      (pending_validation_key address workflow),
  key_test a address v workflow,
)
reduce-pending_of c s (Action.initialize_chain dna) address workflow = ground arith
reduce-pending_of c s (Action.return_initialization_result r) address workflow = ground arith
reduce-pending_of c s _ address workflow = refl
