-- ===== src/CoreTypes/Errors.antt =====
-- core_types/src/error/mod.rs, core_types/src/error/dna_error.rs, and the map to ribosome codes of
-- core_types/src/error/ribosome_error.rs. A `HashString` is its text.
use Prim.Native.String.{◌++◌ as text_append}
use holochain_rust.Prelude.{Result, String}
use holochain_rust.WasmMemory.Codes.{RibosomeErrorCode, unspecified, as_str}

pub data DnaError : Type 0 where
  zome_not_found : String → DnaError
  zome_function_not_found : String → DnaError
  trait_not_found : String → DnaError

pub data HolochainError : Type 0 where
  error_generic : String → HolochainError
  not_implemented : String → HolochainError
  logging_error dna_missing : HolochainError
  dna : DnaError → HolochainError
  io_error : String → HolochainError
  serialization_error : String → HolochainError
  invalid_operation_on_sys_entry capability_check_failed : HolochainError
  validation_failed : String → HolochainError
  validation_pending : HolochainError
  ribosome : RibosomeErrorCode → HolochainError
  ribosome_failed : String → HolochainError
  config_error : String → HolochainError
  timeout : HolochainError
  initialization_failed : String → HolochainError
  dna_hash_mismatch : String → String → HolochainError

abbrev pub HcResult {ℓ} : Type ℓ → Type ℓ
HcResult A = Result A HolochainError

-- `impl From<HolochainError> for RibosomeErrorCode`
unfoldable pub ribosome_error_code : HolochainError → RibosomeErrorCode
ribosome_error_code (error_generic s) = unspecified
ribosome_error_code (not_implemented s) = RibosomeErrorCode.callback_failed
ribosome_error_code logging_error = unspecified
ribosome_error_code dna_missing = unspecified
ribosome_error_code (dna e) = unspecified
ribosome_error_code (io_error s) = unspecified
ribosome_error_code (serialization_error s) = RibosomeErrorCode.argument_deserialization_failed
ribosome_error_code invalid_operation_on_sys_entry = RibosomeErrorCode.unknown_entry_type
ribosome_error_code capability_check_failed = unspecified
ribosome_error_code (validation_failed s) = RibosomeErrorCode.callback_failed
ribosome_error_code validation_pending = unspecified
ribosome_error_code (ribosome e) = e
ribosome_error_code (ribosome_failed s) = RibosomeErrorCode.callback_failed
ribosome_error_code (config_error s) = unspecified
ribosome_error_code timeout = unspecified
ribosome_error_code (initialization_failed s) = unspecified
ribosome_error_code (dna_hash_mismatch a b) = unspecified

-- `impl From<PoisonError<T>> for HolochainError`: a lock is poisoned when a writer panicked.
abbrev pub poison_error : HolochainError
poison_error = error_generic "sync poison error: poisoned lock: another task failed inside"

-- `impl fmt::Display for DnaError`
unfoldable pub dna_error_text : DnaError → String
dna_error_text (zome_not_found s) = s
dna_error_text (trait_not_found s) = s
dna_error_text (zome_function_not_found s) = s

-- `impl fmt::Display for HolochainError`
unfoldable pub error_text : HolochainError → String
unfolding dna_error_text as_str
error_text (error_generic s) = s
error_text (not_implemented s) = text_append "not implemented: " s
error_text logging_error = "logging failed"
error_text dna_missing = "DNA is missing"
error_text (dna e) = dna_error_text e
error_text (io_error s) = s
error_text (serialization_error s) = s
error_text invalid_operation_on_sys_entry = "operation cannot be done on a system entry type"
error_text capability_check_failed = "Caller does not have Capability to make that call"
error_text (validation_failed s) = s
error_text validation_pending = "Entry validation could not be completed"
error_text (ribosome e) = as_str e
error_text (ribosome_failed s) = s
error_text (config_error s) = s
error_text timeout = "timeout"
error_text (initialization_failed s) = s
error_text (dna_hash_mismatch a b) =
    text_append "Provided DNA hash does not match actual DNA hash! "
      (text_append a (text_append " != " b))
