-- ===== src/CoreTypes/Header.antt =====
-- `ChainHeader` of core_types/src/chain_header.rs and `Provenance` of core_types/src/signature.rs.
-- An `Address` and a `Signature` are their texts, a time stamp is its seconds.
use holochain_rust.Prelude.{ℕ, String, Option, List}
use holochain_rust.CoreTypes.EntryType.{EntryType}

pub record Provenance : Type 0 where
  pub source : String
  pub signature : String

pub record ChainHeader : Type 0 where
  pub entry_type : EntryType
  pub entry_address : String
  pub provenances : List Provenance
  pub link : Option String
  pub link_same_type : Option String
  pub link_update_delete : Option String
  pub timestamp : ℕ
