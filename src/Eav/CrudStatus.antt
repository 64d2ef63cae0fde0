-- ===== src/Eav/CrudStatus.antt =====
-- core_types/src/crud_status.rs: the life of an entry, kept as items of the store.
use holochain_rust.Prelude.{ℕ, String, Bool}
use holochain_rust.CoreTypes.Errors.{HcResult}
use holochain_rust.Eav.Eavi.{new_with_index, Eavi}
use holochain_rust.Eav.Attribute.{Attribute}

pub data CrudStatus : Type 0 where
  live rejected deleted modified locked : CrudStatus

-- `impl From<CrudStatus> for String`: the letters of the JSON text, whose names are lower case.
unfoldable pub status_string : CrudStatus → String
status_string live = "live"
status_string rejected = "rejected"
status_string deleted = "deleted"
status_string modified = "modified"
status_string locked = "locked"

-- `EntityAttributeValueIndex::new` at the clock's time
unfoldable pub create_crud_status_eav : (String → Bool) → ℕ → String → CrudStatus → HcResult Eavi
unfolding new_with_index status_string
create_crud_status_eav is_match now address status =
    new_with_index is_match address Attribute.crud_status (status_string status) now

unfoldable pub create_crud_link_eav : (String → Bool) → ℕ → String → String → HcResult Eavi
unfolding new_with_index
create_crud_link_eav is_match now from to = new_with_index is_match from Attribute.crud_link to now
