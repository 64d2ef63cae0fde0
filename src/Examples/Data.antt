-- ===== src/Examples/Data.antt =====
-- Runs of the data types and of the store of items.
use holochain_rust.Prelude.{
  Member, ok, String, ◌≡◌, refl, sym, ◌↔◌, ◌⊎◌, true, false, none, some, List, [], ◌∷◌, arith,
  string_eq, nat_eq,
}
use holochain_rust.Eav.Attribute.{Attribute}
use holochain_rust.CoreTypes.EntryType.{
  has_valid_app_name, from_str-to_string, from_str, to_string, app,
}
use holochain_rust.Eav.Storage.{
  increment_key_till_no_collision, EavMemoryStorage, add_eavi, increment_fuel,
}
use holochain_rust.Eav.Storage.Append.{add_eavi_lem, increment_total, Placed}
use holochain_rust.Eav.Query.{
  EavFilter, no_filter, EaviQuery, latest_by_attribute, IndexFilter, run, range,
}
use holochain_rust.Eav.Query.Latest.{
  Matches, run-IsLatest_iff, AtMost, AtLeast, run_range_iff, IsLatest,
}
use holochain_rust.Eav.Eavi.{Eavi}
use holochain_rust.Eav.Sorted.{IsSorted}

pages-valid : (name : String) → app "pages" ≡ app name → has_valid_app_name name ≡ some true
unfolding has_valid_app_name
pages-valid name e = let same : "pages" ≡ name = cc in rw (sym same) refl

from_str-to_string_example : from_str (to_string (app "pages")) ≡ app "pages"
from_str-to_string_example = from_str-to_string (app "pages") pages-valid

abbrev first : Eavi
first = record { entity = "e"; attribute = Attribute.entry_header; value = "v"; index = 5 }

abbrev second : Eavi
second = record { entity = "e"; attribute = Attribute.entry_header; value = "v"; index = 6 }

abbrev items : List Eavi
items = first ∷ second ∷ []

items-IsSorted : IsSorted items
items-IsSorted = ((omega arith, tt), (tt, tt))

abbrev any_attribute : EavFilter Attribute
any_attribute = no_filter

abbrev any_text : EavFilter String
any_text = no_filter

abbrev query_of : IndexFilter → EaviQuery
query_of filter = record {
  entity = any_text;
  attribute = any_attribute;
  value = any_text;
  index = filter;
}

run-IsLatest_iff_example : Member second (run (query_of latest_by_attribute) items) ↔ (
    Member second items
    × Matches (query_of latest_by_attribute) second
    × IsLatest any_attribute items second)
run-IsLatest_iff_example =
    run-IsLatest_iff any_text any_attribute any_text items second items-IsSorted

run_range_iff_example : Member second (run (query_of (range (some 6) none)) items) ↔ (
    Member second items
    × Matches (query_of (range (some 6) none)) second
    × AtLeast (some 6) second.index
    × AtMost none second.index)
run_range_iff_example =
    run_range_iff any_text any_attribute any_text (some 6) none items second items-IsSorted

increment_total_example :
    (increment_fuel 3 first items ≡ some (increment_key_till_no_collision first items))
    × Placed first items (increment_key_till_no_collision first items)
increment_total_example = increment_total first items (omega arith)

abbrev open_store : EavMemoryStorage
open_store = record { storage = items; poisoned = false }

abbrev poisoned_store : EavMemoryStorage
poisoned_store = record { storage = items; poisoned = true }

add_eavi_lem_example :
    (r : Eavi) × (t : EavMemoryStorage) × (add_eavi open_store first ≡ (ok (some r), t))
    × Placed first items r
    × IsSorted t.storage
    × (t.poisoned ≡ false)
    × ((y : Eavi) → Member y t.storage ↔ (Member y items ⊎ (y ≡ r)))
add_eavi_lem_example = add_eavi_lem open_store first refl items-IsSorted (omega arith)
