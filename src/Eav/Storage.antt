-- ===== src/Eav/Storage.antt =====
-- `increment_key_till_no_collision` of core_types/src/eav/storage.rs and `EavMemoryStorage` of
-- cas_implementations/src/eav/memory.rs. The lock is the flag `poisoned`.
pub mod Append
use holochain_rust.Eav.Query.{run}
use holochain_rust.Prelude.{
  if◌then◌else◌, ◌==◌, length, any, ok, err, ℕ, zero, suc, Bool, Option, none, some, List, nat_eq,
}
use holochain_rust.CoreTypes.Errors.{HcResult, poison_error}
use holochain_rust.Eav.Query.{EaviQuery}
use holochain_rust.Eav.Eavi.{next_index, set_insert, Eavi}

pub record EavMemoryStorage : Type 0 where
  pub storage : List Eavi
  pub poisoned : Bool

abbrev pub occupied : List Eavi → ℕ → Bool
occupied l i = any (λ e. e.index == i) l

-- The recursion of `increment_key_till_no_collision`, on fuel; `none` means that it ran out.
unfoldable pub increment_fuel : ℕ → Eavi → List Eavi → Option Eavi
increment_fuel zero e l = none
increment_fuel (suc fuel) e l =
    let rest = increment_fuel fuel (record e { index = next_index e.index }) l in
    if occupied l e.index then rest else some e

abbrev pub or_self : Eavi → Option Eavi → Eavi
or_self e none = e
or_self e (some e') = e'

-- One step for each item of the store, and one more.
unfoldable pub increment_key_till_no_collision : Eavi → List Eavi → Eavi
unfolding increment_fuel
increment_key_till_no_collision e l = or_self e (increment_fuel (suc (length l)) e l)

unfoldable pub add_eavi : EavMemoryStorage → Eavi → HcResult (Option Eavi) × EavMemoryStorage
unfolding increment_key_till_no_collision set_insert
add_eavi s e =
    if s.poisoned
    then (err poison_error, s)
    else let new_eav = increment_key_till_no_collision e s.storage in
      (ok (some new_eav), record s { storage = set_insert new_eav s.storage })

unfoldable pub fetch_eavi : EavMemoryStorage → EaviQuery → HcResult (List Eavi)
unfolding run
fetch_eavi s q = if s.poisoned then err poison_error else ok (run q s.storage)
