-- ===== src/Eav/Eavi.antt =====
-- `EntityAttributeValueIndex` of core_types/src/eav/eavi.rs. An `Address` is its text. An index,
-- an `i64`, is held as its distance from `i64::min_value()`: a number below 2 ^ 64 with the order
-- and the wrap-around of the signed one.
use holochain_rust.Prelude.{
  ltb, if◌then◌else◌, ◌==◌, ok, err, and_then, ℕ, ◌+◌, ◌%◌, ◌^◌, String, Bool, List, [], ◌∷◌,
  nat_eq,
}
use holochain_rust.CoreTypes.Errors.{HcResult, error_generic}
use holochain_rust.Eav.Attribute.{Attribute}

pub record Eavi : Type 0 where
  pub entity : String
  pub attribute : Attribute
  pub value : String
  pub index : ℕ

-- `index + 1`
abbrev pub next_index : ℕ → ℕ
next_index i = (i + 1) % 2 ^ 64

-- The name of a link must not match the regular expression; `is_match` is that of the `regex`
-- crate for the class of characters that the source writes.
unfoldable pub validate_attribute : (String → Bool) → Attribute → HcResult (Unit {0})
validate_attribute is_match (Attribute.link_tag name tag) =
    if is_match name then err (error_generic "Attribute name invalid") else ok tt
validate_attribute is_match (Attribute.removed_link name tag) =
    if is_match name then err (error_generic "Attribute name invalid") else ok tt
validate_attribute is_match _ = ok tt

-- `EntityAttributeValueIndex::new_with_index`; `new` passes the time of the clock.
unfoldable pub new_with_index : (String → Bool) → String → Attribute → String → ℕ → HcResult Eavi
unfolding validate_attribute
new_with_index is_match entity attribute value timestamp =
    and_then (validate_attribute is_match attribute)
      λ _. ok (record { entity = entity; attribute = attribute; value = value; index = timestamp })

-- `BTreeSet::insert`: the order compares indices only, and an equal element stays.
unfoldable pub set_insert : Eavi → List Eavi → List Eavi
set_insert e [] = e ∷ []
set_insert e (x ∷ xs) =
    let rest = set_insert e xs in
    if ltb e.index x.index then e ∷ x ∷ xs else if e.index == x.index then x ∷ xs else x ∷ rest

-- `collect()` into a `BTreeSet`: one insertion for each item.
unfoldable pub collect_from : List Eavi → List Eavi → List Eavi
collect_from acc [] = acc
collect_from acc (x ∷ xs) = collect_from (set_insert x acc) xs

abbrev pub collect : List Eavi → List Eavi
collect = collect_from []
