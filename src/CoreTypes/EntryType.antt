-- ===== src/CoreTypes/EntryType.antt =====
-- core_types/src/entry/entry_type.rs: entry types and their names.
use text.Mathlib.Text.{get?}
use holochain_rust.Prelude.{
  if◌then◌else◌, Eq, ◌==◌, All, String, ◌≡◌, refl, ap, ◌↔◌, Bool, true, false, not, Option, none,
  some, List, [], ◌∷◌, arith, eq_iff, eq_refl, string_eq,
}

-- An `AppEntryType` is its name.
pub data EntryType : Type 0 where
  app : String → EntryType
  dna agent_id deletion link_add link_remove link_list : EntryType
  chain_header chain_migrate cap_token_grant cap_token_claim : EntryType

unfoldable pub is_app : EntryType → Bool
is_app (app name) = true
is_app _ = false

unfoldable pub is_sys : EntryType → Bool
unfolding is_app
is_sys t = not (is_app t)

-- `impl FromStr for EntryType`, which never fails
unfoldable pub from_str : String → EntryType
from_str s =
    if s == "%agent_id"
    then agent_id
    else if s == "%deletion"
    then deletion
    else if s == "%dna"
    then dna
    else if s == "%chain_header"
    then chain_header
    else if s == "%link_add"
    then link_add
    else if s == "%link_remove"
    then link_remove
    else if s == "%link_list"
    then link_list
    else if s == "%chain_migrate"
    then chain_migrate
    else if s == "%cap_token_claim"
    then cap_token_claim
    else if s == "%cap_token_grant"
    then cap_token_grant
    else app s

-- `impl From<EntryType> for String`
unfoldable pub to_string : EntryType → String
to_string (app name) = name
to_string agent_id = "%agent_id"
to_string deletion = "%deletion"
to_string dna = "%dna"
to_string chain_header = "%chain_header"
to_string link_add = "%link_add"
to_string link_remove = "%link_remove"
to_string link_list = "%link_list"
to_string chain_migrate = "%chain_migrate"
to_string cap_token_claim = "%cap_token_claim"
to_string cap_token_grant = "%cap_token_grant"

-- `EntryType::has_valid_app_name`; `none` is the panic of `name[0..1]` inside of a character.
unfoldable pub has_valid_app_name : String → Option Bool
has_valid_app_name s =
    if s == ""
    then some false
    else elim (get? s 0 1) [ none ↦ none | some first ↦ some (not (first == "%")) ]

unfoldable pub type_beq : EntryType → EntryType → Bool
type_beq (app a) (app b) = a == b
type_beq dna dna = true
type_beq agent_id agent_id = true
type_beq deletion deletion = true
type_beq link_add link_add = true
type_beq link_remove link_remove = true
type_beq link_list link_list = true
type_beq chain_header chain_header = true
type_beq chain_migrate chain_migrate = true
type_beq cap_token_grant cap_token_grant = true
type_beq cap_token_claim cap_token_claim = true
type_beq _ _ = false

type_beq_sound : (a b : EntryType) → type_beq a b ≡ true → a ≡ b
unfolding type_beq
type_beq_sound (app a) (app b) h = ap app ((eq_iff a b).0 h)
type_beq_sound dna dna h = refl
type_beq_sound _ _ h = ground arith

type_beq_refl : (a : EntryType) → type_beq a a ≡ true
unfolding type_beq
type_beq_refl (app a) = eq_refl a
type_beq_refl dna = refl
type_beq_refl _ = refl

pub type_beq_iff : (a b : EntryType) → (type_beq a b ≡ true) ↔ (a ≡ b)
type_beq_iff a b = (type_beq_sound a b, λ e. rw e (type_beq_refl b))

instance abbrev pub entry_type_eq : Eq EntryType
entry_type_eq = record { test = type_beq; test_iff = type_beq_iff }

-- The names of the system types, none of which is a valid name of an app entry type.
abbrev sys_names : List String
sys_names =
    "%agent_id" ∷ "%deletion" ∷ "%dna" ∷ "%chain_header" ∷ "%link_add" ∷ "%link_remove"
    ∷ "%link_list" ∷ "%chain_migrate" ∷ "%cap_token_claim" ∷ "%cap_token_grant" ∷ []

sys_names_invalid : All (λ s. has_valid_app_name s ≡ some false) sys_names
unfolding has_valid_app_name
sys_names_invalid =
    (refl, (refl, (refl, (refl, (refl, (refl, (refl, (refl, (refl, (refl, tt))))))))))

-- a text that is not a listed name
abbrev Differs : String → List String → Type 0
Differs name [] = Unit
Differs name (s ∷ ss) = (name == s ≡ false) × Differs name ss

Differs-of_valid :
    (name : String) (names : List String)
    → has_valid_app_name name ≡ some true
    → All (λ s. has_valid_app_name s ≡ some false) names
    → Differs name names
Differs-of_valid name [] v bad = tt
Differs-of_valid name (s ∷ ss) v bad =
    (ground (arith, eq_iff name s, bad.0), Differs-of_valid name ss v bad.1)

-- Printing an entry type and parsing the name gives the type back, if the name of an app entry
-- type is a valid one.
pub from_str-to_string :
    (t : EntryType)
    → ((name : String) → t ≡ app name → has_valid_app_name name ≡ some true)
    → from_str (to_string t) ≡ t
unfolding from_str to_string
from_str-to_string (app name) h =
    let d = Differs-of_valid name sys_names (h name refl) sys_names_invalid in ground arith
from_str-to_string dna h = refl
from_str-to_string _ h = refl

-- Parsing a name and printing the type gives the name back, for every text.
pub to_string-from_str : (s : String) → to_string (from_str s) ≡ s
unfolding from_str to_string
to_string-from_str s = ground (
  arith,
  eq_iff s "%agent_id",
  eq_iff s "%deletion",
  eq_iff s "%dna",
  eq_iff s "%chain_header",
  eq_iff s "%link_add",
  eq_iff s "%link_remove",
  eq_iff s "%link_list",
  eq_iff s "%chain_migrate",
  eq_iff s "%cap_token_claim",
  eq_iff s "%cap_token_grant",
)
