-- ===== src/Eav/Attribute.antt =====
-- `Attribute` of core_types/src/eav/eavi.rs.
use holochain_rust.Prelude.{
  Eq, ◌==◌, String, ◌≡◌, refl, ◌↔◌, Bool, true, false, ◌&&◌, arith, eq_iff, eq_refl, string_eq,
}
use Prim.Native.String.{◌++◌ as text_append}

pub data Attribute : Type 0 where
  crud_status crud_link entry_header link link_remove : Attribute
  link_tag : String → String → Attribute
  removed_link : String → String → Attribute
  pending_entry : Attribute

unfoldable pub attribute_beq : Attribute → Attribute → Bool
attribute_beq crud_status crud_status = true
attribute_beq crud_link crud_link = true
attribute_beq entry_header entry_header = true
attribute_beq link link = true
attribute_beq link_remove link_remove = true
attribute_beq (link_tag a b) (link_tag c d) = a == c && b == d
attribute_beq (removed_link a b) (removed_link c d) = a == c && b == d
attribute_beq pending_entry pending_entry = true
attribute_beq _ _ = false

attribute_beq_sound : (a b : Attribute) → attribute_beq a b ≡ true → a ≡ b
unfolding attribute_beq
attribute_beq_sound (link_tag a b) (link_tag c d) h = ground (arith, eq_iff a c, eq_iff b d)
attribute_beq_sound (removed_link a b) (removed_link c d) h = ground (arith, eq_iff a c, eq_iff b d)
attribute_beq_sound crud_link crud_link h = refl
attribute_beq_sound _ _ h = ground arith

attribute_beq_refl : (a : Attribute) → attribute_beq a a ≡ true
unfolding attribute_beq
attribute_beq_refl (link_tag a b) = ground (arith, eq_refl a, eq_refl b)
attribute_beq_refl (removed_link a b) = ground (arith, eq_refl a, eq_refl b)
attribute_beq_refl _ = refl

pub attribute_beq_iff : (a b : Attribute) → (attribute_beq a b ≡ true) ↔ (a ≡ b)
attribute_beq_iff a b = (attribute_beq_sound a b, λ e. rw e (attribute_beq_refl b))

instance abbrev pub attribute_eq : Eq Attribute
attribute_eq = record { test = attribute_beq; test_iff = attribute_beq_iff }

-- `impl fmt::Display for Attribute`
unfoldable pub display : Attribute → String
display crud_status = "crud-status"
display crud_link = "crud-link"
display entry_header = "entry-header"
display link = "link"
display link_remove = "link_remove"
display (link_tag link_type tag) =
    text_append "link__" (text_append link_type (text_append "__" tag))
display (removed_link link_type tag) =
    text_append "removed_link__" (text_append link_type (text_append "__" tag))
display pending_entry = "pending-entry"
