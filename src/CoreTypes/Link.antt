-- ===== src/CoreTypes/Link.antt =====
-- core_types/src/link: links between entries and the data of link entries.
use holochain_rust.Prelude.{String}

pub record Link : Type 0 where
  pub base : String
  pub target : String
  pub link_type : String
  pub tag : String

pub data LinkActionKind : Type 0 where
  add_link remove_link : LinkActionKind

pub record LinkData : Type 0 where
  pub action_kind : LinkActionKind
  pub link : Link

unfoldable pub new_add : String → String → String → String → LinkData
new_add base target link_type tag = record {
  action_kind = add_link;
  link = record { base = base; target = target; link_type = link_type; tag = tag };
}

unfoldable pub new_delete : String → String → String → String → LinkData
new_delete base target link_type tag = record {
  action_kind = remove_link;
  link = record { base = base; target = target; link_type = link_type; tag = tag };
}

unfoldable pub from_link : Link → LinkActionKind → LinkData
from_link l kind = record { action_kind = kind; link = l }

unfoldable pub add_from_link : Link → LinkData
unfolding from_link
add_from_link l = from_link l add_link

unfoldable pub remove_from_link : Link → LinkData
unfolding from_link
remove_from_link l = from_link l remove_link
