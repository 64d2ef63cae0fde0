-- ===== src/CoreTypes/Entry.antt =====
-- core_types/src/entry: entries and their addresses. The payloads that no operation of the model
-- looks into (a DNA, a migration, capability tokens, the value of an app entry) are their JSON.
use holochain_rust.CoreTypes.EntryType.{EntryType}
use holochain_rust.Prelude.{String, List}
use holochain_rust.CoreTypes.Link.{Link, add_from_link, remove_from_link, LinkData}
use holochain_rust.CoreTypes.Errors.{HcResult}
use holochain_rust.CoreTypes.Header.{ChainHeader}

pub record AgentId : Type 0 where
  pub nick : String
  pub pub_sign_key : String

pub data Entry : Type 0 where
  app : String → String → Entry
  dna : String → Entry
  agent_id : AgentId → Entry
  deletion : String → Entry
  link_add : LinkData → Entry
  link_remove : LinkData → Entry
  link_list : List Link → Entry
  chain_header : ChainHeader → Entry
  chain_migrate : String → Entry
  cap_token_claim : String → Entry
  cap_token_grant : String → Entry

unfoldable pub entry_type : Entry → EntryType
entry_type (app name value) = EntryType.app name
entry_type (dna d) = EntryType.dna
entry_type (agent_id a) = EntryType.agent_id
entry_type (deletion a) = EntryType.deletion
entry_type (link_add l) = EntryType.link_add
entry_type (link_remove l) = EntryType.link_remove
entry_type (link_list l) = EntryType.link_list
entry_type (chain_header h) = EntryType.chain_header
entry_type (chain_migrate m) = EntryType.chain_migrate
entry_type (cap_token_claim c) = EntryType.cap_token_claim
entry_type (cap_token_grant c) = EntryType.cap_token_grant

-- `Link::add_entry`
unfoldable pub add_entry : Link → Entry
unfolding add_from_link
add_entry l = link_add (add_from_link l)

-- `Link::remove_entry`, which builds a `LinkAdd` entry too
unfoldable pub remove_entry : Link → Entry
unfolding remove_from_link
remove_entry l = link_add (remove_from_link l)

-- What the program takes from other crates: the JSON text of an entry and of a header and its
-- reading (`serde_json`), and the base 58 text of a SHA 256 hash (`multihash`, `rust_base58`).
pub record Codec : Type 0 where
  pub encode_from_str : String → String
  pub entry_content : Entry → String
  pub entry_of_content : String → HcResult Entry
  pub header_content : ChainHeader → String
  pub header_of_content : String → HcResult ChainHeader

-- `impl AddressableContent for Entry`
unfoldable pub entry_address : Codec → Entry → String
entry_address c (agent_id a) = a.pub_sign_key
entry_address c e = c.encode_from_str (c.entry_content e)

-- `impl AddressableContent for ChainHeader`, with the trait's own `address`
unfoldable pub header_address : Codec → ChainHeader → String
header_address c h = c.encode_from_str (c.header_content h)
