-- ===== src/Net/Book.antt =====
-- net/src/in_memory/memory_book.rs: which cell has which data under which address. A `HashSet` is
-- a map to nothing.
pub mod Laws
use Prim.Native.String.{◌++◌ as text_append}
use holochain_rust.Prelude.HashMap
use holochain_rust.Prelude.HashMap.{Map}
use holochain_rust.Prelude.{String, Bool, false, Option, none, some, [], string_eq}
use holochain_rust.CoreTypes.Entry.{entry_address}
use holochain_rust.Net.Protocol.{MetaTuple}

-- `format!("{}::{}", dna_address, agent_id)`
unfoldable pub into_cell_id : String → String → String
into_cell_id dna_address agent_id = text_append dna_address (text_append "::" agent_id)

-- `format!("{}||{}||{}", …)`
unfoldable pub into_meta_id : MetaTuple → String
into_meta_id (address, attribute, content) =
    text_append address (text_append "||" (text_append attribute (text_append "||" content)))

abbrev pub HashSet : Type 0
HashSet = Map String (Unit {0})

abbrev pub EntryBook : Type 0
EntryBook = Map String HashSet

abbrev pub CellBook : Type 0
CellBook = Map String EntryBook

-- The set under a base address, extended or created.
unfoldable pub keep_in_entry_book : EntryBook → String → String → EntryBook
keep_in_entry_book book base data_address = elim (HashMap.get book base) [
  | some meta_set ↦ HashMap.insert book base (HashMap.insert meta_set data_address tt)
  | none ↦ HashMap.insert book base (HashMap.insert [] data_address tt)
]

unfoldable pub bookkeep_with_cell_id : CellBook → String → String → String → CellBook
unfolding keep_in_entry_book
bookkeep_with_cell_id book cell_id base data_address = elim (HashMap.get book cell_id) [
  | some entry_book ↦ HashMap.insert book cell_id (keep_in_entry_book entry_book base data_address)
  | none ↦ HashMap.insert book cell_id (HashMap.insert [] base (HashMap.insert [] data_address tt))
]

unfoldable pub bookkeep : CellBook → String → String → String → String → CellBook
unfolding bookkeep_with_cell_id into_cell_id
bookkeep book dna_address agent_id base data_address =
    bookkeep_with_cell_id book (into_cell_id dna_address agent_id) base data_address

unfoldable pub set_has : Option HashSet → String → Bool
set_has none data_address = false
set_has (some s) data_address = HashMap.contains_key s data_address

unfoldable pub entry_book_has : Option EntryBook → String → String → Bool
unfolding set_has
entry_book_has none base data_address = false
entry_book_has (some b) base data_address = set_has (HashMap.get b base) data_address

unfoldable pub book_has : CellBook → String → String → String → Bool
unfolding entry_book_has
book_has book cell_id base data_address =
    entry_book_has (HashMap.get book cell_id) base data_address

unfoldable pub book_has_entry : CellBook → String → String → Bool
unfolding book_has
book_has_entry book cell_id entry_address = book_has book cell_id entry_address entry_address
