-- ===== src/Net/Book/Laws.antt =====
-- A book is a set of triples: what one entry in it adds.
use holochain_rust.Prelude.HashMap
use holochain_rust.Prelude.{
  Option-cases, ◌==◌, String, ◌≡◌, inl, inr, ◌&&◌, ◌||◌, some, [], arith, eq_iff, string_eq,
}
use holochain_rust.Net.Book.{
  set_has, HashSet, bookkeep_with_cell_id, CellBook, book_has, EntryBook, keep_in_entry_book,
  entry_book_has,
}

set_has-insert :
    (s : HashSet) (d d' : String)
    → set_has (some (HashMap.insert s d tt)) d' ≡ (d == d' || set_has (some s) d')
unfolding set_has HashMap.contains_key
set_has-insert s d d' = ground (arith, HashMap.get-insert s d d' tt)

set_has-insert_nil : (d d' : String) → set_has (some (HashMap.insert [] d tt)) d' ≡ (d == d')
unfolding set_has HashMap.contains_key
set_has-insert_nil d d' =
    ground (arith, HashMap.get-insert {V = Unit {0}} [] d d' tt, HashMap.get-nil {V = Unit {0}} d')

keep_in_entry_book_lem :
    (b : EntryBook) (base d base' d' : String)
    → entry_book_has (some (keep_in_entry_book b base d)) base' d'
      ≡ ((base == base' && d == d') || entry_book_has (some b) base' d')
unfolding keep_in_entry_book entry_book_has
keep_in_entry_book_lem b base d base' d' = elim (Option-cases (HashMap.get b base)) [
  | inl missing ↦ ground (
    arith,
    eq_iff base base',
    HashMap.get-insert b base base' (HashMap.insert [] d tt),
    set_has-insert_nil d d',
  )
  | inr (meta_set, found) ↦ ground (
    arith,
    eq_iff base base',
    HashMap.get-insert b base base' (HashMap.insert meta_set d tt),
    set_has-insert meta_set d d',
  )
]

new_entry_book_lem :
    (base d base' d' : String)
    → entry_book_has (some (HashMap.insert [] base (HashMap.insert [] d tt))) base' d'
      ≡ (base == base' && d == d')
unfolding entry_book_has
new_entry_book_lem base d base' d' = ground (
  arith,
  HashMap.get-insert {V = HashSet} [] base base' (HashMap.insert [] d tt),
  HashMap.get-nil {V = HashSet} base',
  set_has-insert_nil d d',
)

-- After an address is kept under a cell and a base, the book has exactly the triples that it had
-- and the new one.
pub book_has-bookkeep_with_cell_id :
    (book : CellBook) (cell base d cell' base' d' : String)
    → book_has (bookkeep_with_cell_id book cell base d) cell' base' d'
      ≡ ((cell == cell' && base == base' && d == d') || book_has book cell' base' d')
unfolding bookkeep_with_cell_id book_has
book_has-bookkeep_with_cell_id book cell base d cell' base' d' =
    elim (Option-cases (HashMap.get book cell)) [
      | inl missing ↦ ground (
        arith,
        eq_iff cell cell',
        HashMap.get-insert book cell cell' (HashMap.insert [] base (HashMap.insert [] d tt)),
        new_entry_book_lem base d base' d',
      )
      | inr (b, found) ↦ ground (
        arith,
        eq_iff cell cell',
        HashMap.get-insert book cell cell' (keep_in_entry_book b base d),
        keep_in_entry_book_lem b base d base' d',
      )
    ]
