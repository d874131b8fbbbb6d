-- ===== src/Repository/AddressBooks.antt =====
-- Address books of api/internal/repository/memory.go.
use opendesk_remote.Prelude.{
  ℤ, Bool, ◌||◌, not, Time, List, [], ◌∷◌, ◌++◌, keep, any, find_first, modify_first, inc64, is_pos,
  trim_space, message, not_found, Result, ok, ◌==◌, ◌!=◌, string_eq, int_has_eq,
}
use opendesk_remote.Models.Fleet.{AddressBook, AddressBookEntry}
use opendesk_remote.Repository.{Memory, guarded, on_found, numbered}
use opendesk_remote.Repository.Lookup.{changed}

new_entry : ℤ → Time → ℤ → AddressBookEntry → AddressBookEntry
new_entry book_id now id entry = record entry {
  id = id;
  address_book_id = book_id;
  alias = trim_space entry.alias;
  created_at = now;
}

unfoldable pub create_address_book : Memory → Time → AddressBook → Memory × Result AddressBook
unfolding new_entry
create_address_book m now book =
    let id = inc64 m.next_id in
    let entries = numbered (new_entry id now) id book.entries in
    let row = record book {
      id = id;
      name = trim_space book.name;
      description = trim_space book.description;
      entries = entries.1;
      created_at = now;
      updated_at = now;
    } in
    guarded (trim_space book.name == "") (message "name is required") m (
      guarded (any (λ entry. not (is_pos entry.device_id)) book.entries)
        (message "entry device_id must be positive") m
        (record m { next_id = entries.0; address_books = m.address_books ++ (row ∷ []) }, ok row))

unfoldable pub list_address_book_entries : Memory → ℤ → Result (List AddressBookEntry)
list_address_book_entries m book_id =
    changed (λ (book : AddressBook). book.entries)
      (find_first (λ book. book.id == book_id) m.address_books)

abbrev pub has_device : ℤ → AddressBook → Bool
has_device device_id book = any (λ entry. entry.device_id == device_id) book.entries

with_entry : Time → AddressBookEntry → AddressBook → AddressBook
with_entry now entry book = record book { entries = book.entries ++ (entry ∷ []); updated_at = now }

-- On the book that was found.
add_to_book : Memory → Time → ℤ → AddressBookEntry → AddressBook → Memory × Result AddressBook
unfolding new_entry with_entry
add_to_book m now book_id entry book =
    let row = new_entry book_id now (inc64 m.next_id) entry in
    guarded (has_device entry.device_id book) (message "address book entry already exists") m (
      record m {
        next_id = inc64 m.next_id;
        address_books =
            modify_first (λ (other : AddressBook). other.id == book_id) (with_entry now row)
              m.address_books;
      },
      ok (with_entry now row book),
    )

unfoldable pub add_address_book_entry :
    Memory → Time → ℤ → AddressBookEntry → Memory × Result AddressBook
unfolding add_to_book
add_address_book_entry m now book_id entry =
    guarded (not (is_pos book_id) || not (is_pos entry.device_id))
      (message "book_id and device_id must be positive") m
      (on_found m (find_first (λ book. book.id == book_id) m.address_books)
        (add_to_book m now book_id entry))

without_entry : Time → ℤ → AddressBook → AddressBook
without_entry now entry_id book = record book {
  entries = keep (λ (entry : AddressBookEntry). entry.id != entry_id) book.entries;
  updated_at = now;
}

remove_from_book : Memory → Time → ℤ → ℤ → AddressBook → Memory × Result AddressBook
unfolding without_entry
remove_from_book m now book_id entry_id book =
    guarded (not (any (λ entry. entry.id == entry_id) book.entries)) not_found m (
      record m {
        address_books =
            modify_first (λ (other : AddressBook). other.id == book_id) (without_entry now entry_id)
              m.address_books;
      },
      ok (without_entry now entry_id book),
    )

unfoldable pub remove_address_book_entry : Memory → Time → ℤ → ℤ → Memory × Result AddressBook
unfolding remove_from_book
remove_address_book_entry m now book_id entry_id =
    guarded (not (is_pos book_id) || not (is_pos entry_id))
      (message "book_id and entry_id must be positive") m
      (on_found m (find_first (λ book. book.id == book_id) m.address_books)
        (remove_from_book m now book_id entry_id))
