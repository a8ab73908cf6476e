-- ===== src/Store/Calls.antt =====
-- src/database/sqlite and src/storage/filesystem.rs: the calls that the modelled code makes, by what
-- their statements do to the tables and to the stored bytes.
use yanuget.Prelude.{
  zero, suc, ℕ, Bool, not, ◌&&◌, Option, none, some, List, [], ◌∷◌, map, any, retain, length,
  if◌then◌else◌,
}
use yanuget.Text.{Text, text_eq}
use yanuget.Store.{
  Key, same_key, Membership, Tombstone, PackageRow, FileRow, SymbolName, same_symbol, Io, call,
  quiet_call,
}

abbrev pub is_member : Text → Key → Membership → Bool
is_member feed key m = text_eq m.feed feed && same_key m.key key

-- `INSERT OR IGNORE` of a tombstone
abbrev pub add_tombstone : Text → Key → List Tombstone → List Tombstone
add_tombstone feed key ts =
    if any (λ t. text_eq t.feed feed && same_key t.key key) ts
    then ts
    else record { feed = feed; key = key } ∷ ts

-- a membership and its tombstone in one transaction
unfoldable pub remove_membership_for_good : Text → Key → Io Bool
remove_membership_for_good feed key = call λ s.
    let removed = any (is_member feed key) s.members in
    (
      removed,
      record s {
        members = retain (λ m. not (is_member feed key m)) s.members;
        tombstones = if removed then add_tombstone feed key s.tombstones else s.tombstones;
      },
    )

abbrev pub first_that : {A : Type 0} → (A → Bool) → List A → Option A
first_that p [] = none
first_that p (x ∷ xs) = let later = first_that p xs in if p x then some x else later

unfoldable pub get_membership : Text → Key → Io (Option Membership)
get_membership feed key = call λ s. (first_that (is_member feed key) s.members, s)

unfoldable pub feed_count : Key → Io ℕ
feed_count key = call λ s. (length (retain (λ m. same_key m.key key) s.members), s)

unfoldable pub find_symbols : Key → Io (List SymbolName)
find_symbols key = call λ s. (map (λ r. r.name) (retain (λ r. same_key r.key key) s.symbols), s)

unfoldable pub delete_symbols : Key → Io (Unit {0})
delete_symbols key =
    call λ s. (tt, record s { symbols = retain (λ r. not (same_key r.key key)) s.symbols })

-- the removal of the file, whose error is dropped
unfoldable pub delete_symbol : SymbolName → Io (Unit {0})
delete_symbol name =
    quiet_call
      λ s. (tt, record s { symbol_files = retain (λ y. not (same_symbol name y)) s.symbol_files })

unfoldable pub files_for : Key → Io (List FileRow)
files_for key = call λ s. (retain (λ f. same_key f.key key) s.files, s)

unfoldable pub blob_references : Text → Io ℕ
blob_references sha = call λ s. (length (retain (λ f. text_eq f.sha256 sha) s.files), s)

unfoldable pub delete_blob : Text → Io (Unit {0})
delete_blob sha = call λ s. (tt, record s { blobs = retain (λ b. not (text_eq sha b)) s.blobs })

unfoldable pub delete : Key → Io (Unit {0})
delete key = call λ s. (tt, record s { payloads = retain (λ k. not (same_key k key)) s.payloads })

-- one statement; the foreign keys take the rows of the version in every table with it
unfoldable pub delete_package_data : Key → Io Bool
delete_package_data key = call λ s. (
  any (λ p. same_key p.key key) s.packages,
  record s {
    packages = retain (λ p. not (same_key p.key key)) s.packages;
    members = retain (λ m. not (same_key m.key key)) s.members;
    files = retain (λ f. not (same_key f.key key)) s.files;
    symbols = retain (λ r. not (same_key r.key key)) s.symbols;
  },
)

unfoldable pub package_data_exists : Key → Io Bool
package_data_exists key = call λ s. (any (λ p. same_key p.key key) s.packages, s)

unfoldable pub get_package_data : Key → Io (Option PackageRow)
get_package_data key = call λ s. (first_that (λ p. same_key p.key key) s.packages, s)

-- versions that no feed holds, up to a limit
abbrev take_rows : ℕ → List PackageRow → List PackageRow
take_rows zero rows = []
take_rows (suc n) [] = []
take_rows (suc n) (r ∷ rows) = r ∷ take_rows n rows

unfoldable pub orphaned_versions : ℕ → Io (List PackageRow)
orphaned_versions limit = call λ s.
    (take_rows limit (retain (λ p. not (any (λ m. same_key m.key p.key) s.members)) s.packages), s)

-- the stored blobs: files whose names are no blob's are not among them, and the order is left open
unfoldable pub list_blobs : Io (List Text)
list_blobs = call λ s. (s.blobs, s)
