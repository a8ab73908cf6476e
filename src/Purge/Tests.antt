-- ===== src/Purge/Tests.antt =====
-- Runs of the purges and sweeps, and the theorems at them.
use yanuget.Prelude.{length, retain, Bool, true, false, [], ◌∷◌, ◌≡◌, refl, List}
use yanuget.Text.{Text, text}
use yanuget.Store.{
  SymbolRow, is_refused, Key, Membership, SymbolName, Store, Fate, goes_well, fails, fails_late,
}
use yanuget.Store.Triple.{Ends}
use yanuget.Store.Total.{answered}
use yanuget.Store.Calls.{
  remove_membership_for_good, feed_count, find_symbols, delete_symbols, delete_symbol, files_for,
  blob_references, delete_blob, delete, delete_package_data, package_data_exists, orphaned_versions,
}
use yanuget.Purge.{
  insert_sorted, sort, dedup, purge_blob, purge_symbols, purge_file_blobs, purge_global_data,
  purge_locked,
}
use yanuget.Purge.Symbols.{Indexed, all_rows}
use yanuget.Purge.Prune.{delete_all, no_outcome}
use yanuget.Purge.Prune.Withheld.{IsWithheld, delete_all-IsWithheld}
use yanuget.Purge.Retry.{purge_global_data-Indexed}
use yanuget.Purge.Shared.{IsShared, purge_global_data-IsShared}
use yanuget.Purge.Planned.{Shared, is_held_by_other, purge_locked-Shared}
use yanuget.Purge.Tombstones.{IsTombstoned, IsHeldOrTombstoned, purge_locked-IsTombstoned}
use yanuget.Purge.Sweep.{is_still_orphaned, sweep_orphan, sweep_orphans, sweep_unreferenced_blobs}
use yanuget.Purge.Sweep.Orphans.{IsServed, sweep_orphans-IsServed}
use yanuget.Purge.Sweep.Exact.{unreferenced, is_referenced, sweep_unreferenced_blobs-exact}
use yanuget.Purge.Sweep.Unreferenced.{IsStored, sweep_unreferenced_blobs-IsStored}

abbrev old : Key
old = record { id = text "contoso"; version = text "1.0.0" }

abbrev new : Key
new = record { id = text "contoso"; version = text "2.0.0" }

abbrev member : Text → Key → Membership
member feed key = record { feed = feed; key = key; pinned = false; pending = false; enabled = true }

abbrev pdb : SymbolName
pdb = record { ssqp = text "abc"; filename = text "a.pdb" }

-- two versions that share a blob; the older one has symbols and a blob of its own
abbrev two_versions : List Membership → Store
two_versions members = record {
  members = members;
  tombstones = [];
  packages = record { key = old; size = 10 } ∷ record { key = new; size = 20 } ∷ [];
  files =
      record { key = old; sha256 = text "b"; size = 1 }
      ∷ record { key = old; sha256 = text "a"; size = 1 }
      ∷ record { key = new; sha256 = text "a"; size = 1 }
      ∷ [];
  symbols = record { key = old; name = pdb } ∷ [];
  payloads = old ∷ new ∷ [];
  blobs = text "a" ∷ text "b" ∷ [];
  symbol_files = pdb ∷ [];
}

abbrev store : Store
store =
    two_versions
      (member (text "main") old ∷ member (text "main") new ∷ member (text "other") new ∷ [])

abbrev symbol_files_of : Store → List SymbolName
symbol_files_of s = s.symbol_files

abbrev symbols_of : Store → List SymbolRow
symbols_of s = s.symbols

abbrev blobs_of : Store → List Text
blobs_of s = s.blobs

blobs_after : blobs_of (purge_locked (text "main") old [] store).store ≡ text "a" ∷ []
unfolding purge_locked remove_membership_for_good feed_count purge_global_data purge_symbols
    find_symbols delete_symbol delete_symbols purge_file_blobs files_for insert_sorted sort dedup
    purge_blob blob_references delete_blob delete delete_package_data
blobs_after = refl

-- the third call, the deletion of the symbol rows, fails, though it took effect
abbrev third_fails : List Fate
third_fails = goes_well ∷ goes_well ∷ fails_late ∷ []

-- the file system refuses nothing
abbrev seen : Fate → Bool
seen goes_well = true
seen fails = true
seen fails_late = true
seen is_refused = false

store-Indexed : Indexed seen all_rows store
store-Indexed = record {
  blobs_indexed = (refl, (refl, tt));
  symbols_indexed = λ e. (refl, tt);
  payloads_indexed = (refl, (refl, tt));
}

purge_global_data-Indexed_example :
    Indexed seen all_rows (purge_global_data old third_fails store).store
purge_global_data-Indexed_example =
    purge_global_data-Indexed seen old third_fails store (refl, (refl, (refl, tt))) store-Indexed

purge_global_data-IsShared_example :
    IsShared old (text "a") (purge_global_data old third_fails store).store
purge_global_data-IsShared_example =
    purge_global_data-IsShared old (text "a") third_fails store
      (record { file = refl; blob = refl })

purge_locked-Shared_example :
    Shared store (purge_locked (text "main") new [] store).store
    × (is_held_by_other (text "main") new (purge_locked (text "main") new [] store).store ≡ true)
purge_locked-Shared_example = purge_locked-Shared (text "main") new [] store refl

purge_locked-IsTombstoned_example :
    Ends
      (λ removed t. IsTombstoned (text "main") old t)
      (IsHeldOrTombstoned (text "main") old)
      (purge_locked (text "main") old third_fails store)
purge_locked-IsTombstoned_example =
    purge_locked-IsTombstoned (text "main") old third_fails store refl

abbrev pinned_store : Store
pinned_store =
    two_versions (
      record { feed = text "main"; key = old; pinned = true; pending = false; enabled = true } ∷ [])

-- nobody holds the older version
abbrev orphaned_store : Store
orphaned_store = two_versions (member (text "main") new ∷ [])

orphan_swept : blobs_of (sweep_orphans [] orphaned_store).store ≡ text "a" ∷ []
unfolding sweep_orphans orphaned_versions sweep_orphan is_still_orphaned feed_count
    package_data_exists purge_global_data purge_symbols find_symbols delete_symbol delete_symbols
    purge_file_blobs files_for insert_sorted sort dedup purge_blob blob_references delete_blob
    delete delete_package_data
orphan_swept = refl

sweep_orphans-IsServed_example : IsServed new (sweep_orphans third_fails orphaned_store).store
sweep_orphans-IsServed_example =
    sweep_orphans-IsServed new third_fails orphaned_store (refl, refl, refl)

sweep_unreferenced_blobs-IsStored_example :
    IsStored (text "a") (sweep_unreferenced_blobs (fails ∷ []) store).store
sweep_unreferenced_blobs-IsStored_example =
    sweep_unreferenced_blobs-IsStored (text "a") (fails ∷ []) store (refl, refl)

-- a refused deletion of a symbol file goes unreported: its row goes, and the file stays
symbol_left :
    symbol_files_of (purge_symbols old (goes_well ∷ is_refused ∷ []) store).store ≡ pdb ∷ []
unfolding purge_symbols find_symbols delete_symbol delete_symbols
symbol_left = refl

symbol_rows_left : symbols_of (purge_symbols old (goes_well ∷ is_refused ∷ []) store).store ≡ []
unfolding purge_symbols find_symbols delete_symbol delete_symbols
symbol_rows_left = refl

sweep_unreferenced_blobs-exact_example :
    sweep_unreferenced_blobs [] (record store { blobs = text "c" ∷ text "a" ∷ [] })
    ≡ answered
        (length (unreferenced store.files (text "c" ∷ text "a" ∷ [])))
        (record store { blobs = retain (is_referenced store.files) (text "c" ∷ text "a" ∷ []) })
sweep_unreferenced_blobs-exact_example =
    sweep_unreferenced_blobs-exact (record store { blobs = text "c" ∷ text "a" ∷ [] })

abbrev pinned_again : List Key
pinned_again = old ∷ new ∷ []

delete_all-IsWithheld_example :
    IsWithheld
      (text "main")
      old
      (delete_all (text "main") pinned_again (false ∷ []) no_outcome third_fails pinned_store).store
delete_all-IsWithheld_example =
    delete_all-IsWithheld (text "main") old pinned_again (false ∷ []) no_outcome third_fails
      pinned_store (refl, refl)
