-- ===== src/Purge.antt =====
-- src/retention.rs: how a version is removed from a feed, and its bytes once no feed holds it. Each
-- function runs under the lock of its version, so nothing else changes that version's rows meanwhile.
pub mod Symbols
pub mod Blobs
pub mod Global
pub mod Retry
pub mod Shared
pub mod Sweep
pub mod Prune
pub mod Keeps
pub mod Planned
pub mod Tombstones
mod Tests
use yanuget.Prelude.{
  ℕ, ◌+◌, Bool, true, false, not, ◌&&◌, ◌||◌, Option, none, some, List, [], ◌∷◌, map, retain,
  length, lt, eq, gt, leb, ◌==◌, if◌then◌else◌,
}
use yanuget.Text.{Text, text_eq, text_cmp}
use yanuget.Store.{
  Key, same_key, Membership, PackageRow, FileRow, SymbolName, Store, Run, Fate, Io, pure, ◌>>=◌,
  ◌>>◌, for_each,
}
use yanuget.Store.Calls.{
  remove_membership_for_good, get_membership, feed_count, find_symbols, delete_symbols,
  delete_symbol, files_for, blob_references, delete_blob, delete, delete_package_data,
  package_data_exists, get_package_data, orphaned_versions, list_blobs,
}

pub purge_symbols : Key → Io (Unit {0})
purge_symbols key = do found ← find_symbols key; for_each found delete_symbol; delete_symbols key

-- `sort_unstable` and `dedup`
unfoldable pub insert_sorted : Text → List Text → List Text
insert_sorted t [] = t ∷ []
insert_sorted t (u ∷ us) =
    let later = insert_sorted t us in
    elim (text_cmp t u) [ gt ↦ u ∷ later | lt ↦ t ∷ u ∷ us | eq ↦ t ∷ u ∷ us ]

unfoldable pub sort : List Text → List Text
sort [] = []
sort (t ∷ ts) = insert_sorted t (sort ts)

abbrev push_distinct : Text → List Text → List Text
push_distinct t [] = t ∷ []
push_distinct t (u ∷ us) = if text_eq t u then u ∷ us else t ∷ u ∷ us

unfoldable pub dedup : List Text → List Text
dedup [] = []
dedup (t ∷ ts) = push_distinct t (dedup ts)

-- how many of a version's files have a hash
abbrev pub count_sha : Text → List FileRow → ℕ
count_sha sha files = length (retain (λ f. text_eq f.sha256 sha) files)

-- one round of the loop over the hashes
unfoldable pub purge_blob : List FileRow → Text → Io (Unit {0})
purge_blob files sha = do
  references ← blob_references sha
  if leb references (count_sha sha files) then delete_blob sha else pure tt

pub purge_file_blobs : Key → Io (Unit {0})
purge_file_blobs key = do
  files ← files_for key
  for_each (dedup (sort (map (λ f. f.sha256) files))) (purge_blob files)

pub purge_global_data : Key → Io (Unit {0})
purge_global_data key = do
  purge_symbols key
  purge_file_blobs key
  delete key
  delete_package_data key >> pure tt

pub purge_locked : Text → Key → Io Bool
purge_locked feed key = do
  removed ← remove_membership_for_good feed key
  feeds ← feed_count key
  if feeds == 0 then (purge_global_data key >> pure removed) else pure removed

-- the version was pinned or withheld since it was planned
abbrev pub withheld : Membership → Bool
withheld m = m.pinned || m.pending || not m.enabled

abbrev pub purge_found : Text → Key → Option Membership → Io Bool
purge_found feed key none = pure false
purge_found feed key (some m) = if withheld m then pure false else purge_locked feed key

pub purge_planned : Text → Key → Io Bool
purge_planned feed key = do found ← get_membership feed key; purge_found feed key found
