-- ===== src/Purge/Prune.antt =====
-- src/retention.rs: the deletion of a plan, one version after the other, going on past errors. Sums of
-- sizes are taken to fit in 64 bits.
pub mod Withheld
use yanuget.Prelude.{
  ℕ, suc, ◌+◌, Bool, true, false, not, Option, none, some, List, [], ◌∷◌, if◌then◌else◌,
}
use yanuget.Text.{Text}
use yanuget.Store.{Key, PackageRow, FileRow, Store, Run, Fate, Io, pure, ◌>>=◌, ◌>>◌}
use yanuget.Store.Calls.{get_package_data, files_for, package_data_exists}
use yanuget.Purge.{purge_planned}
use yanuget.Purge.Sweep.{caught, unwrap_or}

pub record Outcome : Type 0 where
  pub deleted : ℕ
  pub freed : ℕ
  pub errors : ℕ

abbrev pub no_outcome : Outcome
no_outcome = record { deleted = 0; freed = 0; errors = 0 }

abbrev pub sum_sizes : List FileRow → ℕ
sum_sizes [] = 0
sum_sizes (f ∷ files) = f.size + sum_sizes files

abbrev pub files_size : Option (List FileRow) → ℕ
files_size none = 0
files_size (some files) = sum_sizes files

unfoldable pub attached_bytes : Key → Io ℕ
attached_bytes key = caught (files_for key) >>= λ files. pure (files_size files)

abbrev pub package_size : Option (Option PackageRow) → ℕ
package_size none = 0
package_size (some none) = 0
package_size (some (some row)) = row.size

abbrev pub count_deleted : ℕ → Outcome → Bool → Outcome
count_deleted size outcome exists =
    if exists
    then record outcome { deleted = suc outcome.deleted }
    else record outcome { deleted = suc outcome.deleted; freed = outcome.freed + size }

-- what a purge comes to
abbrev pub count_purge : Key → ℕ → Outcome → Option Bool → Io Outcome
count_purge key size outcome none = pure (record outcome { errors = suc outcome.errors })
count_purge key size outcome (some false) = pure outcome
count_purge key size outcome (some true) = caught (package_data_exists key) >>= λ exists.
    pure (count_deleted size outcome (unwrap_or true exists))

unfoldable pub delete_planned : Text → Key → Outcome → Io Outcome
delete_planned feed key outcome = do
  data_ ← caught (get_package_data key)
  attached ← attached_bytes key
  purged ← caught (purge_planned feed key)
  count_purge key (package_size data_ + attached) outcome purged

-- the loop, with what `stop` says before each version
unfoldable pub delete_all : Text → List Key → List Bool → Outcome → Io Outcome
delete_all feed [] stops outcome = pure outcome
delete_all feed (key ∷ plan) (true ∷ stops) outcome = pure outcome
delete_all feed (key ∷ plan) [] outcome =
    delete_planned feed key outcome >>= delete_all feed plan []
delete_all feed (key ∷ plan) (false ∷ stops) outcome =
    delete_planned feed key outcome >>= delete_all feed plan stops
