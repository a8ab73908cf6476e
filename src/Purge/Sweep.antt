-- ===== src/Purge/Sweep.antt =====
-- src/retention.rs: the sweeps that finish what a failed purge, or a failed detach, left behind. They
-- go on past errors, and count what they removed.
pub mod Rules
pub mod Orphans
pub mod Unreferenced
pub mod Exact
use yanuget.Prelude.{ℕ, suc, Bool, false, ◌==◌, Option, none, some, List, [], ◌∷◌, if◌then◌else◌}
use yanuget.Text.{Text}
use yanuget.Store.{Key, PackageRow, Io, pure, ◌>>=◌}
use yanuget.Store.Calls.{
  feed_count, package_data_exists, orphaned_versions, list_blobs, blob_references, delete_blob,
}
use yanuget.Purge.{purge_global_data}

-- an error as a value
abbrev pub caught : {A : Type 0} → Io A → Io (Option A)
caught m fates store =
    let run = m fates store in
    record { answer = some run.answer; fates = run.fates; store = run.store }

abbrev pub unwrap_or : {A : Type 0} → A → Option A → A
unwrap_or a none = a
unwrap_or a (some b) = b

-- a loop with a count
abbrev pub fold : {A : Type 0} → (ℕ → A → Io ℕ) → ℕ → List A → Io ℕ
fold body n [] = pure n
fold body n (a ∷ rest) = body n a >>= λ m. fold body m rest

abbrev pub is_zero : Option ℕ → Bool
is_zero none = false
is_zero (some n) = n == 0

abbrev pub count_done : {A : Type 0} → ℕ → Option A → ℕ
count_done n none = n
count_done n (some a) = suc n

-- `match db.feed_count(..) { Ok(0) => db.package_data_exists(..).unwrap_or(false), _ => false }`
unfoldable pub is_still_orphaned : Key → Io Bool
is_still_orphaned key = do
  feeds ← caught (feed_count key)
  if is_zero feeds
      then (caught (package_data_exists key) >>= λ exists. pure (unwrap_or false exists))
      else pure false

unfoldable pub sweep_orphan : ℕ → PackageRow → Io ℕ
sweep_orphan removed row = do
  still ← is_still_orphaned row.key
  if still
      then (caught (purge_global_data row.key) >>= λ done. pure (count_done removed done))
      else pure removed

abbrev pub sweep_listed : Option (List PackageRow) → Io ℕ
sweep_listed none = pure 0
sweep_listed (some orphans) = fold sweep_orphan 0 orphans

unfoldable pub sweep_orphans : Io ℕ
sweep_orphans = caught (orphaned_versions 500) >>= sweep_listed

unfoldable pub sweep_blob : ℕ → Text → Io ℕ
sweep_blob removed sha = do
  references ← caught (blob_references sha)
  if is_zero references
      then (caught (delete_blob sha) >>= λ done. pure (count_done removed done))
      else pure removed

abbrev pub sweep_listed_blobs : Option (List Text) → Io ℕ
sweep_listed_blobs none = pure 0
sweep_listed_blobs (some blobs) = fold sweep_blob 0 blobs

unfoldable pub sweep_unreferenced_blobs : Io ℕ
sweep_unreferenced_blobs = caught list_blobs >>= sweep_listed_blobs
