-- ===== src/Purge/Retry.antt =====
-- purge_global_data of src/retention.rs, run to its end or stopped by a failure, and run again.
use yanuget.Prelude.{Bool, List}
use yanuget.Store.{Key, Store, Fate}
use yanuget.Store.Triple.{consequence, store_on, Admitted}
use yanuget.Store.Total.{
  IsTotal, pure-IsTotal, call-IsTotal, quiet_call-IsTotal, >>=-IsTotal, for_each-IsTotal,
  if-IsTotal,
}
use yanuget.Store.Calls.{
  find_symbols, delete_symbols, delete_symbol, files_for, blob_references, delete_blob, delete,
  delete_package_data,
}
use yanuget.Purge.{purge_symbols, purge_blob, purge_file_blobs, purge_global_data}
use yanuget.Purge.Symbols.{Indexed, all_rows}
use yanuget.Purge.Global.{purge_global_data-Indexed_or_IsGone}

-- Where every stored blob and payload, and, if the file system refuses no deletion, every stored symbol
-- file has a row that leads to it, the same holds after a purge of a version's global data, whichever of
-- its calls fail: no such bytes are left that nothing finds.
pub purge_global_data-Indexed :
    (W : Fate → Bool) (key : Key) (fates : List Fate) (s : Store)
    → Admitted W fates
    → Indexed W all_rows s
    → Indexed W all_rows (purge_global_data key fates s).store
purge_global_data-Indexed W key fates s w h =
    store_on
      (consequence (λ s h. h) (λ a s h. h.0) (λ s h. h) (purge_global_data-Indexed_or_IsGone W key))
      fates s w h

purge_symbols-IsTotal : (key : Key) → IsTotal (purge_symbols key)
unfolding purge_symbols find_symbols delete_symbol delete_symbols
purge_symbols-IsTotal key =
    >>=-IsTotal (call-IsTotal _)
      λ found. >>=-IsTotal (for_each-IsTotal found (λ n. quiet_call-IsTotal _)) λ _. call-IsTotal _

purge_file_blobs-IsTotal : (key : Key) → IsTotal (purge_file_blobs key)
unfolding purge_file_blobs purge_blob files_for blob_references delete_blob
purge_file_blobs-IsTotal key = >>=-IsTotal (call-IsTotal _) λ files. for_each-IsTotal _ (λ sha.
    >>=-IsTotal (call-IsTotal _) λ references. if-IsTotal _ (call-IsTotal _) (pure-IsTotal tt))

pub purge_global_data-IsTotal : (key : Key) → IsTotal (purge_global_data key)
unfolding purge_global_data delete delete_package_data
purge_global_data-IsTotal key = >>=-IsTotal (purge_symbols-IsTotal key) λ _.
    >>=-IsTotal (purge_file_blobs-IsTotal key)
      λ _. >>=-IsTotal (call-IsTotal _) λ _. >>=-IsTotal (call-IsTotal _) λ _. pure-IsTotal tt
