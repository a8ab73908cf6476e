-- ===== src/Purge/Keeps.antt =====
-- The rule of purge_global_data of src/retention.rs for what each of its changes keeps.
use yanuget.Prelude.{leb, not, retain, List}
use yanuget.Text.{Text, text_eq}
use yanuget.Store.{Key, same_key, FileRow, SymbolName, same_symbol, Store}
use yanuget.Store.Triple.{
  Triple, pure_rule, call_keeps, quiet_keeps, if_rule, >>=_rule, for_each_rule,
}
use yanuget.Store.Calls.{
  find_symbols, delete_symbols, delete_symbol, files_for, blob_references, delete_blob, delete,
  delete_package_data,
}
use yanuget.Purge.{count_sha, purge_symbols, purge_blob, purge_file_blobs, purge_global_data}

-- a property that each change of a purge of the version keeps
pub record IsKeptBy (key : Key) (P : Store → Type 0) : Type 0 where
  pub symbol_file :
      (n : SymbolName) (s : Store)
      → P s
      → P (record s { symbol_files = retain (λ y. not (same_symbol n y)) s.symbol_files })
  pub symbol_rows :
      (s : Store)
      → P s
      → P (record s { symbols = retain (λ r. not (same_key r.key key)) s.symbols })
  pub blob :
      (sha : Text) (s : Store)
      → P s
      → P (record s { blobs = retain (λ b. not (text_eq sha b)) s.blobs })
  pub payload :
      (s : Store) → P s → P (record s { payloads = retain (λ k. not (same_key k key)) s.payloads })
  pub rows :
      (s : Store)
      → P s
      → P (record s {
        packages = retain (λ p. not (same_key p.key key)) s.packages;
        members = retain (λ m. not (same_key m.key key)) s.members;
        files = retain (λ f. not (same_key f.key key)) s.files;
        symbols = retain (λ r. not (same_key r.key key)) s.symbols;
      })

module _ (key : Key) (P : Store → Type 0) (kept : IsKeptBy key P) where
  symbols_kept : Triple P (purge_symbols key) (λ _. P) P
  unfolding purge_symbols find_symbols delete_symbol delete_symbols
  symbols_kept = >>=_rule (call_keeps _ (λ s h. h)) λ found.
      >>=_rule
        (for_each_rule (λ (todo : List SymbolName). P) found
          (λ n rest. quiet_keeps _ (kept.symbol_file n)))
        λ _. call_keeps _ kept.symbol_rows

  blob_kept : (files : List FileRow) (sha : Text) → Triple P (purge_blob files sha) (λ _. P) P
  unfolding purge_blob blob_references delete_blob
  blob_kept files sha = >>=_rule (call_keeps _ (λ s h. h)) λ references.
      if_rule (leb references (count_sha sha files)) (λ few. call_keeps _ (kept.blob sha))
        (λ more. pure_rule tt (λ s h. h))

  blobs_kept : Triple P (purge_file_blobs key) (λ _. P) P
  unfolding purge_file_blobs files_for
  blobs_kept =
      >>=_rule (call_keeps _ (λ s h. h))
        λ files. for_each_rule (λ (todo : List Text). P) _ (λ sha rest. blob_kept files sha)

  -- Whatever each change keeps, the purge keeps, whichever calls fail.
  pub purge_global_data_keeps : Triple P (purge_global_data key) (λ _. P) P
  unfolding purge_global_data delete delete_package_data
  purge_global_data_keeps = >>=_rule symbols_kept λ _. >>=_rule blobs_kept λ _.
      >>=_rule (call_keeps _ kept.payload)
        λ _. >>=_rule (call_keeps _ kept.rows) λ _. pure_rule tt (λ s h. h)
