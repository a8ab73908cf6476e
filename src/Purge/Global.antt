-- ===== src/Purge/Global.antt =====
-- The calls of purge_global_data of src/retention.rs, on the rows that lead to stored bytes.
use yanuget.Prelude.{
  Bool, true, false, not, List, any, retain, ◌≡◌, All_mono, retain-All, any-retain, any-retain_kept,
  any-retain_dropped, arith,
}
use yanuget.Text.Equal.{text_eq_iff}
use yanuget.Store.{Fate, Key, same_key, PackageRow, FileRow, SymbolRow, Membership, Store}
use yanuget.Store.Triple.{TripleOn, pure_rule, call_rule, >>=_rule, consequence}
use yanuget.Store.Calls.{delete, delete_package_data}
use yanuget.Purge.{purge_global_data}
use yanuget.Purge.Symbols.{
  Indexed, BlobsIndexed, PayloadsIndexed, all_rows, other_symbols, purge_symbols-Indexed,
}
use yanuget.Purge.Blobs.{other_files, purge_file_blobs-Indexed}

-- equal keys are the same for every key
pub same_key_left : (a b c : Key) → same_key a b ≡ true → same_key a c ≡ true → same_key c b ≡ true
same_key_left a b c h k = ground (
  arith,
  h,
  k,
  text_eq_iff a.id b.id,
  text_eq_iff a.version b.version,
  text_eq_iff a.id c.id,
  text_eq_iff a.version c.version,
  text_eq_iff c.id b.id,
  text_eq_iff c.version b.version,
)

-- no table has a row of the version, and its payload is not stored
pub record IsGone (key : Key) (s : Store) : Type 0 where
  pub no_rows : any (λ (p : PackageRow). same_key p.key key) s.packages ≡ false
  pub no_members : any (λ (m : Membership). same_key m.key key) s.members ≡ false
  pub no_files : any (λ (f : FileRow). same_key f.key key) s.files ≡ false
  pub no_symbols : any (λ (r : SymbolRow). same_key r.key key) s.symbols ≡ false
  pub no_payload : any (λ k. same_key k key) s.payloads ≡ false

module _ (W : Fate → Bool) (key : Key) where
  abbrev IsIndexed : Store → Type 0
  IsIndexed = Indexed W all_rows

  -- the symbol files are other versions'
  abbrev IsCleared : Store → Type 0
  IsCleared = Indexed W (other_symbols key)

  cleared-IsIndexed : (s : Store) → IsCleared s → IsIndexed s
  cleared-IsIndexed s h = record {
    blobs_indexed = h.blobs_indexed;
    symbols_indexed = λ seen.
        All_mono _ _ s.symbol_files (λ y i. any-retain _ _ s.symbols i) (h.symbols_indexed seen);
    payloads_indexed = h.payloads_indexed;
  }

  abbrev other_packages : Store → List PackageRow
  other_packages s = retain (λ p. not (same_key p.key key)) s.packages

  -- everything that is stored is other versions'
  record IsReady (s : Store) : Type 0 where
    cleared : IsCleared s
    others_blobs : BlobsIndexed (other_files W key (other_symbols key) s) s.blobs
    others_payloads : PayloadsIndexed (other_packages s) s.payloads
    no_payload : any (λ k. same_key k key) s.payloads ≡ false

  without_payload : Store → Store
  without_payload s = record s { payloads = retain (λ k. not (same_key k key)) s.payloads }

  without_payload-IsCleared : (s : Store) → IsCleared s → IsCleared (without_payload s)
  unfolding without_payload
  without_payload-IsCleared s h = record {
    blobs_indexed = h.blobs_indexed;
    symbols_indexed = h.symbols_indexed;
    payloads_indexed = retain-All _ _ _ s.payloads (λ k q i. i) h.payloads_indexed;
  }

  payload-other :
      (k : Key) (rows : List PackageRow)
      → not (same_key k key) ≡ true
      → any (λ p. same_key p.key k) rows ≡ true
      → any (λ p. same_key p.key k) (retain (λ p. not (same_key p.key key)) rows) ≡ true
  payload-other k rows other i =
      any-retain_kept _ _ rows (λ p e. ground (arith, e, other, same_key_left p.key key k)) i

  delete-IsReady :
      TripleOn W
        (λ s. IsCleared s × BlobsIndexed (other_files W key (other_symbols key) s) s.blobs)
        (delete key)
        (λ _. IsReady)
        IsIndexed
  unfolding delete
  delete-IsReady =
      call_rule _
        (λ s h. record {
          cleared = unfold without_payload in without_payload-IsCleared s h.0;
          others_blobs = h.1;
          others_payloads =
              retain-All _ _ _ s.payloads (λ k q i. payload-other k s.packages q i)
                h.0.payloads_indexed;
          no_payload = any-retain_dropped _ s.payloads;
        })
        (λ s h. (
          cleared-IsIndexed s h.0,
          unfold without_payload in cleared-IsIndexed _ (without_payload-IsCleared s h.0),
        ))

  without_rows : Store → Store
  without_rows s = record s {
    packages = retain (λ p. not (same_key p.key key)) s.packages;
    members = retain (λ m. not (same_key m.key key)) s.members;
    files = retain (λ f. not (same_key f.key key)) s.files;
    symbols = retain (λ r. not (same_key r.key key)) s.symbols;
  }

  without_rows-IsIndexed : (s : Store) → IsReady s → IsIndexed (without_rows s)
  unfolding without_rows
  without_rows-IsIndexed s h = record {
    blobs_indexed = h.others_blobs;
    symbols_indexed = h.cleared.symbols_indexed;
    payloads_indexed = h.others_payloads;
  }

  without_rows-IsGone : (s : Store) → IsReady s → IsGone key (without_rows s)
  unfolding without_rows
  without_rows-IsGone s h = record {
    no_rows = any-retain_dropped _ s.packages;
    no_members = any-retain_dropped _ s.members;
    no_files = any-retain_dropped _ s.files;
    no_symbols = any-retain_dropped _ s.symbols;
    no_payload = h.no_payload;
  }

  delete_package_data-Indexed :
      TripleOn W IsReady (delete_package_data key) (λ _ s. IsIndexed s × IsGone key s) IsIndexed
  unfolding delete_package_data
  delete_package_data-Indexed =
      call_rule _
        (λ s h. (
          unfold without_rows in without_rows-IsIndexed s h,
          unfold without_rows in without_rows-IsGone s h,
        ))
        (λ s h. (cleared-IsIndexed s h.cleared, unfold without_rows in without_rows-IsIndexed s h))

  pub purge_global_data-Indexed_or_IsGone :
      TripleOn W IsIndexed (purge_global_data key) (λ _ s. IsIndexed s × IsGone key s) IsIndexed
  unfolding purge_global_data
  purge_global_data-Indexed_or_IsGone = >>=_rule (purge_symbols-Indexed W key) λ _.
      >>=_rule
        (consequence (λ s h. h) (λ a s h. h) cleared-IsIndexed
          (purge_file_blobs-Indexed W key (other_symbols key)))
        λ _.
          >>=_rule delete-IsReady
            λ _. >>=_rule delete_package_data-Indexed λ _. pure_rule tt (λ s h. h)
