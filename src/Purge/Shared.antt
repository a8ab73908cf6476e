-- ===== src/Purge/Shared.antt =====
-- The blobs of other versions' files through purge_global_data of src/retention.rs.
use yanuget.Prelude.{
  ℕ, Bool-cases, inl, inr, sym, subst, true, false, not, leb, List, any, retain, ◌≡◌, refl, ap, ◌∙◌,
  any-retain_twice, any-retain_kept, count-none, arith,
}
use yanuget.Text.{Text, text_eq}
use yanuget.Text.Equal.{text_eq_iff}
use yanuget.Store.{Key, same_key, FileRow, SymbolName, Store, Fate}
use yanuget.Store.Triple.{
  Triple, pure_rule, call_rule, call_keeps, quiet_keeps, if_rule, >>=_rule, for_each_rule,
  consequence, store_of,
}
use yanuget.Store.Calls.{
  find_symbols, delete_symbols, delete_symbol, files_for, blob_references, delete_blob, delete,
  delete_package_data,
}
use yanuget.Purge.{count_sha, purge_symbols, purge_blob, purge_file_blobs, purge_global_data}
use yanuget.Purge.Blobs.{has_sha}

abbrev other_files : Key → Store → List FileRow
other_files key s = retain (λ f. not (same_key f.key key)) s.files

-- a stored blob that a file of another version has
pub record IsShared (key : Key) (sha : Text) (s : Store) : Type 0 where
  pub file : any (has_sha sha) (other_files key s) ≡ true
  pub blob : any (text_eq sha) s.blobs ≡ true

-- a hash that no such file has is another one
different_blob :
    (sha other : Text) (files : List FileRow)
    → any (has_sha other) files ≡ false
    → any (has_sha sha) files ≡ true
    → (b : Text) → text_eq sha b ≡ true
    → not (text_eq other b) ≡ true
different_blob sha other files u x b e = elim (Bool-cases (text_eq other b)) [
  | inl same ↦
      let to_b : sha ≡ other = (text_eq_iff sha b).0 e ∙ sym ((text_eq_iff other b).0 same) in
      let found : any (has_sha other) files ≡ true =
        subst (λ t. any (has_sha t) files ≡ true) to_b x in
      ground (arith, u, found)
  | inr different ↦ ap not different
]

module _ (key : Key) (sha : Text) where
  abbrev P : Store → Type 0
  P = IsShared key sha

  -- with the version's own files as they were read
  abbrev Read : List FileRow → Store → Type 0
  Read files s = P s × (files ≡ retain (λ f. same_key f.key key) s.files)

  abbrev Counted : List FileRow → Text → ℕ → Store → Type 0
  Counted files other references s = Read files s × (references ≡ count_sha other s.files)

  without_blob-IsShared :
      (files : List FileRow) (other : Text) (references : ℕ) (s : Store)
      → leb references (count_sha other files) ≡ true
      → Counted files other references s
      → P (record s { blobs = retain (λ b. not (text_eq other b)) s.blobs })
  without_blob-IsShared files other references s few ((h, own), e) =
      let unshared : any (has_sha other) (other_files key s) ≡ false =
        count-none (has_sha other) (λ f. same_key f.key key) s.files
          (ground (arith, few, e, ap (count_sha other) own)) in
      record {
        file = h.file;
        blob =
            any-retain_kept (text_eq sha) _ s.blobs (different_blob sha other _ unshared h.file)
              h.blob;
      }

  purge_blob-IsShared :
      (files : List FileRow) (other : Text)
      → Triple (Read files) (purge_blob files other) (λ _. Read files) P
  unfolding purge_blob blob_references delete_blob
  purge_blob-IsShared files other =
      >>=_rule {Q = Counted files other} (call_rule _ (λ s h. (h, refl)) (λ s h. (h.0, h.0)))
        λ references.
          if_rule (leb references (count_sha other files))
            (λ few.
              call_rule _ (λ s h. (without_blob-IsShared files other references s few h, h.0.1))
                (λ s h. (h.0.0, without_blob-IsShared files other references s few h)))
            (λ more. pure_rule tt (λ s h. h.0))

  purge_file_blobs-IsShared : Triple P (purge_file_blobs key) (λ _. P) P
  unfolding purge_file_blobs files_for
  purge_file_blobs-IsShared =
      >>=_rule {Q = Read} (call_rule _ (λ s h. (h, refl)) (λ s h. (h, h))) λ files.
        consequence (λ s h. h) (λ a s h. h.0) (λ s h. h)
          (for_each_rule (λ (todo : List Text). Read files) _
            (λ other rest. purge_blob-IsShared files other))

  purge_symbols-IsShared : Triple P (purge_symbols key) (λ _. P) P
  unfolding purge_symbols find_symbols delete_symbol delete_symbols
  purge_symbols-IsShared = >>=_rule (call_keeps _ (λ s h. h)) λ found.
      >>=_rule
        (for_each_rule (λ (todo : List SymbolName). P) found
          (λ n rest. quiet_keeps _ (λ s h. record { file = h.file; blob = h.blob })))
        λ _. call_keeps _ (λ s h. record { file = h.file; blob = h.blob })

  kept_by_purge : Triple P (purge_global_data key) (λ _. P) P
  unfolding purge_global_data delete delete_package_data
  kept_by_purge = >>=_rule purge_symbols-IsShared λ _. >>=_rule purge_file_blobs-IsShared λ _.
      >>=_rule (call_keeps _ (λ s h. record { file = h.file; blob = h.blob })) λ _.
        >>=_rule
          (call_keeps _
            (λ s h. record { file = any-retain_twice _ _ s.files h.file; blob = h.blob }))
          λ _. pure_rule tt (λ s h. h)

-- A stored blob that a file of another version has is still stored, and such a file still has it, after a
-- purge of a version's global data, whichever calls fail.
pub purge_global_data-IsShared :
    (key : Key) (sha : Text) (fates : List Fate) (s : Store)
    → IsShared key sha s
    → IsShared key sha (purge_global_data key fates s).store
purge_global_data-IsShared key sha fates s h = store_of (kept_by_purge key sha) fates s h
