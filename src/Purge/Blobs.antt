-- ===== src/Purge/Blobs.antt =====
-- Lemmas on purge_file_blobs of src/retention.rs: its sort, its counts, and the rows and blobs
-- between them.
use yanuget.Prelude.{
  count-none, ℕ, Bool, true, false, not, ◌||◌, leb, List, [], ◌∷◌, map, any, retain, ◌≡◌, ◌⊎◌, inl,
  inr, refl, ap, ◌∙◌, subst, All, All_mono, retain-All, any-split, any-map, count-any, Bool-cases,
  arith,
}
use yanuget.Text.{Text, text_eq}
use yanuget.Text.Equal.{text_eq_iff}
use yanuget.Store.{Fate, SymbolRow, Key, same_key, FileRow, Store}
use yanuget.Store.Triple.{
  TripleOn, pure_rule, call_rule, if_rule, >>=_rule, for_each_rule, consequence,
}
use yanuget.Store.Calls.{files_for, blob_references, delete_blob}
use yanuget.Purge.{
  insert_sorted, sort, push_distinct, dedup, count_sha, purge_blob, purge_file_blobs,
}
use yanuget.Purge.Symbols.{Indexed, BlobsIndexed}

any-insert_sorted :
    (p : Text → Bool) (t : Text) (us : List Text) → any p (insert_sorted t us) ≡ (p t || any p us)
unfolding insert_sorted
any-insert_sorted p t [] = refl
any-insert_sorted p t (u ∷ us) = ground (arith, any-insert_sorted p t us)

any-sort : (p : Text → Bool) (ts : List Text) → any p (sort ts) ≡ any p ts
unfolding sort
any-sort p [] = refl
any-sort p (t ∷ ts) = any-insert_sorted p t (sort ts) ∙ ap (λ b. p t || b) (any-sort p ts)

any-push_distinct :
    (p : Text → Bool) (t : Text) (us : List Text) → any p (push_distinct t us) ≡ (p t || any p us)
any-push_distinct p t [] = refl
any-push_distinct p t (u ∷ us) = elim (Bool-cases (text_eq t u)) [
  | inl same ↦ let e : p t ≡ p u = ap p ((text_eq_iff t u).0 same) in ground (arith, same, e)
  | inr different ↦ rw different refl
]

any-dedup : (p : Text → Bool) (ts : List Text) → any p (dedup ts) ≡ any p ts
unfolding dedup
any-dedup p [] = refl
any-dedup p (t ∷ ts) = any-push_distinct p t (dedup ts) ∙ ap (λ b. p t || b) (any-dedup p ts)

abbrev pub has_sha : Text → FileRow → Bool
has_sha sha f = text_eq f.sha256 sha

module _ (W : Fate → Bool) (key : Key) (rows : List SymbolRow → List SymbolRow) where
  abbrev IsIndexed : Store → Type 0
  IsIndexed = Indexed W rows

  abbrev pub own_files : Store → List FileRow
  own_files s = retain (λ f. same_key f.key key) s.files

  abbrev pub other_files : Store → List FileRow
  other_files s = retain (λ f. not (same_key f.key key)) s.files

  abbrev pub shas_of : List FileRow → List Text
  shas_of files = dedup (sort (map (λ f. f.sha256) files))

  any-shas_of :
      (b : Text) (files : List FileRow)
      → any (λ t. text_eq t b) (shas_of files) ≡ any (has_sha b) files
  any-shas_of b files =
      any-dedup _ _ ∙ any-sort _ _ ∙ any-map (λ t. text_eq t b) (λ (f : FileRow). f.sha256) files

  -- each stored blob is another version's, or still to be looked at
  pub record Remaining (files : List FileRow) (todo : List Text) (s : Store) : Type 0 where
    pub indexed : IsIndexed s
    pub own : files ≡ own_files s
    pub covered :
        All
          (λ b. (any (has_sha b) (other_files s) ≡ true) ⊎ (any (λ t. text_eq t b) todo ≡ true))
          s.blobs

  without_blob : Text → Store → Store
  without_blob sha s = record s { blobs = retain (λ b. not (text_eq sha b)) s.blobs }

  without_blob-IsIndexed :
      (sha : Text) (s : Store)
      → any (has_sha sha) (other_files s) ≡ false
      → IsIndexed s
      → IsIndexed (without_blob sha s)
  unfolding without_blob
  without_blob-IsIndexed sha s unshared h = record {
    blobs_indexed = retain-All _ _ _ s.blobs (λ b q i. i) h.blobs_indexed;
    symbols_indexed = h.symbols_indexed;
    payloads_indexed = h.payloads_indexed;
  }

  Found-Remaining :
      (files : List FileRow) (s : Store)
      → IsIndexed s × (files ≡ own_files s)
      → Remaining files (shas_of files) s
  Found-Remaining files s (h, e) = record {
    indexed = h;
    own = e;
    covered =
        All_mono _ _ s.blobs
          (λ b i. elim (any-split (has_sha b) (λ f. same_key f.key key) s.files i) [
            | inl mine ↦ inr (any-shas_of b files ∙ ap (any (has_sha b)) e ∙ mine)
            | inr other ↦ inl other
          ])
          h.blobs_indexed;
  }

  module _ (files : List FileRow) (sha : Text) (rest : List Text) where
    without_blob-Remaining :
        (s : Store)
        → any (has_sha sha) (other_files s) ≡ false
        → Remaining files (sha ∷ rest) s
        → Remaining files rest (without_blob sha s)
    unfolding without_blob
    without_blob-Remaining s unshared h = record {
      indexed = unfold without_blob in without_blob-IsIndexed sha s unshared h.indexed;
      own = h.own;
      covered =
          retain-All _ _ _ s.blobs
            (λ b q c. elim c [ inl other ↦ inl other | inr todo ↦ inr (ground (arith, q, todo)) ])
            h.covered;
    }

    -- the number of references, of this version and of others
    Counted : ℕ → Store → Type 0
    Counted references s = Remaining files (sha ∷ rest) s × (references ≡ count_sha sha s.files)

    unshared_of :
        (references : ℕ) (s : Store)
        → leb references (count_sha sha files) ≡ true
        → Counted references s
        → any (has_sha sha) (other_files s) ≡ false
    unfolding Counted
    unshared_of references s few (h, e) =
        count-none (has_sha sha) (λ f. same_key f.key key) s.files
          (ground (arith, few, e, ap (count_sha sha) h.own))

    kept-Remaining :
        (references : ℕ) (s : Store)
        → leb references (count_sha sha files) ≡ false
        → Counted references s
        → Remaining files rest s
    unfolding Counted
    kept-Remaining references s more (h, e) =
        let shared : any (has_sha sha) (other_files s) ≡ true =
          count-any (has_sha sha) (λ f. same_key f.key key) s.files
            (ground (arith, more, e, ap (count_sha sha) h.own)) in
        record {
          indexed = h.indexed;
          own = h.own;
          covered =
              All_mono _ _ s.blobs
                (λ b c. elim c [
                  | inl other ↦ inl other
                  | inr todo ↦ elim (Bool-cases (text_eq sha b)) [
                    | inl same ↦ inl (
                        subst (λ t. any (has_sha t) (other_files s) ≡ true)
                          ((text_eq_iff sha b).0 same) shared)
                    | inr different ↦ inr (ground (arith, todo, different))
                  ]
                ])
                h.covered;
        }

    purge_blob-Remaining :
        TripleOn W
          (Remaining files (sha ∷ rest))
          (purge_blob files sha)
          (λ _. Remaining files rest)
          IsIndexed
    unfolding purge_blob blob_references delete_blob Counted
    purge_blob-Remaining =
        >>=_rule {Q = Counted} (call_rule _ (λ s h. (h, refl)) (λ s h. (h.indexed, h.indexed)))
          λ references.
            if_rule (leb references (count_sha sha files))
              (λ few.
                call_rule _
                  (λ s h.
                    unfold without_blob in
                    without_blob-Remaining s (unshared_of references s few h) h.0)
                  (λ s h. (
                    h.0.indexed,
                    unfold without_blob in
                        without_blob-IsIndexed sha s (unshared_of references s few h) h.0.indexed,
                  )))
              (λ more. pure_rule tt (λ s h. kept-Remaining references s more h))

  -- A purge of blobs keeps every stored thing indexed, and leaves only blobs that other versions' files
  -- have.
  pub purge_file_blobs-Indexed :
      TripleOn W IsIndexed
        (purge_file_blobs key)
        (λ _ s. IsIndexed s × BlobsIndexed (other_files s) s.blobs)
        IsIndexed
  unfolding purge_file_blobs files_for
  purge_file_blobs-Indexed =
      >>=_rule {Q = λ files s. IsIndexed s × (files ≡ own_files s)}
        (call_rule _ (λ s h. (h, refl)) (λ s h. (h, h)))
        λ files.
          consequence (Found-Remaining files)
            (λ a s h. (
              h.indexed,
              All_mono _ _ s.blobs (λ b c. elim c [ inl other ↦ other | inr none_ ↦ cc ]) h.covered,
            ))
            (λ s h. h)
            (for_each_rule (Remaining files) (shas_of files) (purge_blob-Remaining files))
