-- ===== src/Purge/Sweep/Unreferenced.antt =====
-- sweep_unreferenced_blobs of src/retention.rs where calls may fail.
use yanuget.Prelude.{
  ℕ, true, false, not, Option, none, some, List, [], ◌∷◌, any, retain, length, ◌≡◌, refl,
  any-retain_kept, arith,
}
use yanuget.Text.{Text, text_eq}
use yanuget.Text.Equal.{text_eq_iff}
use yanuget.Store.{FileRow, Store, Fate}
use yanuget.Store.Triple.{Triple, pure_rule, call_rule, if_rule, >>=_rule, consequence, store_of}
use yanuget.Store.Calls.{list_blobs, blob_references, delete_blob}
use yanuget.Purge.Sweep.{
  caught, count_done, is_zero, sweep_blob, sweep_listed_blobs, sweep_unreferenced_blobs,
}
use yanuget.Purge.Sweep.Rules.{Either, caught_rule, caught_keeps, fold_rule}

abbrev pub IsReferenced : Text → Store → Type 0
IsReferenced sha s = any (λ (f : FileRow). text_eq f.sha256 sha) s.files ≡ true

abbrev pub IsStored : Text → Store → Type 0
IsStored sha s = IsReferenced sha s × (any (text_eq sha) s.blobs ≡ true)

uncounted :
    (sha other : Text) (files : List FileRow)
    → any (λ (f : FileRow). text_eq f.sha256 sha) files ≡ true
    → length (retain (λ f. text_eq f.sha256 other) files) ≡ 0
    → text_eq other sha ≡ false
uncounted sha other [] h e = cc
uncounted sha other (f ∷ files) h e = ground (
  arith,
  h,
  e,
  uncounted sha other files,
  text_eq_iff other sha,
  text_eq_iff f.sha256 sha,
  text_eq_iff f.sha256 other,
)

uncounted-IsStored :
    (sha other : Text) (s : Store)
    → IsStored sha s
    → length (retain (λ f. text_eq f.sha256 other) s.files) ≡ 0
    → IsStored sha (record s { blobs = retain (λ b. not (text_eq other b)) s.blobs })
uncounted-IsStored sha other s h e = (
  h.0,
  any-retain_kept (text_eq sha) _ s.blobs
      (λ b same. ground (
        arith,
        same,
        uncounted sha other s.files h.0 e,
        text_eq_iff sha b,
        text_eq_iff other b,
        text_eq_iff other sha,
      ))
      h.1,
)

module _ (sha : Text) where
  abbrev references_of : Text → Store → ℕ
  references_of other s = length (retain (λ f. text_eq f.sha256 other) s.files)

  -- where the count is zero, no file has the hash
  abbrev Counted : Text → Option ℕ → Store → Type 0
  Counted other references s =
      IsStored sha s × (is_zero references ≡ true → references_of other s ≡ 0)

  Counted-of :
      (other : Text) (references : Option ℕ) (s : Store)
      → Either (λ n t. IsStored sha t × (n ≡ references_of other t)) (IsStored sha) references s
      → Counted other references s
  Counted-of other none s h = (h, λ e. cc)
  Counted-of other (some n) s h = (h.0, λ e. ground (arith, e, h.1))

  count-Counted :
      (other : Text)
      → Triple (IsStored sha) (caught (blob_references other)) (Counted other) (IsStored sha)
  unfolding blob_references
  count-Counted other =
      consequence (λ s h. h) (Counted-of other) (λ s h. h)
        (caught_rule (call_rule _ (λ s h. (h, refl)) (λ s h. (h, h))))

  delete-IsStored :
      (other : Text) (references : Option ℕ)
      → is_zero references ≡ true
      → Triple (Counted other references) (delete_blob other) (λ done. IsStored sha) (IsStored sha)
  unfolding delete_blob
  delete-IsStored other references free =
      call_rule _ (λ s h. uncounted-IsStored sha other s h.0 (h.1 free))
        (λ s h. (h.0, uncounted-IsStored sha other s h.0 (h.1 free)))

  sweep_blob-IsStored :
      (n : ℕ) (other : Text)
      → Triple (IsStored sha) (sweep_blob n other) (λ _. IsStored sha) (IsStored sha)
  unfolding sweep_blob
  sweep_blob-IsStored n other = >>=_rule (count-Counted other) λ references.
      if_rule (is_zero references)
        (λ free.
          >>=_rule (caught_keeps (delete-IsStored other references free))
            λ done. pure_rule (count_done n done) (λ s h. h))
        (λ used. pure_rule n (λ s h. h.0))

  listed-IsStored :
      (listed : Option (List Text))
      → Triple (IsStored sha) (sweep_listed_blobs listed) (λ _. IsStored sha) (IsStored sha)
  listed-IsStored none = pure_rule 0 (λ s h. h)
  listed-IsStored (some blobs) =
      fold_rule (λ (todo : List Text). IsStored sha) 0 blobs
        (λ n other rest. sweep_blob-IsStored n other)

  sweep-IsStored : Triple (IsStored sha) sweep_unreferenced_blobs (λ _. IsStored sha) (IsStored sha)
  unfolding sweep_unreferenced_blobs list_blobs
  sweep-IsStored = >>=_rule (caught_keeps (call_rule _ (λ s h. h) (λ s h. (h, h)))) listed-IsStored

-- A stored blob that a file has is still stored after a sweep of the unreferenced blobs, and the file
-- still has it, whichever calls fail.
pub sweep_unreferenced_blobs-IsStored :
    (sha : Text) (fates : List Fate) (s : Store)
    → IsStored sha s
    → IsStored sha (sweep_unreferenced_blobs fates s).store
sweep_unreferenced_blobs-IsStored sha fates s h = store_of (sweep-IsStored sha) fates s h
