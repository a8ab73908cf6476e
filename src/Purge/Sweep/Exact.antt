-- ===== src/Purge/Sweep/Exact.antt =====
-- sweep_unreferenced_blobs of src/retention.rs where no call fails.
use yanuget.Prelude.{
  ℕ, suc, ◌+◌, if◌then◌else◌, Bool, true, false, not, ◌&&◌, ◌||◌, ◌==◌, List, [], ◌∷◌, any, retain,
  length, ◌≡◌, inl, inr, refl, sym, ap, ◌∙◌, subst, Bool-cases, All, All_mono, arith,
}
use yanuget.Text.{Text, text_eq}
use yanuget.Text.Equal.{text_eq_iff, text_eq_self}
use yanuget.Store.{FileRow, Store, continue_with}
use yanuget.Store.Total.{answered}
use yanuget.Store.Calls.{list_blobs, blob_references, delete_blob}
use yanuget.Purge.Sweep.{fold, sweep_blob, sweep_unreferenced_blobs}

-- a run without failures, exactly
pub is_referenced : List FileRow → Text → Bool
is_referenced files sha = any (λ f. text_eq f.sha256 sha) files

abbrev still_stored : List FileRow → List Text → Text → Bool
still_stored files todo b = is_referenced files b || not (any (λ t. text_eq t b) todo)

abbrev pub unreferenced : List FileRow → List Text → List Text
unreferenced files blobs = retain (λ b. not (is_referenced files b)) blobs

retain-retain :
    (p q r : Text → Bool) (xs : List Text)
    → ((x : Text) → r x ≡ (q x && p x))
    → retain p (retain q xs) ≡ retain r xs
retain-retain p q r [] h = refl
retain-retain p q r (x ∷ xs) h = ground (arith, h x, retain-retain p q r xs h)

count-is_referenced :
    (sha : Text) (files : List FileRow)
    → (length (retain (λ f. text_eq f.sha256 sha) files) == 0) ≡ not (is_referenced files sha)
unfolding is_referenced
count-is_referenced sha [] = refl
count-is_referenced sha (f ∷ files) = ground (arith, count-is_referenced sha files)

abbrev without_blob : Text → Store → Store
without_blob sha s = record s { blobs = retain (λ b. not (text_eq sha b)) s.blobs }

-- one blob: counted and deleted when no file has it
sweep_one :
    (n : ℕ) (sha : Text) (s : Store)
    → sweep_blob n sha [] s
      ≡ (if is_referenced s.files sha then answered n s else answered (suc n) (without_blob sha s))
unfolding sweep_blob blob_references delete_blob
sweep_one n sha s = elim (Bool-cases (is_referenced s.files sha)) [
  | inl used ↦ rw (count-is_referenced sha s.files, used) refl
  | inr free ↦ rw (count-is_referenced sha s.files, free) refl
]

retain_all : (p : Text → Bool) (xs : List Text) → ((x : Text) → p x ≡ true) → retain p xs ≡ xs
retain_all p [] h = refl
retain_all p (x ∷ xs) h = ground (arith, h x, retain_all p xs h)

same_answer :
    (s : Store) (n m : ℕ) (xs ys : List Text)
    → n ≡ m
    → xs ≡ ys
    → answered n (record s { blobs = xs }) ≡ answered m (record s { blobs = ys })
same_answer s n m xs ys e f = rw (e, f) refl

-- after one blob, what the rest of the sweep keeps
keep_used :
    (files : List FileRow) (sha : Text) (todo : List Text)
    → is_referenced files sha ≡ true
    → (b : Text) → still_stored files (sha ∷ todo) b ≡ still_stored files todo b
unfolding is_referenced
keep_used files sha todo used b = elim (Bool-cases (text_eq sha b)) [
  | inl same ↦
      let e : is_referenced files b ≡ true =
        subst (λ t. is_referenced files t ≡ true) ((text_eq_iff sha b).0 same) used in
      rw e refl
  | inr other ↦ rw other refl
]

keep_free :
    (files : List FileRow) (sha : Text) (todo : List Text)
    → is_referenced files sha ≡ false
    → (b : Text)
    → still_stored files (sha ∷ todo) b ≡ (not (text_eq sha b) && still_stored files todo b)
keep_free files sha todo free b = elim (Bool-cases (text_eq sha b)) [
  | inl same ↦
      let e : is_referenced files b ≡ false =
        subst (λ t. is_referenced files t ≡ false) ((text_eq_iff sha b).0 same) free in
      rw (same, e) refl
  | inr other ↦ rw other refl
]

retain_cong :
    (p q : Text → Bool) (xs : List Text) → ((x : Text) → p x ≡ q x) → retain p xs ≡ retain q xs
retain_cong p q [] h = refl
retain_cong p q (x ∷ xs) h = ground (arith, h x, retain_cong p q xs h)

sweep_run :
    (n : ℕ) (todo : List Text) (s : Store)
    → fold sweep_blob n todo [] s
      ≡ answered
          (n + length (unreferenced s.files todo))
          (record s { blobs = retain (still_stored s.files todo) s.blobs })
sweep_run n [] s =
    same_answer s n (n + 0) s.blobs (retain (still_stored s.files []) s.blobs) (omega arith)
      (sym (retain_all _ s.blobs (λ b. ground arith)))
sweep_run n (sha ∷ todo) s =
    ap (λ r. continue_with r (λ m. fold sweep_blob m todo)) (sweep_one n sha s)
    ∙ elim (Bool-cases (is_referenced s.files sha)) [
      | inl used ↦ rw used (
          sweep_run n todo s
          ∙ same_answer s _ _ _ _ refl
              (sym (retain_cong _ _ s.blobs (keep_used s.files sha todo used))))
      | inr free ↦ rw free (
          sweep_run (suc n) todo (without_blob sha s)
          ∙ same_answer s _ _ _ _ (omega arith)
              (retain-retain _ _ _ s.blobs (keep_free s.files sha todo free)))
    ]

listed_all : (blobs : List Text) → All (λ b. any (λ t. text_eq t b) blobs ≡ true) blobs
listed_all [] = tt
listed_all (b ∷ blobs) = (
  ground (arith, text_eq_self b),
  All_mono _ _ blobs (λ c h. ground (arith, h)) (listed_all blobs),
)

retain_listed :
    (p q : Text → Bool) (xs : List Text) → All (λ x. p x ≡ q x) xs → retain p xs ≡ retain q xs
retain_listed p q [] h = refl
retain_listed p q (x ∷ xs) h = ground (arith, h.0, retain_listed p q xs h.1)

-- A sweep of the unreferenced blobs in which no call fails leaves exactly the stored blobs that a file
-- has, changes nothing else, and answers how many stored blobs no file had.
pub sweep_unreferenced_blobs-exact :
    (s : Store)
    → sweep_unreferenced_blobs [] s
      ≡ answered
          (length (unreferenced s.files s.blobs))
          (record s { blobs = retain (is_referenced s.files) s.blobs })
unfolding sweep_unreferenced_blobs list_blobs
sweep_unreferenced_blobs-exact s =
    let all_listed : retain (still_stored s.files s.blobs) s.blobs
        ≡ retain (is_referenced s.files) s.blobs =
      retain_listed (still_stored s.files s.blobs) (is_referenced s.files) s.blobs
        (All_mono _ _ s.blobs (λ b h. ground (arith, h)) (listed_all s.blobs)) in
    sweep_run 0 s.blobs s
    ∙ same_answer s (0 + length (unreferenced s.files s.blobs))
        (length (unreferenced s.files s.blobs)) _ _ (omega arith) all_listed
