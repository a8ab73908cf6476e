-- ===== src/Retention/Sorting.antt =====
-- `sort_newest` keeps what a test counts, and puts no older version before a newer one.
use yanuget.Prelude.{
  All_mono, ℕ, ◌≡◌, ◌≢◌, Bool, List, [], ◌∷◌, refl, sym, ap, ◌∙◌, arith, retain, length, All, gt,
  inl, inr, ◌⊎◌, Ordering-cases, subst,
}
use yanuget.Prelude.Order.{flip}
use yanuget.Version.{cmp}
use yanuget.Version.Order.{cmp-IsOrder}
use yanuget.Range.Best.{◌≤ᵥ◌, le_chain}
use yanuget.Retention.{Candidate, version_of, insert_newest, sort_newest}

-- how many candidates pass a test
abbrev pub count : (Candidate → Bool) → List Candidate → ℕ
count p cs = length (retain p cs)

count-cons :
    (p : Candidate → Bool) (c : Candidate) (cs ds : List Candidate)
    → count p cs ≡ count p ds
    → count p (c ∷ cs) ≡ count p (c ∷ ds)
count-cons p c cs ds h = ground arith

count_swap :
    (p : Candidate → Bool) (c d : Candidate) (cs : List Candidate)
    → count p (c ∷ d ∷ cs) ≡ count p (d ∷ c ∷ cs)
count_swap p c d cs = ground arith

-- The two ways in which one candidate goes in before or behind another.
pub insert_cases :
    (c d : Candidate) (ds : List Candidate)
    → ((cmp (version_of d) (version_of c) ≡ gt)
        × (insert_newest c (d ∷ ds) ≡ d ∷ insert_newest c ds))
      ⊎ ((cmp (version_of d) (version_of c) ≢ gt) × (insert_newest c (d ∷ ds) ≡ c ∷ d ∷ ds))
unfolding insert_newest
insert_cases c d ds = elim (Ordering-cases (cmp (version_of d) (version_of c))) [
  | inl o ↦ inr (λ g. ground arith, rw (o, insert_newest))
  | inr (inl o) ↦ inr (λ g. ground arith, rw (o, insert_newest))
  | inr (inr o) ↦ inl (o, rw (o, insert_newest))
]

count-insert_newest :
    (p : Candidate → Bool) (c : Candidate) (cs : List Candidate)
    → count p (insert_newest c cs) ≡ count p (c ∷ cs)
count-insert_newest p c [] = unfold insert_newest in refl
count-insert_newest p c (d ∷ ds) = elim (insert_cases c d ds) [
  | inl (_, e) ↦
      ap (count p) e
      ∙ count-cons p d (insert_newest c ds) (c ∷ ds) (count-insert_newest p c ds)
      ∙ count_swap p d c ds
  | inr (_, e) ↦ ap (count p) e
]

-- Sorting changes no count.
pub count-sort_newest :
    (p : Candidate → Bool) (cs : List Candidate) → count p (sort_newest cs) ≡ count p cs
unfolding sort_newest
count-sort_newest p [] = refl
count-sort_newest p (c ∷ cs) =
    count-insert_newest p c (sort_newest cs)
    ∙ count-cons p c (sort_newest cs) cs (count-sort_newest p cs)

-- Newest first: every candidate is at least as new as all behind it.
abbrev pub IsNewestFirst : List Candidate → Type 0
IsNewestFirst [] = Unit
IsNewestFirst (c ∷ cs) = All (λ d. version_of d ≤ᵥ version_of c) cs × IsNewestFirst cs

module _ (P : Candidate → Type 0) where
  pub All-insert_newest :
      (c : Candidate) (cs : List Candidate) → P c → All P cs → All P (insert_newest c cs)
  All-insert_newest c [] h a = unfold insert_newest in (h, tt)
  All-insert_newest c (d ∷ ds) h a = elim (insert_cases c d ds) [
    | inl (_, e) ↦ subst (All P) (sym e) (a.0, All-insert_newest c ds h a.1)
    | inr (_, e) ↦ subst (All P) (sym e) (h, a)
  ]

  pub All-sort_newest : (cs : List Candidate) → All P cs → All P (sort_newest cs)
  unfolding sort_newest
  All-sort_newest [] a = tt
  All-sort_newest (c ∷ cs) a = All-insert_newest c (sort_newest cs) a.0 (All-sort_newest cs a.1)

insert_newest-IsNewestFirst :
    (c : Candidate) (cs : List Candidate) → IsNewestFirst cs → IsNewestFirst (insert_newest c cs)
insert_newest-IsNewestFirst c [] h = unfold insert_newest in (tt, tt)
insert_newest-IsNewestFirst c (d ∷ ds) h = elim (insert_cases c d ds) [
  | inl (newer, e) ↦
      let below : version_of c ≤ᵥ version_of d = λ b. ground arith in
      subst IsNewestFirst (sym e) (
        All-insert_newest (λ x. version_of x ≤ᵥ version_of d) c ds below h.0,
        insert_newest-IsNewestFirst c ds h.1,
      )
  | inr (other, e) ↦
      let below : version_of d ≤ᵥ version_of c =
        λ b. other (cmp-IsOrder.swap (version_of c) (version_of d) ∙ ap flip b) in
      subst IsNewestFirst (sym e) (
        (
          below,
          All_mono (λ x. version_of x ≤ᵥ version_of d) (λ x. version_of x ≤ᵥ version_of c) ds
              (λ x k. le_chain (version_of x) (version_of d) (version_of c) k below) h.0,
        ),
        h,
      )
]

-- The sorted candidates are newest first.
pub sort_newest-IsNewestFirst : (cs : List Candidate) → IsNewestFirst (sort_newest cs)
unfolding sort_newest
sort_newest-IsNewestFirst [] = tt
sort_newest-IsNewestFirst (c ∷ cs) =
    insert_newest-IsNewestFirst c (sort_newest cs) (sort_newest-IsNewestFirst cs)
