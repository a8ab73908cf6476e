-- ===== src/Text/Split.antt =====
-- Laws of `split_once`, `split` and `join`.
use yanuget.Prelude.{
  ℕ, Bool, true, false, none, some, List, [], ◌∷◌, ◌++◌, ◌==◌, if◌then◌else◌, all, ◌≡◌, ◌≢◌, refl,
  ap, ◌∙◌, arith, Bool-cases, Option-cases, inl, inr, all-append,
}
use yanuget.Text.{Text, lacks, split_once, split, join, onto_first}

pub split_once-lacks : (b : ℕ) (s : Text) → lacks b s ≡ true → split_once b s ≡ none
unfolding split_once
split_once-lacks b [] h = refl
split_once-lacks b (c ∷ s) h = ground (arith, split_once-lacks b s)

pub split_once-append :
    (b : ℕ) (x y : Text) → lacks b x ≡ true → split_once b (x ++ (b ∷ y)) ≡ some (x, y)
unfolding split_once
split_once-append b [] y h = ground arith
split_once-append b (c ∷ x) y h = ground (arith, split_once-append b x y)

-- What `split_once` returns are the two sides of the first `b`.
pub split_once-some :
    (b : ℕ) (s : Text) {x y : Text}
    → split_once b s ≡ some (x, y)
    → (s ≡ x ++ (b ∷ y)) × (lacks b x ≡ true)
unfolding split_once
split_once-some b [] h = cc
split_once-some b (c ∷ s) {x} {y} h = elim (Bool-cases (c == b)) [
  | inl e ↦ ground arith
  | inr e ↦ elim (Option-cases (split_once b s)) [
    | inl n ↦ ground arith
    | inr (xy, f) ↦ ground (arith, split_once-some b s {x = xy.0} {y = xy.1} f)
  ]
]

pub split-lacks : (b : ℕ) (s : Text) → lacks b s ≡ true → split b s ≡ s ∷ []
unfolding split
split-lacks b [] h = refl
split-lacks b (c ∷ s) h = ground (arith, split-lacks b s)

pub split-append : (b : ℕ) (x y : Text) → lacks b x ≡ true → split b (x ++ (b ∷ y)) ≡ x ∷ split b y
unfolding split
split-append b [] y h = ground arith
split-append b (c ∷ x) y h = ground (arith, split-append b x y)

pub split-join :
    (b : ℕ) (p : Text) (ps : List Text)
    → all (lacks b) (p ∷ ps) ≡ true
    → split b (join b (p ∷ ps)) ≡ p ∷ ps
unfolding join
split-join b p [] h = split-lacks b p (ground arith)
split-join b p (q ∷ ps) h =
    split-append b p (join b (q ∷ ps)) (ground arith)
    ∙ ap (λ t. p ∷ t) (split-join b q ps (ground arith))

onto_first-lacks :
    (b c : ℕ) (ps : List Text)
    → (c == b) ≡ false
    → all (lacks b) ps ≡ true
    → all (lacks b) (onto_first c ps) ≡ true
onto_first-lacks b c [] e h = rw e
onto_first-lacks b c (p ∷ ps) e h = rw e h

-- No piece holds the separator.
pub split-all-lacks : (b : ℕ) (s : Text) → all (lacks b) (split b s) ≡ true
unfolding split
split-all-lacks b [] = refl
split-all-lacks b (c ∷ s) = elim (Bool-cases (c == b)) [
  | inl e ↦ rw e (split-all-lacks b s)
  | inr e ↦ rw e (onto_first-lacks b c (split b s) e (split-all-lacks b s))
]

split_step_ne : (b c : ℕ) (ps : List Text) → (if c == b then [] ∷ ps else onto_first c ps) ≢ []
split_step_ne b c [] h = ground arith
split_step_ne b c (p ∷ ps) h = ground arith

pub split-ne-nil : (b : ℕ) (s : Text) → split b s ≢ []
unfolding split
split-ne-nil b [] h = cc
split-ne-nil b (c ∷ s) h = split_step_ne b c (split b s) h

pub join-onto_first :
    (b c : ℕ) (ps : List Text) → ps ≢ [] → join b (onto_first c ps) ≡ c ∷ join b ps
unfolding join
join-onto_first b c [] h = absurd (h refl)
join-onto_first b c (p ∷ []) h = refl
join-onto_first b c (p ∷ q ∷ ps) h = refl

-- Joining the pieces gives the text back.
pub join-split : (b : ℕ) (s : Text) → join b (split b s) ≡ s
unfolding split join
join-split b [] = refl
join-split b (c ∷ s) = elim (Bool-cases (c == b)) [
  | inl e ↦ rw e (join_nil (split b s) (split-ne-nil b s) ∙ ground (arith, join-split b s))
  | inr e ↦
      rw e (join-onto_first b c (split b s) (split-ne-nil b s) ∙ ap (λ t. c ∷ t) (join-split b s))
]
  where
    join_nil : (ps : List Text) → ps ≢ [] → join b ([] ∷ ps) ≡ b ∷ join b ps
    join_nil [] h = absurd (h refl)
    join_nil (p ∷ ps) h = refl

-- A test on characters that holds of the pieces and of the separator holds of the joined text.
pub all-join :
    (p : ℕ → Bool) (b : ℕ) (ps : List Text)
    → p b ≡ true
    → all (all p) ps ≡ true
    → all p (join b ps) ≡ true
unfolding join
all-join p b [] hb h = refl
all-join p b (x ∷ []) hb h = ground arith
all-join p b (x ∷ y ∷ ps) hb h =
    all-append p x (b ∷ join b (y ∷ ps)) ∙ ground (arith, all-join p b (y ∷ ps))
