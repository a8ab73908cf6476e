-- ===== src/Prelude/Any.antt =====
-- `any` on filtered and mapped lists.
use Prim.Native.Nat.{◌≤◌, ◌<◌}
use mathlib.Core.Path.{◌≡◌, refl, ap}
use mathlib.Core.Logic.{◌⊎◌, inl, inr}
use mathlib.Core.Bool.{Bool, true, false, not, ◌||◌}
use mathlib.Core.List.{List, [], ◌∷◌, map}
use native.Mathlib.Omega.{arith}
use yanuget.Prelude.Tests.{Bool-cases}
use yanuget.Prelude.Lists.{any, retain, length, All}

-- What is found is found among those that a test keeps, or among those that it drops.
pub any-split {ℓ} :
    {A : Type ℓ} (p q : A → Bool) (xs : List A)
    → any p xs ≡ true
    → (any p (retain q xs) ≡ true) ⊎ (any p (retain (λ x. not (q x)) xs) ≡ true)
any-split p q [] h = cc
any-split p q (x ∷ xs) h = ground (arith, any-split p q xs)

pub any-retain {ℓ} :
    {A : Type ℓ} (p q : A → Bool) (xs : List A) → any p (retain q xs) ≡ true → any p xs ≡ true
any-retain p q [] h = cc
any-retain p q (x ∷ xs) h = ground (arith, any-retain p q xs)

pub any-map {ℓ κ} :
    {A : Type ℓ} {B : Type κ} (p : B → Bool) (f : A → B) (xs : List A)
    → any p (map f xs) ≡ any (λ x. p (f x)) xs
any-map p f [] = refl
any-map p f (x ∷ xs) = ap (λ b. p (f x) || b) (any-map p f xs)

-- A test that is none of the kept ones'.
pub any-retain_not {ℓ} :
    {A : Type ℓ} (p q : A → Bool) (xs : List A)
    → ((x : A) → q x ≡ true → p x ≡ false)
    → any p (retain q xs) ≡ false
any-retain_not p q [] h = refl
any-retain_not p q (x ∷ xs) h = ground (arith, h x, any-retain_not p q xs h)

-- More pass in all than among those that a test keeps: one of the others passes.
pub count-any {ℓ} :
    {A : Type ℓ} (p q : A → Bool) (xs : List A)
    → length (retain p (retain q xs)) < length (retain p xs)
    → any p (retain (λ x. not (q x)) xs) ≡ true
count-any p q [] h = absurd (omega (arith, h))
count-any p q (x ∷ xs) h = ground (arith, count-any p q xs)

count-le {ℓ} :
    {A : Type ℓ} (p q : A → Bool) (xs : List A)
    → length (retain p (retain q xs)) ≤ length (retain p xs)
count-le p q [] = omega arith
count-le p q (x ∷ xs) = ground (arith, count-le p q xs)

-- No more pass in all: none of the others does.
pub count-none {ℓ} :
    {A : Type ℓ} (p q : A → Bool) (xs : List A)
    → length (retain p xs) ≤ length (retain p (retain q xs))
    → any p (retain (λ x. not (q x)) xs) ≡ false
count-none p q [] h = refl
count-none p q (x ∷ xs) h = ground (arith, count-le p q xs, count-none p q xs)

module _ {ℓ κ μ} {A : Type ℓ} (q : A → Bool) (P : A → Type κ) (Q : A → Type μ) where
  -- What holds of all, and makes something hold of those that are kept.
  pub retain-All :
      (xs : List A) → ((x : A) → q x ≡ true → P x → Q x) → All P xs → All Q (retain q xs)
  retain-All [] f h = tt
  retain-All (x ∷ xs) f h = elim (Bool-cases (q x)) [
    | inl kept ↦ rw kept (f x kept h.0, retain-All xs f h.1)
    | inr dropped ↦ rw dropped (retain-All xs f h.1)
  ]

-- A filter twice is the filter.
pub any-retain_twice {ℓ} :
    {A : Type ℓ} (p q : A → Bool) (xs : List A)
    → any p (retain q xs) ≡ true
    → any p (retain q (retain q xs)) ≡ true
any-retain_twice p q [] h = h
any-retain_twice p q (x ∷ xs) h = ground (arith, any-retain_twice p q xs)

-- What is found stays found where a test keeps all that pass.
pub any-retain_kept {ℓ} :
    {A : Type ℓ} (p q : A → Bool) (xs : List A)
    → ((x : A) → p x ≡ true → q x ≡ true)
    → any p xs ≡ true
    → any p (retain q xs) ≡ true
any-retain_kept p q [] f h = h
any-retain_kept p q (x ∷ xs) f h = ground (arith, h, f x, any-retain_kept p q xs f)

-- None of those that a test drops is left.
pub any-retain_dropped {ℓ} :
    {A : Type ℓ} (q : A → Bool) (xs : List A) → any q (retain (λ x. not (q x)) xs) ≡ false
any-retain_dropped q [] = refl
any-retain_dropped q (x ∷ xs) = ground (arith, any-retain_dropped q xs)
