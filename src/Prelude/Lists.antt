-- ===== src/Prelude/Lists.antt =====
-- Lists over the native numbers, with Boolean predicates.
use Prim.Native.Nat.{ℕ, suc, ◌+◌}
use mathlib.Core.Path.{◌≡◌, refl, sym, ap, ◌∙◌, subst}
use mathlib.Core.Logic.{◌⊎◌, inl, inr}
use mathlib.Core.Bool.{Bool, true, false, ◌&&◌, ◌||◌}
use mathlib.Core.List.{List, [], ◌∷◌, ◌++◌, map, reverse, reverse_aux}
use native.Mathlib.Omega.{arith}
use yanuget.Prelude.Tests.{if◌then◌else◌, Bool-cases}

module _ {ℓ} {A : Type ℓ} where
  abbrev pub length : List A → ℕ
  length [] = 0
  length (x ∷ xs) = suc (length xs)

  -- `Iterator::all` and `Iterator::any`
  abbrev pub all : (A → Bool) → List A → Bool
  all p [] = true
  all p (x ∷ xs) = p x && all p xs

  abbrev pub any : (A → Bool) → List A → Bool
  any p [] = false
  any p (x ∷ xs) = p x || any p xs

  abbrev pub is_empty : List A → Bool
  is_empty [] = true
  is_empty (x ∷ xs) = false

  -- `Iterator::filter` with a Boolean test
  abbrev pub retain : (A → Bool) → List A → List A
  retain p [] = []
  retain p (x ∷ xs) = let rest = retain p xs in if p x then x ∷ rest else rest

  pub length-append : (xs ys : List A) → length (xs ++ ys) ≡ length xs + length ys
  length-append [] ys = omega arith
  length-append (x ∷ xs) ys = omega (arith, length-append xs ys)

  pub all-append : (p : A → Bool) (xs ys : List A) → all p (xs ++ ys) ≡ (all p xs && all p ys)
  all-append p [] ys = refl
  all-append p (x ∷ xs) ys = ground (arith, all-append p xs ys)

  pub all_mono :
      (p q : A → Bool) (xs : List A)
      → ((x : A) → p x ≡ true → q x ≡ true)
      → all p xs ≡ true
      → all q xs ≡ true
  all_mono p q [] h a = refl
  all_mono p q (x ∷ xs) h a = ground (arith, h x, all_mono p q xs h)

module _ {ℓ κ} {A : Type ℓ} {B : Type κ} where
  pub length-map : (f : A → B) (xs : List A) → length (map f xs) ≡ length xs
  length-map f [] = refl
  length-map f (x ∷ xs) = omega (arith, length-map f xs)

-- Predicates of lists, by recursion.
module _ {ℓ κ} {A : Type ℓ} (P : A → Type κ) where
  abbrev pub All : List A → Type κ
  All [] = Unit
  All (x ∷ xs) = P x × All xs

module _ {ℓ κ} {A : Type ℓ} (P : A → Type κ) where
  pub All-append : (xs ys : List A) → All P xs → All P ys → All P (xs ++ ys)
  All-append [] ys hx hy = hy
  All-append (x ∷ xs) ys hx hy = (hx.0, All-append xs ys hx.1 hy)

module _ {ℓ κ μ} {A : Type ℓ} (P : A → Type κ) (Q : A → Type μ) where
  pub All_mono : (xs : List A) → ((x : A) → P x → Q x) → All P xs → All Q xs
  All_mono [] f h = tt
  All_mono (x ∷ xs) f h = (f x h.0, All_mono xs f h.1)

-- `v` is one of the elements.
abbrev pub Among : {A : Type 0} → A → List A → Type 0
Among v [] = ⊥
Among v (x ∷ xs) = (v ≡ x) ⊎ Among v xs

module _ {A : Type 0} (p : A → Bool) where
  Among-kept :
      (v x : A) (xs rest : List A)
      → p x ≡ true
      → (Among v rest → Among v xs × (p v ≡ true))
      → Among v (x ∷ rest)
      → Among v (x ∷ xs) × (p v ≡ true)
  Among-kept v x xs rest kept ih (inl e) = (inl e, ap p e ∙ kept)
  Among-kept v x xs rest kept ih (inr m) = let (n, q) = ih m in (inr n, q)

  pub Among-retain : (v : A) (xs : List A) → Among v (retain p xs) → Among v xs × (p v ≡ true)
  Among-retain v [] h = absurd h
  Among-retain v (x ∷ xs) h = elim (Bool-cases (p x)) [
    | inl kept ↦ Among-kept v x xs (retain p xs) kept (Among-retain v xs) (rw kept at h)
    | inr dropped ↦ let (m, q) = Among-retain v xs (rw dropped at h) in (inr m, q)
  ]

module _ {ℓ κ} {A : Type ℓ} (p : A → Bool) (P : A → Type κ) where
  pub All-retain : (xs : List A) → All P (retain p xs) → All (λ x. p x ≡ true → P x) xs
  All-retain [] h = tt
  All-retain (x ∷ xs) h = elim (Bool-cases (p x)) [
    | inl kept ↦ let both = rw kept at h in (λ _. both.0, All-retain xs both.1)
    | inr dropped ↦ (λ yes_. cc, All-retain xs (rw dropped at h))
  ]

-- Every element is among the elements.
pub All_Among : {A : Type 0} (xs : List A) → All (λ x. Among x xs) xs
All_Among [] = tt
All_Among (x ∷ xs) =
    (inl refl, All_mono (λ y. Among y xs) (λ y. Among y (x ∷ xs)) xs (λ y m. inr m) (All_Among xs))

-- What holds of all elements holds of one among them.
pub at_Among {ℓ} : {A : Type 0} (P : A → Type ℓ) (x : A) (xs : List A) → Among x xs → All P xs → P x
at_Among P x [] m h = absurd m
at_Among P x (y ∷ ys) (inl e) h = subst P (sym e) h.0
at_Among P x (y ∷ ys) (inr m) h = at_Among P x ys m h.1

-- An element of a mapped list is the image of one.
pub Among-map :
    {A B : Type 0} (f : A → B) (b : B) (xs : List A)
    → Among b (map f xs)
    → (a : A) × Among a xs × (b ≡ f a)
Among-map f b [] m = absurd m
Among-map f b (x ∷ xs) (inl e) = (x, inl refl, e)
Among-map f b (x ∷ xs) (inr m) = let (a, n, e) = Among-map f b xs m in (a, inr n, e)

pub All-map {ℓ} :
    {A B : Type 0} (f : A → B) (P : B → Type ℓ) (xs : List A)
    → All P (map f xs)
    → All (λ a. P (f a)) xs
All-map f P [] h = tt
All-map f P (x ∷ xs) h = (h.0, All-map f P xs h.1)

-- An element that passes the test is kept.
pub retain-Among :
    {A : Type 0} (p : A → Bool) (x : A) (xs : List A)
    → Among x xs
    → p x ≡ true
    → Among x (retain p xs)
retain-Among p x [] m h = absurd m
retain-Among p x (y ∷ ys) (inl e) h = rw (ap p (sym e) ∙ h) (inl e)
retain-Among p x (y ∷ ys) (inr m) h = elim (Bool-cases (p y)) [
  | inl kept ↦ rw kept (inr (retain-Among p x ys m h))
  | inr dropped ↦ rw dropped (retain-Among p x ys m h)
]

-- An element of one of two lists is one of both.
pub Among-append :
    {A : Type 0} (x : A) (xs ys : List A) → Among x xs ⊎ Among x ys → Among x (xs ++ ys)
Among-append x [] ys (inl m) = absurd m
Among-append x [] ys (inr m) = m
Among-append x (y ∷ xs) ys (inl (inl e)) = inl e
Among-append x (y ∷ xs) ys (inl (inr m)) = inr (Among-append x xs ys (inl m))
Among-append x (y ∷ xs) ys (inr m) = inr (Among-append x xs ys (inr m))

reverse_aux-Among :
    {A : Type 0} (x : A) (xs ys : List A) → Among x xs ⊎ Among x ys → Among x (reverse_aux xs ys)
reverse_aux-Among x [] ys (inl m) = absurd m
reverse_aux-Among x [] ys (inr m) = m
reverse_aux-Among x (y ∷ xs) ys (inl (inl e)) = reverse_aux-Among x xs (y ∷ ys) (inr (inl e))
reverse_aux-Among x (y ∷ xs) ys (inl (inr m)) = reverse_aux-Among x xs (y ∷ ys) (inl m)
reverse_aux-Among x (y ∷ xs) ys (inr m) = reverse_aux-Among x xs (y ∷ ys) (inr (inr m))

pub reverse-Among : {A : Type 0} (x : A) (xs : List A) → Among x xs → Among x (reverse xs)
reverse-Among x xs m = reverse_aux-Among x xs [] (inl m)
