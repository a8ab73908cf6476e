-- ===== src/Prelude/Order.antt =====
-- `Ordering`, and the laws that `Ord` asks of `cmp`: a total order up to `Equal`.
use Prim.Native.Nat.{compare, Ordering}
use Prim.Native.Nat.Ordering.{lt, eq, gt}
use mathlib.Core.Path.{◌≡◌, refl}
use mathlib.Core.List.{List, [], ◌∷◌}
use mathlib.Core.Logic.{◌≢◌}
use native.Mathlib.Omega.{arith}

-- `Ordering::then`
abbrev pub then_cmp : Ordering → Ordering → Ordering
then_cmp eq second = second
then_cmp lt second = lt
then_cmp gt second = gt

-- `Ordering::reverse`
abbrev pub flip : Ordering → Ordering
flip lt = gt
flip eq = eq
flip gt = lt

-- `cmp` is antisymmetric and transitive, and equal values compare alike with every other.
pub record IsOrder {ℓ} {A : Type ℓ} (cmp : A → A → Ordering) : Type ℓ where
  pub swap : (a b : A) → cmp b a ≡ flip (cmp a b)
  pub trans : (a b c : A) → cmp a b ≡ lt → cmp b c ≡ lt → cmp a c ≡ lt
  pub cong : (a b c : A) → cmp a b ≡ eq → cmp a c ≡ cmp b c

pub compare-IsOrder : IsOrder compare
compare-IsOrder = record {
  swap = λ a b. ground arith;
  trans = λ a b c p q. ground arith;
  cong = λ a b c p. ground arith;
}

module _ {ℓ} {A : Type ℓ} where
  -- the order of slices: lexicographic, a proper prefix first
  abbrev pub lex_list : (A → A → Ordering) → List A → List A → Ordering
  lex_list cmp [] [] = eq
  lex_list cmp [] (y ∷ ys) = lt
  lex_list cmp (x ∷ xs) [] = gt
  lex_list cmp (x ∷ xs) (y ∷ ys) = then_cmp (cmp x y) (lex_list cmp xs ys)

module _ {ℓ} {A : Type ℓ} (cmp : A → A → Ordering) (o : IsOrder cmp) where
  lex_list_swap : (a b : List A) → lex_list cmp b a ≡ flip (lex_list cmp a b)
  lex_list_swap [] [] = refl
  lex_list_swap [] (y ∷ ys) = refl
  lex_list_swap (x ∷ xs) [] = refl
  lex_list_swap (x ∷ xs) (y ∷ ys) = ground (arith, o.swap x y, lex_list_swap xs ys)

  lex_list_cong : (a b c : List A) → lex_list cmp a b ≡ eq → lex_list cmp a c ≡ lex_list cmp b c
  lex_list_cong [] [] c p = refl
  lex_list_cong [] (y ∷ ys) c p = cc
  lex_list_cong (x ∷ xs) [] c p = cc
  lex_list_cong (x ∷ xs) (y ∷ ys) [] p = refl
  lex_list_cong (x ∷ xs) (y ∷ ys) (z ∷ zs) p = ground (arith, o.cong x y z, lex_list_cong xs ys zs)

  lex_list_trans :
      (a b c : List A) → lex_list cmp a b ≡ lt → lex_list cmp b c ≡ lt → lex_list cmp a c ≡ lt
  lex_list_trans [] [] c p q = cc
  lex_list_trans [] (y ∷ ys) [] p q = cc
  lex_list_trans [] (y ∷ ys) (z ∷ zs) p q = refl
  lex_list_trans (x ∷ xs) [] c p q = cc
  lex_list_trans (x ∷ xs) (y ∷ ys) [] p q = cc
  lex_list_trans (x ∷ xs) (y ∷ ys) (z ∷ zs) p q = ground (
    arith,
    o.cong x y z,
    o.trans x y z,
    o.swap y z,
    o.swap x z,
    o.swap x y,
    o.cong z y x,
    lex_list_trans xs ys zs,
  )

  pub lex_list-IsOrder : IsOrder (lex_list cmp)
  lex_list-IsOrder = record { swap = lex_list_swap; trans = lex_list_trans; cong = lex_list_cong }

-- Comparing by a key keeps the laws.
module _ {ℓ κ} {A : Type ℓ} {B : Type κ} (cmp : B → B → Ordering) (key : A → B) where
  pub on_key-IsOrder : IsOrder cmp → IsOrder (λ a b. cmp (key a) (key b))
  on_key-IsOrder o = record {
    swap = λ a b. o.swap (key a) (key b);
    trans = λ a b c. o.trans (key a) (key b) (key c);
    cong = λ a b c. o.cong (key a) (key b) (key c);
  }

-- Two orders of one type, the second deciding where the first says `Equal`.
module _ {ℓ} {A : Type ℓ} (c d : A → A → Ordering) where
  pub then_cmp-IsOrder : IsOrder c → IsOrder d → IsOrder (λ a b. then_cmp (c a b) (d a b))
  then_cmp-IsOrder p q = record {
    swap = λ a b. ground (arith, p.swap a b, q.swap a b);
    trans = λ x y z f g. ground (
      arith,
      p.cong x y z,
      p.trans x y z,
      p.swap y z,
      p.swap x z,
      p.swap x y,
      p.cong z y x,
      q.trans x y z,
    );
    cong = λ x y z f. ground (arith, p.cong x y z, q.cong x y z);
  }

-- A value is equal to itself.
module _ {ℓ} {A : Type ℓ} (cmp : A → A → Ordering) (o : IsOrder cmp) where
  pub cmp_self : (a : A) → cmp a a ≡ eq
  cmp_self a = ground (arith, o.swap a a)

  -- `≥` is the negation of `<`, and so on: what `Equal` and `Greater` say of the other side.
  pub flip_lt : (a b : A) → cmp a b ≡ gt → cmp b a ≡ lt
  flip_lt a b h = ground (arith, o.swap a b)

  pub flip_eq : (a b : A) → cmp a b ≡ eq → cmp b a ≡ eq
  flip_eq a b h = ground (arith, o.swap a b)

  -- `<` after `≤`, and `≤` after `≤`
  pub lt_of_le_lt : (a b c : A) → cmp b a ≢ lt → cmp b c ≡ lt → cmp a c ≡ lt
  lt_of_le_lt a b c p q = ground (arith, o.cong b a c, o.trans a b c, o.swap a b)

  pub lt_of_lt_le : (a b c : A) → cmp a b ≡ lt → cmp c b ≢ lt → cmp a c ≡ lt
  lt_of_lt_le a b c p q =
      ground (arith, o.cong c b a, o.trans a b c, o.swap c b, o.swap a c, o.swap a b)

  pub le_trans : (a b c : A) → cmp b a ≢ lt → cmp c b ≢ lt → cmp c a ≢ lt
  le_trans a b c p q h = q (lt_of_lt_le c a b h p)
