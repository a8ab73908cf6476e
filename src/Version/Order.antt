-- ===== src/Version/Order.antt =====
-- The order of versions: `Ord`, and that `Hash` agrees with `Eq`.
use yanuget.Prelude.{
  map, ℕ, length-map, ◌↔◌, ap, compare, Ordering, lt, eq, gt, List, [], ◌∷◌, ◌≡◌, refl, sym, ◌∙◌,
  fun_ext, arith, length, subst,
}
use yanuget.Prelude.Order.{
  flip, IsOrder, compare-IsOrder, lex_list, lex_list-IsOrder, on_key-IsOrder, then_cmp-IsOrder,
}
use yanuget.Text.{Text, text_cmp}
use yanuget.Version.{
  core, hashed, NuGetVersion, compare_identifier, compare_zipped, compare_pre_identifiers, cmp_core,
  cmp_labels, cmp_pre, cmp, HashedId, numeric, textual, hash_identifier,
}

-- numbers before texts
cmp_hashed : HashedId → HashedId → Ordering
cmp_hashed (numeric m) (numeric n) = compare m n
cmp_hashed (numeric m) (textual t) = lt
cmp_hashed (textual s) (numeric n) = gt
cmp_hashed (textual s) (textual t) = text_cmp s t

text_cmp-IsOrder : IsOrder text_cmp
text_cmp-IsOrder = lex_list-IsOrder compare compare-IsOrder

cmp_hashed_trans :
    (a b c : HashedId) → cmp_hashed a b ≡ lt → cmp_hashed b c ≡ lt → cmp_hashed a c ≡ lt
unfolding cmp_hashed
cmp_hashed_trans (numeric l) (numeric m) (numeric n) p q = compare-IsOrder.trans l m n p q
cmp_hashed_trans (numeric l) b (textual t) p q = refl
cmp_hashed_trans (numeric l) (textual s) (numeric n) p q = cc
cmp_hashed_trans (textual s) (numeric m) c p q = cc
cmp_hashed_trans (textual s) (textual t) (numeric n) p q = cc
cmp_hashed_trans (textual s) (textual t) (textual u) p q = text_cmp-IsOrder.trans s t u p q

cmp_hashed_cong : (a b c : HashedId) → cmp_hashed a b ≡ eq → cmp_hashed a c ≡ cmp_hashed b c
unfolding cmp_hashed
cmp_hashed_cong (numeric l) (numeric m) (numeric n) p = compare-IsOrder.cong l m n p
cmp_hashed_cong (numeric l) (numeric m) (textual t) p = refl
cmp_hashed_cong (numeric l) (textual s) c p = cc
cmp_hashed_cong (textual s) (numeric m) c p = cc
cmp_hashed_cong (textual s) (textual t) (numeric n) p = refl
cmp_hashed_cong (textual s) (textual t) (textual u) p = text_cmp-IsOrder.cong s t u p

cmp_hashed_swap : (a b : HashedId) → cmp_hashed b a ≡ flip (cmp_hashed a b)
unfolding cmp_hashed
cmp_hashed_swap (numeric l) (numeric m) = compare-IsOrder.swap l m
cmp_hashed_swap (numeric l) (textual s) = refl
cmp_hashed_swap (textual s) (numeric m) = refl
cmp_hashed_swap (textual s) (textual t) = text_cmp-IsOrder.swap s t

cmp_hashed-IsOrder : IsOrder cmp_hashed
cmp_hashed-IsOrder = record {
  swap = cmp_hashed_swap;
  trans = cmp_hashed_trans;
  cong = cmp_hashed_cong;
}

-- Identifiers compare as what is hashed of them.
compare_identifier_hashed :
    (a b : Text) → compare_identifier a b ≡ cmp_hashed (hash_identifier a) (hash_identifier b)
unfolding compare_identifier cmp_hashed hash_identifier
compare_identifier_hashed a b = ground arith

pub compare_identifier-IsOrder : IsOrder compare_identifier
compare_identifier-IsOrder =
    subst IsOrder (fun_ext λ a. fun_ext λ b. sym (compare_identifier_hashed a b))
      (on_key-IsOrder cmp_hashed hash_identifier cmp_hashed-IsOrder)

compare_zipped_lex :
    (a b : List Text)
    → compare_zipped a b (compare (length a) (length b)) ≡ lex_list compare_identifier a b
unfolding compare_zipped
compare_zipped_lex [] [] = refl
compare_zipped_lex [] (y ∷ ys) = ground arith
compare_zipped_lex (x ∷ xs) [] = ground arith
compare_zipped_lex (x ∷ xs) (y ∷ ys) = ground (arith, compare_zipped_lex xs ys)

-- The loop over the zipped labels, and then the lengths, is the lexicographic order.
pub compare_pre_identifiers_lex :
    (a b : List Text) → compare_pre_identifiers a b ≡ lex_list compare_identifier a b
unfolding compare_pre_identifiers
compare_pre_identifiers_lex = compare_zipped_lex

labels : List Text → List Text → Ordering
labels = lex_list compare_identifier

labels-IsOrder : IsOrder labels
unfolding labels
labels-IsOrder = lex_list-IsOrder compare_identifier compare_identifier-IsOrder

cmp_labels_lex :
    (x y : Text) (xs ys : List Text) → cmp_labels (x ∷ xs) (y ∷ ys) ≡ labels (x ∷ xs) (y ∷ ys)
unfolding labels
cmp_labels_lex x y xs ys = compare_pre_identifiers_lex (x ∷ xs) (y ∷ ys)

cmp_labels_swap : (a b : List Text) → cmp_labels b a ≡ flip (cmp_labels a b)
cmp_labels_swap [] [] = refl
cmp_labels_swap [] (y ∷ ys) = refl
cmp_labels_swap (x ∷ xs) [] = refl
cmp_labels_swap (x ∷ xs) (y ∷ ys) =
    rw (cmp_labels_lex x y xs ys, cmp_labels_lex y x ys xs) (labels-IsOrder.swap (x ∷ xs) (y ∷ ys))

cmp_labels_trans :
    (a b c : List Text) → cmp_labels a b ≡ lt → cmp_labels b c ≡ lt → cmp_labels a c ≡ lt
cmp_labels_trans [] [] c p q = cc
cmp_labels_trans [] (y ∷ ys) c p q = cc
cmp_labels_trans (x ∷ xs) b [] p q = refl
cmp_labels_trans (x ∷ xs) [] (z ∷ zs) p q = cc
cmp_labels_trans (x ∷ xs) (y ∷ ys) (z ∷ zs) p q =
    cmp_labels_lex x z xs zs
    ∙ labels-IsOrder.trans (x ∷ xs) (y ∷ ys) (z ∷ zs) (sym (cmp_labels_lex x y xs ys) ∙ p)
        (sym (cmp_labels_lex y z ys zs) ∙ q)

cmp_labels_cong : (a b c : List Text) → cmp_labels a b ≡ eq → cmp_labels a c ≡ cmp_labels b c
cmp_labels_cong [] [] c p = refl
cmp_labels_cong [] (y ∷ ys) c p = cc
cmp_labels_cong (x ∷ xs) [] c p = cc
cmp_labels_cong (x ∷ xs) (y ∷ ys) [] p = refl
cmp_labels_cong (x ∷ xs) (y ∷ ys) (z ∷ zs) p =
    cmp_labels_lex x z xs zs
    ∙ labels-IsOrder.cong (x ∷ xs) (y ∷ ys) (z ∷ zs) (sym (cmp_labels_lex x y xs ys) ∙ p)
    ∙ sym (cmp_labels_lex y z ys zs)

cmp_labels-IsOrder : IsOrder cmp_labels
cmp_labels-IsOrder = record {
  swap = cmp_labels_swap;
  trans = cmp_labels_trans;
  cong = cmp_labels_cong;
}

pub cmp_core-IsOrder : IsOrder cmp_core
unfolding cmp_core
cmp_core-IsOrder = then_cmp-IsOrder _ _ (on_key-IsOrder compare (λ v. v.major) compare-IsOrder) (
    then_cmp-IsOrder _ _ (on_key-IsOrder compare (λ v. v.minor) compare-IsOrder) (
      then_cmp-IsOrder _ _ (on_key-IsOrder compare (λ v. v.patch) compare-IsOrder)
        (on_key-IsOrder compare (λ v. v.revision) compare-IsOrder)))

-- `Ord::cmp` of versions is antisymmetric and transitive, and versions that it calls equal compare
-- alike with every version. This holds of every value of the type, parsed or not.
pub cmp-IsOrder : IsOrder cmp
unfolding cmp cmp_pre
cmp-IsOrder =
    then_cmp-IsOrder cmp_core cmp_pre cmp_core-IsOrder
      (on_key-IsOrder cmp_labels (λ v. v.pre) cmp_labels-IsOrder)

lex_list-eq_iff : (a b : List ℕ) → (lex_list compare a b ≡ eq) ↔ (a ≡ b)
lex_list-eq_iff [] [] = ground arith
lex_list-eq_iff [] (y ∷ ys) = ground arith
lex_list-eq_iff (x ∷ xs) [] = ground arith
lex_list-eq_iff (x ∷ xs) (y ∷ ys) = ground (arith, lex_list-eq_iff xs ys)

cmp_hashed-eq_iff : (a b : HashedId) → (cmp_hashed a b ≡ eq) ↔ (a ≡ b)
unfolding cmp_hashed
cmp_hashed-eq_iff (numeric l) (numeric m) = ground arith
cmp_hashed-eq_iff (numeric l) (textual s) = ground arith
cmp_hashed-eq_iff (textual s) (numeric m) = ground arith
cmp_hashed-eq_iff (textual s) (textual t) = ground (arith, lex_list-eq_iff s t)

-- Identifiers are equal exactly when the same is hashed of them.
pub compare_identifier-eq_iff :
    (a b : Text) → (compare_identifier a b ≡ eq) ↔ (hash_identifier a ≡ hash_identifier b)
compare_identifier-eq_iff a b =
    rw compare_identifier_hashed (cmp_hashed-eq_iff (hash_identifier a) (hash_identifier b))

pub labels-eq_iff :
    (a b : List Text)
    → (lex_list compare_identifier a b ≡ eq) ↔ (map hash_identifier a ≡ map hash_identifier b)
labels-eq_iff [] [] = ground arith
labels-eq_iff [] (y ∷ ys) = ground arith
labels-eq_iff (x ∷ xs) [] = ground arith
labels-eq_iff (x ∷ xs) (y ∷ ys) = ground (arith, compare_identifier-eq_iff x y, labels-eq_iff xs ys)

pub cmp_labels-eq_iff :
    (a b : List Text) → (cmp_labels a b ≡ eq) ↔ (map hash_identifier a ≡ map hash_identifier b)
cmp_labels-eq_iff [] [] = ground arith
cmp_labels-eq_iff [] (y ∷ ys) = ground arith
cmp_labels-eq_iff (x ∷ xs) [] = ground arith
cmp_labels-eq_iff (x ∷ xs) (y ∷ ys) =
    rw (cmp_labels_lex x y xs ys) (unfold labels in labels-eq_iff (x ∷ xs) (y ∷ ys))

pub cmp_core-eq_iff : (v w : NuGetVersion) → (cmp_core v w ≡ eq) ↔ (core v ≡ core w)
unfolding cmp_core
cmp_core-eq_iff v w = ground arith

length_of_map :
    (a b : List Text) → map hash_identifier a ≡ map hash_identifier b → length a ≡ length b
length_of_map a b h =
    sym (length-map hash_identifier a) ∙ ap length h ∙ length-map hash_identifier b

-- Two versions are equal exactly when `Hash::hash` feeds the hasher the same.
pub cmp-eq_iff-hashed : (v w : NuGetVersion) → (cmp v w ≡ eq) ↔ (hashed v ≡ hashed w)
unfolding cmp cmp_pre hashed
cmp-eq_iff-hashed v w =
    ground (arith, cmp_core-eq_iff v w, cmp_labels-eq_iff v.pre w.pre, length_of_map v.pre w.pre)
