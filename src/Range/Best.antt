-- ===== src/Range/Best.antt =====
-- `best_match` returns the best candidate, and one whenever there is one.
use yanuget.Prelude.{
  subst, lt, Bool, true, false, Option, none, some, List, [], ◌∷◌, ◌≡◌, ◌≢◌, ◌⊎◌, inl, inr, refl,
  sym, arith, Bool-cases, retain, All, Among, Among-retain, All-retain,
}
use yanuget.Prelude.Order.{le_trans, cmp_self}
use yanuget.Version.{NuGetVersion, cmp, is_prerelease}
use yanuget.Version.Order.{cmp-IsOrder}
use yanuget.Range.{
  Bound, VersionRange, contains, has_prerelease_bound, least_from, greatest_from, is_gt,
  is_candidate, pick, best_match,
}

infix 50 ◌≤ᵥ◌
-- `v` is not above `w`
abbrev pub ◌≤ᵥ◌ : NuGetVersion → NuGetVersion → Type 0
v ≤ᵥ w = cmp w v ≢ lt

pub le_self : (v : NuGetVersion) → v ≤ᵥ v
le_self v h = ground (arith, cmp_self cmp cmp-IsOrder v)

pub le_chain : (u v w : NuGetVersion) → u ≤ᵥ v → v ≤ᵥ w → u ≤ᵥ w
le_chain u v w = le_trans cmp cmp-IsOrder u v w

le_of_not_gt : (v w : NuGetVersion) → is_gt (cmp v w) ≡ false → v ≤ᵥ w
le_of_not_gt v w h e = ground (arith, cmp-IsOrder.swap v w)

le_of_gt : (v w : NuGetVersion) → is_gt (cmp v w) ≡ true → w ≤ᵥ v
le_of_gt v w h e = ground arith

-- one round of `min` and of `max`
least_from_above :
    (x y : NuGetVersion) (ys : List NuGetVersion)
    → is_gt (cmp x y) ≡ true
    → least_from x (y ∷ ys) ≡ least_from y ys
unfolding least_from
least_from_above x y ys h = rw h

least_from_below :
    (x y : NuGetVersion) (ys : List NuGetVersion)
    → is_gt (cmp x y) ≡ false
    → least_from x (y ∷ ys) ≡ least_from x ys
unfolding least_from
least_from_below x y ys h = rw h

greatest_from_above :
    (x y : NuGetVersion) (ys : List NuGetVersion)
    → is_gt (cmp x y) ≡ true
    → greatest_from x (y ∷ ys) ≡ greatest_from x ys
unfolding greatest_from
greatest_from_above x y ys h = rw h

greatest_from_below :
    (x y : NuGetVersion) (ys : List NuGetVersion)
    → is_gt (cmp x y) ≡ false
    → greatest_from x (y ∷ ys) ≡ greatest_from y ys
unfolding greatest_from
greatest_from_below x y ys h = rw h

-- Skipping the second of three keeps a version among them.
skip_second :
    {v : NuGetVersion} (x y : NuGetVersion) (ys : List NuGetVersion)
    → Among v (x ∷ ys)
    → Among v (x ∷ y ∷ ys)
skip_second x y ys (inl e) = inl e
skip_second x y ys (inr m) = inr (inr m)

-- `l` is one of the versions, and below all of them.
abbrev Least : NuGetVersion → NuGetVersion → List NuGetVersion → Type 0
Least l x ys = Among l (x ∷ ys) × (l ≤ᵥ x) × All (λ y. l ≤ᵥ y) ys

abbrev pub Greatest : NuGetVersion → NuGetVersion → List NuGetVersion → Type 0
Greatest g x ys = Among g (x ∷ ys) × (x ≤ᵥ g) × All (λ y. y ≤ᵥ g) ys

least_from-Least : (x : NuGetVersion) (ys : List NuGetVersion) → Least (least_from x ys) x ys
least_from-Least x [] = unfold least_from in (inl refl, le_self x, tt)
least_from-Least x (y ∷ ys) = elim (Bool-cases (is_gt (cmp x y))) [
  | inl above ↦
      let (m, h, a) = least_from-Least y ys in
      subst (λ l. Least l x (y ∷ ys)) (sym (least_from_above x y ys above))
        (inr m, le_chain _ y x h (le_of_gt x y above), (h, a))
  | inr below ↦
      let (m, h, a) = least_from-Least x ys in
      subst (λ l. Least l x (y ∷ ys)) (sym (least_from_below x y ys below))
        (skip_second x y ys m, h, (le_chain _ x y h (le_of_not_gt x y below), a))
]

pub greatest_from-Greatest :
    (x : NuGetVersion) (ys : List NuGetVersion) → Greatest (greatest_from x ys) x ys
greatest_from-Greatest x [] = unfold greatest_from in (inl refl, le_self x, tt)
greatest_from-Greatest x (y ∷ ys) = elim (Bool-cases (is_gt (cmp x y))) [
  | inl above ↦
      let (m, h, a) = greatest_from-Greatest x ys in
      subst (λ g. Greatest g x (y ∷ ys)) (sym (greatest_from_above x y ys above))
        (skip_second x y ys m, h, (le_chain y x _ (le_of_gt x y above) h, a))
  | inr below ↦
      let (m, h, a) = greatest_from-Greatest y ys in
      subst (λ g. Greatest g x (y ∷ ys)) (sym (greatest_from_below x y ys below))
        (inr m, le_chain x y _ (le_of_not_gt x y below) h, (h, a))
]

-- Better: lower where the range has a lower bound, higher where it has none.
abbrev pub AtLeastAsGood : Option Bound → NuGetVersion → NuGetVersion → Type 0
AtLeastAsGood (some _) v w = v ≤ᵥ w
AtLeastAsGood none v w = w ≤ᵥ v

-- A version that a dependency on the range may resolve to.
pub record Candidate (r : VersionRange) (allow_prerelease : Bool) (v : NuGetVersion) : Type 0 where
  pub inside : contains r v ≡ true
  pub channel : (v.pre ≡ []) ⊎ (allow_prerelease ≡ true) ⊎ (has_prerelease_bound r ≡ true)

Candidate-of_test :
    (r : VersionRange) (a : Bool) (v : NuGetVersion) → is_candidate r a v ≡ true → Candidate r a v
unfolding is_candidate is_prerelease
Candidate-of_test r a v h = record { inside = ground arith; channel = ground arith }

test_of_Candidate :
    (r : VersionRange) (a : Bool) (v : NuGetVersion) → Candidate r a v → is_candidate r a v ≡ true
unfolding is_candidate is_prerelease
test_of_Candidate r a v c = ground (arith, c.inside, c.channel)

-- What `best_match` may answer.
abbrev pub IsAnswer : VersionRange → List NuGetVersion → Bool → Option NuGetVersion → Type 0
IsAnswer r available a none = All (λ w. ¬ Candidate r a w) available
IsAnswer r available a (some v) =
    Among v available
    × Candidate r a v
    × All (λ w. Candidate r a w → AtLeastAsGood r.min v w) available

-- What `pick` answers from a list of candidates.
abbrev IsPick : Option Bound → List NuGetVersion → Option NuGetVersion → Type 0
IsPick b cs none = cs ≡ []
IsPick b cs (some v) = Among v cs × All (λ w. AtLeastAsGood b v w) cs

pick-IsPick : (b : Option Bound) (cs : List NuGetVersion) → IsPick b cs (pick b cs)
pick-IsPick none [] = refl
pick-IsPick (some b) [] = refl
pick-IsPick none (x ∷ xs) = let (m, h, a) = greatest_from-Greatest x xs in (m, (h, a))
pick-IsPick (some b) (x ∷ xs) = let (m, h, a) = least_from-Least x xs in (m, (h, a))

no_candidates :
    (r : VersionRange) (a : Bool) (available : List NuGetVersion)
    → retain (is_candidate r a) available ≡ []
    → All (λ w. ¬ Candidate r a w) available
no_candidates r a [] h = tt
no_candidates r a (x ∷ xs) h = elim (Bool-cases (is_candidate r a x)) [
  | inl is ↦ ground arith
  | inr not_ ↦ (λ c. ground (arith, test_of_Candidate r a x c), no_candidates r a xs (rw not_ at h))
]

All-candidates :
    (r : VersionRange) (a : Bool) (P : NuGetVersion → Type 0) (available : List NuGetVersion)
    → All (λ w. is_candidate r a w ≡ true → P w) available
    → All (λ w. Candidate r a w → P w) available
All-candidates r a P [] h = tt
All-candidates r a P (x ∷ xs) h =
    (λ c. h.0 (test_of_Candidate r a x c), All-candidates r a P xs h.1)

IsAnswer-of_pick :
    (r : VersionRange) (available : List NuGetVersion) (a : Bool) (o : Option NuGetVersion)
    → IsPick r.min (retain (is_candidate r a) available) o
    → IsAnswer r available a o
IsAnswer-of_pick r available a none h = no_candidates r a available h
IsAnswer-of_pick r available a (some v) (m, best) =
    let (among, test) = Among-retain (is_candidate r a) v available m in
    (
      among,
      Candidate-of_test r a v test,
      All-candidates r a (λ w. AtLeastAsGood r.min v w) available
          (All-retain (is_candidate r a) (λ w. AtLeastAsGood r.min v w) available best),
    )

-- `best_match` returns one of the available versions that is a candidate, lowest among the
-- candidates if the range has a lower bound and highest if it has none; it returns none only if no
-- available version is a candidate. A candidate lies in the range, and is a release unless
-- pre-releases are allowed or a bound of the range is one.
pub best_match-IsAnswer :
    (r : VersionRange) (available : List NuGetVersion) (allow_prerelease : Bool)
    → IsAnswer r available allow_prerelease (best_match r available allow_prerelease)
unfolding best_match
best_match-IsAnswer r available a =
    IsAnswer-of_pick r available a (best_match r available a)
      (pick-IsPick r.min (retain (is_candidate r a) available))
