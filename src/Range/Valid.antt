-- ===== src/Range/Valid.antt =====
-- What `VersionRange::parse` guarantees of the ranges that it returns.
use yanuget.Prelude.{
  ℕ, Bool, false, Option, none, some, [], ◌∷◌, ◌≡◌, refl, arith, ◌&&◌, ◌||◌, ◌==◌, Bool-cases,
  Option-cases, inl, inr, is_empty, any, ltb, subst,
}
use yanuget.Prelude.Result.{ok, >>=-eq-ok, ok-injective, Result-cases}
use yanuget.Text.{Text, trim, split_once, len}
use yanuget.Version.{NuGetVersion}
use yanuget.Version.Parse.{parse as parse_version}
use yanuget.Version.Valid.{IsValid as IsValidVersion, parse-IsValid as parse_version-IsValid}
use yanuget.Range.{Bound, VersionRange, exact, at_least, is_empty as is_empty_range}
use yanuget.Range.Parse.{
  version, side, two_sides, between, satisfiable, closed, bare, parse_trimmed, parse, split_last,
  is_bracket_or_star, is_range_mark, max_range_chars,
}

abbrev pub ValidBound : Option Bound → Type 0
ValidBound none = Unit
ValidBound (some b) = IsValidVersion b.version

pub record IsValid (r : VersionRange) : Type 0 where
  pub min_valid : ValidBound r.min
  pub max_valid : ValidBound r.max
  pub nonempty : is_empty_range r ≡ false

abbrev ValidBounds : VersionRange → Type 0
ValidBounds r = ValidBound r.min × ValidBound r.max

module _ (input : Text) where
  version_valid : (s : Text) {v : NuGetVersion} → version input s ≡ ok v → IsValidVersion v
  unfolding version
  version_valid s h = elim (Result-cases (parse_version (trim s))) [
    | inl (w, e) ↦
        let same = ok-injective (rw (e, version) at h) in
        rw (← same) (parse_version-IsValid (trim s) e)
    | inr (w, e) ↦ ground arith
  ]

  side_valid :
      (s : Text) (inclusive : Bool) {b : Option Bound}
      → side input s inclusive ≡ ok b
      → ValidBound b
  unfolding side
  side_valid s inclusive {b} h = elim (Bool-cases (is_empty s)) [
    | inl none_ ↦ let same = ok-injective (rw none_ at h) in rw (← same) tt
    | inr some_ ↦
        let (v, e, f) = >>=-eq-ok (version input s) _ (rw some_ at h) in
        let same = ok-injective f in rw (← same) (version_valid s e)
  ]

  two_sides_valid :
      (lo hi : Text) (i j : Bool) {r : VersionRange}
      → two_sides input lo hi i j ≡ ok r
      → ValidBounds r
  unfolding two_sides
  two_sides_valid lo hi i j {r} h = elim (Bool-cases (is_empty lo && is_empty hi)) [
    | inl none_ ↦ ground arith
    | inr some_ ↦
        let (a, e, f) = >>=-eq-ok (side input lo i) _ (rw some_ at h) in
        let (b, g, k) = >>=-eq-ok (side input hi j) _ f in
        let same : r ≡ record { min = a; max = b } = ground arith in
        rw same (side_valid lo i e, side_valid hi j g)
  ]

  between_valid :
      (inner : Text) (i j : Bool) {r : VersionRange}
      → between input inner i j ≡ ok r
      → ValidBounds r
  unfolding between exact
  between_valid inner i j {r} h = elim (Option-cases (split_once b',' inner)) [
    | inl one ↦ elim (Bool-cases (i && j)) [
      | inl both ↦
          let (v, e, f) = >>=-eq-ok (version input inner) _ (rw both at (rw (one, between) at h)) in
          let valid = version_valid inner e in rw (← ok-injective f) (valid, valid)
      | inr not_ ↦ ground arith
    ]
    | inr (p, two) ↦ elim (Bool-cases (any (λ c. c == b',') p.1)) [
      | inl more ↦ ground arith
      | inr fine ↦ two_sides_valid (trim p.0) (trim p.1) i j (rw fine at (rw (two, between) at h))
    ]
  ]

  satisfiable_ok :
      (q : VersionRange) {r : VersionRange}
      → satisfiable input q ≡ ok r
      → (q ≡ r) × (is_empty_range q ≡ false)
  unfolding satisfiable
  satisfiable_ok q h = ground arith

  of_parts : (q r : VersionRange) → ValidBounds q → (q ≡ r) × (is_empty_range q ≡ false) → IsValid r
  of_parts q r (lo, hi) (e, n) =
      subst IsValid e (record { min_valid = lo; max_valid = hi; nonempty = n })

  closed-IsValid :
      (c : ℕ) (inner : Text) (d : ℕ) {r : VersionRange} → closed input c inner d ≡ ok r → IsValid r
  unfolding closed
  closed-IsValid c inner d {r} h = elim (Bool-cases (d == b']' || d == b')')) [
    | inl fine ↦ elim (Bool-cases (any is_bracket_or_star inner)) [
      | inl nested ↦ ground arith
      | inr plain ↦
          let (q, e, f) =
            >>=-eq-ok (between input inner (c == b'[') (d == b']')) _
              (rw plain at (rw fine at h)) in
          of_parts q r (between_valid inner (c == b'[') (d == b']') e) (satisfiable_ok q f)
    ]
    | inr other ↦ ground arith
  ]

  bare-IsValid : (s : Text) {r : VersionRange} → bare input s ≡ ok r → IsValid r
  unfolding bare at_least is_empty_range
  bare-IsValid s h = elim (Bool-cases (any is_range_mark s)) [
    | inl stray ↦ ground arith
    | inr plain ↦
        let (v, e, f) = >>=-eq-ok (version input s) _ (rw plain at h) in
        subst IsValid (ok-injective f)
          (record { min_valid = version_valid s e; max_valid = tt; nonempty = refl })
  ]

  parse_trimmed-IsValid : (s : Text) {r : VersionRange} → parse_trimmed input s ≡ ok r → IsValid r
  unfolding parse_trimmed is_empty_range
  parse_trimmed-IsValid [] h =
      subst IsValid (ok-injective h) (record { min_valid = tt; max_valid = tt; nonempty = refl })
  parse_trimmed-IsValid (c ∷ s) h = elim (Bool-cases (c == b'[' || c == b'(')) [
    | inl bracket ↦ elim (Option-cases (split_last s)) [
      | inl alone ↦ ground arith
      | inr (p, e) ↦ closed-IsValid c p.0 p.1 (rw (e, parse_trimmed) at (rw bracket at h))
    ]
    | inr no_bracket ↦ bare-IsValid (c ∷ s) (rw no_bracket at h)
  ]

-- Every range that `parse` returns has valid versions for its bounds, and `is_empty` does not hold of it.
pub parse_range-IsValid : (input : Text) {r : VersionRange} → parse input ≡ ok r → IsValid r
unfolding parse
parse_range-IsValid input h = elim (Bool-cases (ltb max_range_chars (len (trim input)))) [
  | inl long ↦ ground arith
  | inr short ↦ parse_trimmed-IsValid input (trim input) (rw short at h)
]
