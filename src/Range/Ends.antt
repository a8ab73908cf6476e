-- ===== src/Range/Ends.antt =====
-- The ends of the ranges that `VersionRange::parse` returns, and what `contains` says of them.
use yanuget.Prelude.{eq, lt, true, false, Option, none, some, ◌≡◌, ◌⊎◌, sym, subst, arith}
use yanuget.Prelude.Result.{ok}
use yanuget.Text.{Text}
use yanuget.Version.{NuGetVersion, cmp}
use yanuget.Version.Order.{cmp-IsOrder}
use yanuget.Range.{Bound, VersionRange, contains, is_empty}
use yanuget.Range.Parse.{parse}
use yanuget.Range.Valid.{ValidBound, parse_range-IsValid}

-- valid versions for the ends, in order, each contained exactly if it is written as inclusive
pub record HasEnds (r : VersionRange) : Type 0 where
  pub min_valid : ValidBound r.min
  pub max_valid : ValidBound r.max
  pub ordered :
      (lo hi : Bound)
      → r.min ≡ some lo
      → r.max ≡ some hi
      → (cmp lo.version hi.version ≡ lt)
        ⊎ ((cmp lo.version hi.version ≡ eq) × (lo.inclusive ≡ true) × (hi.inclusive ≡ true))
  pub min_contained : (lo : Bound) → r.min ≡ some lo → contains r lo.version ≡ lo.inclusive
  pub max_contained : (hi : Bound) → r.max ≡ some hi → contains r hi.version ≡ hi.inclusive

abbrev between : Option Bound → Option Bound → VersionRange
between lo hi = record { min = lo; max = hi }

cmp_self : (v : NuGetVersion) → cmp v v ≡ eq
cmp_self v = ground (arith, cmp-IsOrder.swap v v)

ordered_ends :
    (lo hi : Bound)
    → is_empty (between (some lo) (some hi)) ≡ false
    → (cmp lo.version hi.version ≡ lt)
      ⊎ ((cmp lo.version hi.version ≡ eq) × (lo.inclusive ≡ true) × (hi.inclusive ≡ true))
unfolding is_empty
ordered_ends lo hi h = ground arith

contains-min :
    (lo : Bound) (max : Option Bound)
    → is_empty (between (some lo) max) ≡ false
    → contains (between (some lo) max) lo.version ≡ lo.inclusive
unfolding is_empty contains
contains-min lo none h = ground (arith, cmp_self lo.version)
contains-min lo (some hi) h = ground (arith, h, cmp_self lo.version)

contains-max :
    (min : Option Bound) (hi : Bound)
    → is_empty (between min (some hi)) ≡ false
    → contains (between min (some hi)) hi.version ≡ hi.inclusive
unfolding is_empty contains
contains-max none hi h = ground (arith, cmp_self hi.version)
contains-max (some lo) hi h =
    ground (arith, h, cmp_self hi.version, cmp-IsOrder.swap lo.version hi.version)

module _ (r : VersionRange) (h : is_empty r ≡ false) where
  from_min : (lo : Bound) → r.min ≡ some lo → is_empty (between (some lo) r.max) ≡ false
  from_min lo e = subst (λ m. is_empty (between m r.max) ≡ false) e h

  from_ends :
      (lo hi : Bound)
      → r.min ≡ some lo
      → r.max ≡ some hi
      → is_empty (between (some lo) (some hi)) ≡ false
  from_ends lo hi e f = subst (λ m. is_empty (between (some lo) m) ≡ false) f (from_min lo e)

  at_min : (lo : Bound) → r.min ≡ some lo → contains r lo.version ≡ lo.inclusive
  at_min lo e =
      subst (λ m. contains (between m r.max) lo.version ≡ lo.inclusive) (sym e)
        (contains-min lo r.max (from_min lo e))

  at_max : (hi : Bound) → r.max ≡ some hi → contains r hi.version ≡ hi.inclusive
  at_max hi e =
      subst (λ m. contains (between r.min m) hi.version ≡ hi.inclusive) (sym e)
        (contains-max r.min hi (subst (λ m. is_empty (between r.min m) ≡ false) e h))

-- The ends of a parsed range are valid versions; the lower one is less than the upper one, or equal to it
-- with both inclusive; and each is in the range exactly if it is inclusive.
pub parse_range-HasEnds : (input : Text) {r : VersionRange} → parse input ≡ ok r → HasEnds r
parse_range-HasEnds input {r} h =
    let v = parse_range-IsValid input h in
    record {
      min_valid = v.min_valid;
      max_valid = v.max_valid;
      ordered = λ lo hi e f. ordered_ends lo hi (from_ends r v.nonempty lo hi e f);
      min_contained = at_min r v.nonempty;
      max_contained = at_max r v.nonempty;
    }
