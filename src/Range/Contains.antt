-- ===== src/Range/Contains.antt =====
-- What a range contains: nothing if it is empty, and with a version every version equal to it.
use yanuget.Prelude.{eq, true, false, Option, none, some, ◌≡◌, refl, ap₂, arith, ◌&&◌}
use yanuget.Version.{NuGetVersion, cmp, version_eq}
use yanuget.Version.Order.{cmp-IsOrder}
use yanuget.Range.{Bound, VersionRange, is_empty, contains, exact, above_min, below_max}

ends_apart :
    (lo hi : Bound) (v : NuGetVersion)
    → is_empty (record { min = some lo; max = some hi }) ≡ true
    → contains (record { min = some lo; max = some hi }) v ≡ false
unfolding is_empty contains
ends_apart lo hi v h = ground (
  arith,
  cmp-IsOrder.trans v lo.version hi.version,
  cmp-IsOrder.trans lo.version v hi.version,
  cmp-IsOrder.trans hi.version v lo.version,
  cmp-IsOrder.trans hi.version lo.version v,
  cmp-IsOrder.swap v lo.version,
  cmp-IsOrder.swap v hi.version,
  cmp-IsOrder.swap lo.version hi.version,
  cmp-IsOrder.cong v lo.version hi.version,
  cmp-IsOrder.cong v hi.version lo.version,
  cmp-IsOrder.cong lo.version hi.version v,
)

-- A range that `is_empty` calls empty contains no version.
pub contains-is_empty :
    (r : VersionRange) (v : NuGetVersion) → is_empty r ≡ true → contains r v ≡ false
contains-is_empty r v h = go r.min r.max h
  where
    go :
        (lo hi : Option Bound)
        → is_empty (record { min = lo; max = hi }) ≡ true
        → contains (record { min = lo; max = hi }) v ≡ false
    go (some lo) (some hi) h = ends_apart lo hi v h
    go (some lo) none h = unfold is_empty in cc
    go none (some hi) h = unfold is_empty in cc
    go none none h = unfold is_empty in cc

above_min_cong :
    (b : Option Bound) (v w : NuGetVersion) → cmp v w ≡ eq → above_min b v ≡ above_min b w
above_min_cong none v w e = refl
above_min_cong (some b) v w e = ground (arith, cmp-IsOrder.cong v w b.version)

below_max_cong :
    (b : Option Bound) (v w : NuGetVersion) → cmp v w ≡ eq → below_max b v ≡ below_max b w
below_max_cong none v w e = refl
below_max_cong (some b) v w e = ground (arith, cmp-IsOrder.cong v w b.version)

-- Versions that compare as equal are in the same ranges.
contains_cong : (r : VersionRange) (v w : NuGetVersion) → cmp v w ≡ eq → contains r v ≡ contains r w
unfolding contains
contains_cong r v w e =
    ap₂ (λ a b. a && b) (above_min_cong r.min v w e) (below_max_cong r.max v w e)

-- `[v]` contains the versions equal to `v`, and no others.
contains-exact : (v w : NuGetVersion) → contains (exact v) w ≡ version_eq w v
unfolding contains exact version_eq
contains-exact v w = ground arith
