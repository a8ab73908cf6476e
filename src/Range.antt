-- ===== src/Range.antt =====
-- crates/yanuget-pkg/src/range.rs: NuGet version ranges. Reading them is in Range/Parse.
pub mod Parse
pub mod Valid
pub mod Ends
pub mod Contains
pub mod Best
pub mod Sides
pub mod RoundTrip
mod Tests
use yanuget.Prelude.{
  ℕ, Ordering, lt, eq, gt, Bool, true, false, not, ◌&&◌, ◌||◌, Option, none, some, List, [], ◌∷◌,
  ◌++◌, if◌then◌else◌, any, retain,
}
use yanuget.Text.{Text, text}
use yanuget.Version.{NuGetVersion, cmp, version_eq, is_prerelease, normalized as normalized_version}

pub record Bound : Type 0 where
  pub version : NuGetVersion
  pub inclusive : Bool

-- either end may be open
pub record VersionRange : Type 0 where
  pub min : Option Bound
  pub max : Option Bound

-- `VersionRange::any`
abbrev pub any_version : VersionRange
any_version = record { min = none; max = none }

pub exact : NuGetVersion → VersionRange
exact v = record {
  min = some (record { version = v; inclusive = true });
  max = some (record { version = v; inclusive = true });
}

pub at_least : NuGetVersion → VersionRange
at_least v = record { min = some (record { version = v; inclusive = true }); max = none }

-- the two ends against one another
abbrev ends_empty : Ordering → Bool → Bool → Bool
ends_empty gt lo hi = true
ends_empty eq lo hi = not (lo && hi)
ends_empty lt lo hi = false

abbrev empty_between : Option Bound → Option Bound → Bool
empty_between (some lo) (some hi) = ends_empty (cmp lo.version hi.version) lo.inclusive hi.inclusive
empty_between (some lo) none = false
empty_between none hi = false

unfoldable pub is_empty : VersionRange → Bool
is_empty r = empty_between r.min r.max

-- `>=` and `>` of the derived operators
abbrev pub is_ge : Ordering → Bool
is_ge lt = false
is_ge eq = true
is_ge gt = true

abbrev pub is_gt : Ordering → Bool
is_gt lt = false
is_gt eq = false
is_gt gt = true

abbrev pub is_le : Ordering → Bool
is_le lt = true
is_le eq = true
is_le gt = false

abbrev pub is_lt : Ordering → Bool
is_lt lt = true
is_lt eq = false
is_lt gt = false

abbrev pub above_min : Option Bound → NuGetVersion → Bool
above_min none v = true
above_min (some b) v = if b.inclusive then is_ge (cmp v b.version) else is_gt (cmp v b.version)

abbrev pub below_max : Option Bound → NuGetVersion → Bool
below_max none v = true
below_max (some b) v = if b.inclusive then is_le (cmp v b.version) else is_lt (cmp v b.version)

unfoldable pub contains : VersionRange → NuGetVersion → Bool
contains r v = above_min r.min v && below_max r.max v

abbrev prerelease_bound : Option Bound → Bool
prerelease_bound none = false
prerelease_bound (some b) = is_prerelease b.version

pub has_prerelease_bound : VersionRange → Bool
has_prerelease_bound r = prerelease_bound r.min || prerelease_bound r.max

-- `Iterator::min`: the first of the least
pub least_from : NuGetVersion → List NuGetVersion → NuGetVersion
least_from x [] = x
least_from x (y ∷ ys) = least_from (if is_gt (cmp x y) then y else x) ys

abbrev pub least : List NuGetVersion → Option NuGetVersion
least [] = none
least (x ∷ xs) = some (least_from x xs)

-- `Iterator::max`: the last of the greatest
unfoldable pub greatest_from : NuGetVersion → List NuGetVersion → NuGetVersion
greatest_from x [] = x
greatest_from x (y ∷ ys) = greatest_from (if is_gt (cmp x y) then x else y) ys

abbrev pub greatest : List NuGetVersion → Option NuGetVersion
greatest [] = none
greatest (x ∷ xs) = some (greatest_from x xs)

-- the filter of `best_match`
pub is_candidate : VersionRange → Bool → NuGetVersion → Bool
is_candidate r allow_prerelease v =
    contains r v && ((allow_prerelease || has_prerelease_bound r) || not (is_prerelease v))

abbrev pub pick : Option Bound → List NuGetVersion → Option NuGetVersion
pick (some _) candidates = least candidates
pick none candidates = greatest candidates

pub best_match : VersionRange → List NuGetVersion → Bool → Option NuGetVersion
best_match r available allow_prerelease =
    pick r.min (retain (is_candidate r allow_prerelease) available)

abbrev pub bound_text : Option Bound → Text
bound_text none = []
bound_text (some b) = normalized_version b.version

abbrev pub is_inclusive : Option Bound → Bool
is_inclusive none = false
is_inclusive (some b) = b.inclusive

-- the form with both ends
abbrev pub interval_text : Option Bound → Option Bound → Text
interval_text lo hi =
    (if is_inclusive lo then b'[' else b'(')
    ∷ (bound_text lo
        ++ (b',' ∷ b' ' ∷ (bound_text hi ++ (if is_inclusive hi then b']' else b')') ∷ [])))

abbrev range_text : Option Bound → Option Bound → Text
range_text none none = []
range_text (some lo) (some hi) =
    if (lo.inclusive && hi.inclusive) && version_eq lo.version hi.version
    then b'[' ∷ (normalized_version lo.version ++ b']' ∷ [])
    else interval_text (some lo) (some hi)
range_text (some lo) none = interval_text (some lo) none
range_text none (some hi) = interval_text none (some hi)

pub normalized : VersionRange → Text
normalized r = range_text r.min r.max
