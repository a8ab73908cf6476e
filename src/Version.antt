-- ===== src/Version.antt =====
-- crates/yanuget-pkg/src/version.rs: NuGet versions, how they are written and how they compare.
-- Reading them is in Version/Parse; the proofs are in the other children.
pub mod Parse
pub mod Valid
pub mod Order
pub mod Reading
pub mod RoundTrip
pub mod Identity
mod Tests
use yanuget.Prelude.{
  ℕ, ◌+◌, ◌^◌, ◌-◌, compare, Ordering, lt, eq, gt, Bool, true, false, not, ◌&&◌, ◌||◌, Option, none,
  some, List, [], ◌∷◌, ◌++◌, map, ltb, ◌==◌, if◌then◌else◌, all, is_empty, length,
}
use yanuget.Prelude.Order.{then_cmp}
use yanuget.Text.{
  Text, is_ascii_digit, is_ascii_alphanumeric, lower, text_eq, text_cmp, join, split, parse_u64,
  decimal, starts_with_char,
}

pub record NuGetVersion : Type 0 where
  pub major : ℕ
  pub minor : ℕ
  pub patch : ℕ
  pub revision : ℕ
  -- split on `.`; empty for a release
  pub pre : List Text
  pub metadata : Option Text
  pub original : Text

abbrev pub Core : Type 0
Core = ℕ × ℕ × ℕ × ℕ

abbrev pub core : NuGetVersion → Core
core v = (v.major, v.minor, v.patch, v.revision)

abbrev pub max_version_chars : ℕ
max_version_chars = 64

abbrev pub max_input_chars : ℕ
max_input_chars = 256

-- `i32::MAX`
abbrev pub max_component : ℕ
max_component = 2 ^ 31 - 1

unfoldable pub is_pre_char : ℕ → Bool
is_pre_char c = is_ascii_alphanumeric c || c == b'-'

-- one identifier, as `valid_identifiers` tests it
unfoldable pub valid_identifier : Bool → Text → Bool
valid_identifier allow_leading_zeros id =
    not (is_empty id)
    && all is_pre_char id
    && (allow_leading_zeros
        || not (all is_ascii_digit id)
        || text_eq id (b'0' ∷ [])
        || not (starts_with_char b'0' id))

unfoldable pub valid_identifiers : Text → Bool → Bool
valid_identifiers s allow_leading_zeros = all (valid_identifier allow_leading_zeros) (split b'.' s)

unfoldable pub is_prerelease : NuGetVersion → Bool
is_prerelease v = not (is_empty v.pre)

pub is_semver2 : NuGetVersion → Bool
is_semver2 v = elim v.metadata [ some _ ↦ true | none ↦ ltb 1 (length v.pre) ]

unfoldable pub core_string : NuGetVersion → Text
core_string v =
    if ltb 0 v.revision
    then decimal v.major
      ++ (b'.' ∷ (decimal v.minor ++ (b'.' ∷ (decimal v.patch ++ (b'.' ∷ decimal v.revision)))))
    else decimal v.major ++ (b'.' ∷ (decimal v.minor ++ (b'.' ∷ decimal v.patch)))

-- what is pushed for a label that is not empty
abbrev pub label_suffix : List Text → Text
label_suffix [] = []
label_suffix (p ∷ ps) = b'-' ∷ join b'.' (p ∷ ps)

abbrev pub metadata_suffix : Option Text → Text
metadata_suffix none = []
metadata_suffix (some m) = b'+' ∷ m

-- the label is lower-cased after it is joined
abbrev pub lower_label_suffix : List Text → Text
lower_label_suffix [] = []
lower_label_suffix (p ∷ ps) = b'-' ∷ lower (join b'.' (p ∷ ps))

unfoldable pub normalized : NuGetVersion → Text
normalized v = core_string v ++ lower_label_suffix v.pre

unfoldable pub to_full_string : NuGetVersion → Text
to_full_string v = core_string v ++ (label_suffix v.pre ++ metadata_suffix v.metadata)

-- the four cases of `compare_identifier`, on what `parse::<u64>` says of each side
abbrev compare_parsed : Text → Text → Option ℕ → Option ℕ → Ordering
compare_parsed a b (some na) (some nb) = compare na nb
compare_parsed a b (some na) none = lt
compare_parsed a b none (some nb) = gt
compare_parsed a b none none = text_cmp (lower a) (lower b)

unfoldable pub compare_identifier : Text → Text → Ordering
compare_identifier a b = compare_parsed a b (parse_u64 a) (parse_u64 b)

-- the loop over the zipped lists; `lengths` is the comparison behind it
compare_zipped : List Text → List Text → Ordering → Ordering
compare_zipped (x ∷ xs) (y ∷ ys) lengths =
    let rest = compare_zipped xs ys lengths in
    elim (compare_identifier x y) [ eq ↦ rest | lt ↦ lt | gt ↦ gt ]
compare_zipped [] ys lengths = lengths
compare_zipped (x ∷ xs) [] lengths = lengths

unfoldable pub compare_pre_identifiers : List Text → List Text → Ordering
unfolding compare_zipped
compare_pre_identifiers a b = compare_zipped a b (compare (length a) (length b))

-- tuples compare lexicographically
unfoldable pub cmp_core : NuGetVersion → NuGetVersion → Ordering
cmp_core v w = then_cmp (compare v.major w.major) (
    then_cmp (compare v.minor w.minor)
      (then_cmp (compare v.patch w.patch) (compare v.revision w.revision)))

abbrev cmp_labels : List Text → List Text → Ordering
cmp_labels [] [] = eq
cmp_labels [] (y ∷ ys) = gt
cmp_labels (x ∷ xs) [] = lt
cmp_labels (x ∷ xs) (y ∷ ys) = compare_pre_identifiers (x ∷ xs) (y ∷ ys)

unfoldable pub cmp_pre : NuGetVersion → NuGetVersion → Ordering
cmp_pre v w = cmp_labels v.pre w.pre

-- `Ord::cmp`
unfoldable pub cmp : NuGetVersion → NuGetVersion → Ordering
cmp v w = then_cmp (cmp_core v w) (cmp_pre v w)

-- `PartialEq::eq`
abbrev pub is_eq : Ordering → Bool
is_eq eq = true
is_eq lt = false
is_eq gt = false

unfoldable pub version_eq : NuGetVersion → NuGetVersion → Bool
version_eq v w = is_eq (cmp v w)

-- What `Hash::hash` feeds the hasher for one identifier: a tag, and a number or a text.
pub data HashedId : Type 0 where
  numeric : ℕ → HashedId
  textual : Text → HashedId

abbrev hash_parsed : Text → Option ℕ → HashedId
hash_parsed id (some n) = numeric n
hash_parsed id none = textual (lower id)

pub hash_identifier : Text → HashedId
hash_identifier id = hash_parsed id (parse_u64 id)

-- everything `Hash::hash` feeds the hasher, in order
pub hashed : NuGetVersion → Core × ℕ × List HashedId
hashed v = (core v, length v.pre, map hash_identifier v.pre)
