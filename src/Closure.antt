-- ===== src/Closure.antt =====
-- crates/yanuget-internalize/src/closure.rs: the packages that a package needs, with the versions that
-- every range on them allows.
pub mod Solver
pub mod Sound
pub mod Search
pub mod Resolve
pub mod Solved
pub mod Learned
pub mod Solution
pub mod Complete
mod Tests
use yanuget.Prelude.{
  ℕ, ◌+◌, Bool, true, false, not, ◌&&◌, ◌||◌, Option, none, some, List, [], ◌∷◌, map, all, any,
  is_empty, length, retain, leb, ◌==◌, if◌then◌else◌,
}
use yanuget.Prelude.Result.{Result, ok, err, ◌>>=◌}
use yanuget.Text.{Text, text, text_eq, lower, len, is_ascii_alphanumeric}
use yanuget.Version.{NuGetVersion, version_eq, is_prerelease}
use yanuget.Range.{Bound, VersionRange, contains}
use yanuget.Range.Parse.{RangeParseError, parse}

-- the fields that the resolution reads
pub record PackageInfo : Type 0 where
  pub id : Text
  pub version : NuGetVersion
  pub listed : Bool

pub record DependencyRef : Type 0 where
  pub id : Text
  pub range : Option Text

pub record Edge : Type 0 where
  pub id : Text
  pub key : Text
  pub range : VersionRange

-- `split(['.', '-'])`
abbrev is_separator : ℕ → Bool
is_separator c = c == b'.' || c == b'-'

abbrev put_first : ℕ → List Text → List Text
put_first c [] = (c ∷ []) ∷ []
put_first c (part ∷ parts) = (c ∷ part) ∷ parts

abbrev split_parts : Text → List Text
split_parts [] = [] ∷ []
split_parts (c ∷ s) =
    let parts = split_parts s in if is_separator c then [] ∷ parts else put_first c parts

abbrev is_word_char : ℕ → Bool
is_word_char c = is_ascii_alphanumeric c || c == b'_'

-- `is_valid_id` of the command line
unfoldable pub is_valid_id : Text → Bool
is_valid_id id =
    not (is_empty id)
    && leb (len id) 100
    && all (λ part. not (is_empty part) && all is_word_char part) (split_parts id)

-- why a dependency cannot be used
pub data BadEdge : Type 0 where
  not_an_id : PackageInfo → Text → BadEdge
  bad_range : PackageInfo → Text → RangeParseError → BadEdge

abbrev unwrap_or_default : Option Text → Text
unwrap_or_default none = []
unwrap_or_default (some t) = t

-- `Edge::new`
unfoldable pub new_edge : PackageInfo → DependencyRef → Result BadEdge Edge
new_edge from dep =
    if is_valid_id dep.id
    then elim (parse (unwrap_or_default dep.range)) [
      | err e ↦ err (bad_range from dep.id e)
      | ok range ↦ ok (record { id = dep.id; key = lower dep.id; range = range })
    ]
    else err (not_an_id from dep.id)

abbrev is_at : NuGetVersion → Bound → Bool
is_at v b = b.inclusive && version_eq b.version v

abbrev ends_at : NuGetVersion → Option Bound → Option Bound → Bool
ends_at v none hi = false
ends_at v (some lo) none = false
ends_at v (some lo) (some hi) = is_at v lo && is_at v hi

unfoldable pub pins : VersionRange → NuGetVersion → Bool
pins range v = ends_at v range.min range.max

-- what the source has told, by lower-case id, and by that and a version
pub record Known : Type 0 where
  pub versions : Text → Option (List PackageInfo)
  pub dependencies : Text → NuGetVersion → Option (List Edge)

abbrev pub dependencies_of : Known → PackageInfo → Option (List Edge)
dependencies_of known p = known.dependencies (lower p.id) p.version

pub data Need : Type 0 where
  versions_of : Text → Need
  edges_from : PackageInfo → Need

-- an edge, with the package that has it
pub record Demand : Type 0 where
  pub parent : PackageInfo
  pub edge : Edge

-- the first clash met
pub data Clash : Type 0 where
  does_not_fit : Demand → PackageInfo → Clash
  not_on_upstream : Text → List Demand → Clash
  no_version_fits : Text → List Demand → Clash

-- why a resolution fails; `out_of_fuel` is the model's
pub data Failure : Type 0 where
  too_many_tries : Failure
  too_many_packages : Failure
  no_set_fits : Option Clash → Failure
  out_of_fuel : Failure

pub data Stop : Type 0 where
  need : Need → Stop
  fail : Failure → Stop
