-- ===== src/Range/Tests.antt =====
-- Runs of the range code on the inputs of the source's own tests, and the theorems at them.
use yanuget.Prelude.{ℕ, eq, true, false, none, some, [], ◌∷◌, ◌≡◌, refl}
use yanuget.Prelude.Result.{ok, err}
use yanuget.Text.{
  text, trim, trim_start, trim_end, is_whitespace, len, split, split_once, join, parse_u64, decimal,
}
use yanuget.Version.{
  NuGetVersion, core_string, to_full_string, cmp, cmp_core, cmp_pre, is_pre_char, valid_identifier,
  valid_identifiers,
}
use yanuget.Version.Parse.{parse_component, parse as parse_version}
use yanuget.Range.{VersionRange, is_empty, contains, best_match, normalized}
use yanuget.Range.Parse.{parse, single_not_exact, unsatisfiable, stray_brackets, inclusive_open_end}
use yanuget.Range.Valid.{IsValid, parse_range-IsValid}
use yanuget.Range.Contains.{contains-is_empty}
use yanuget.Range.Ends.{HasEnds, parse_range-HasEnds}
use yanuget.Range.Best.{IsAnswer, best_match-IsAnswer}
use Prim.Native.String.{String}
use yanuget.Range.Sides.{SameRange}
use yanuget.Range.RoundTrip.{parse-normalized_range}

abbrev release : ℕ → String → NuGetVersion
release n s = record {
  major = n;
  minor = 0;
  patch = 0;
  revision = 0;
  pre = [];
  metadata = none;
  original = text s;
}

abbrev half_open : VersionRange
half_open = record {
  min = some (record { version = release 1 "1.0"; inclusive = true });
  max = some (record { version = release 2 "2.0"; inclusive = false });
}

abbrev nothing : VersionRange
nothing = record {
  min = some (record { version = release 2 "2.0"; inclusive = true });
  max = some (record { version = release 1 "1.0"; inclusive = true });
}

reads_half_open : parse (text " [ 1.0 , 2.0 ) ") ≡ ok half_open
unfolding parse parse_version trim trim_start trim_end is_whitespace len split split_once join
    parse_u64 decimal to_full_string core_string is_pre_char valid_identifier valid_identifiers
    parse_component is_empty cmp cmp_core
reads_half_open = refl

refuses_range :
    (parse (text "(1.0)") ≡ err (record { input = text "(1.0)"; why = single_not_exact }))
    × (parse (text "[2.0,1.0]") ≡ err (record { input = text "[2.0,1.0]"; why = unsatisfiable }))
    × (parse (text "1.*") ≡ err (record { input = text "1.*"; why = stray_brackets }))
    × (parse (text "[1.0,]") ≡ err (record { input = text "[1.0,]"; why = inclusive_open_end }))
unfolding parse parse_version trim trim_start trim_end is_whitespace len split split_once join
    parse_u64 decimal to_full_string core_string is_pre_char valid_identifier valid_identifiers
    parse_component is_empty cmp cmp_core cmp_pre
refuses_range = (refl, refl, refl, refl)

half_open-IsValid : IsValid half_open
half_open-IsValid = parse_range-IsValid (text " [ 1.0 , 2.0 ) ") reads_half_open

parse_range-HasEnds_example : HasEnds half_open
parse_range-HasEnds_example = parse_range-HasEnds (text " [ 1.0 , 2.0 ) ") reads_half_open

nothing-is_empty : is_empty nothing ≡ true
unfolding is_empty cmp cmp_core
nothing-is_empty = refl

same_release : cmp (release 1 "1.0") (release 1 "1.0.0.0") ≡ eq
unfolding cmp cmp_core cmp_pre
same_release = refl

best_match-IsAnswer_example :
    IsAnswer half_open
      (release 2 "2.0" ∷ release 1 "1.0" ∷ [])
      false
      (best_match half_open (release 2 "2.0" ∷ release 1 "1.0" ∷ []) false)
best_match-IsAnswer_example =
    best_match-IsAnswer half_open (release 2 "2.0" ∷ release 1 "1.0" ∷ []) false

parse-normalized_range_example :
    (q : VersionRange) × (parse (normalized half_open) ≡ ok q)
    × SameRange half_open q
    × ((v : NuGetVersion) → contains q v ≡ contains half_open v)
parse-normalized_range_example = parse-normalized_range half_open half_open-IsValid

contains-is_empty_example : contains nothing (release 1 "1.0") ≡ false
contains-is_empty_example = contains-is_empty nothing (release 1 "1.0") nothing-is_empty
