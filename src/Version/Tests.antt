-- ===== src/Version/Tests.antt =====
-- Runs of the version code on the inputs of the source's own tests, and the theorems at them.
use yanuget.Prelude.{lt, eq, gt, none, some, [], ◌∷◌, ◌≡◌, refl, ◌↔◌}
use yanuget.Prelude.Result.{ok, err}
use yanuget.Text.{
  text, trim, trim_start, trim_end, is_whitespace, len, split, split_once, join, parse_u64, decimal,
}
use yanuget.Version.{
  NuGetVersion, normalized, to_full_string, core_string, cmp, cmp_core, cmp_pre, compare_identifier,
  compare_pre_identifiers, compare_zipped, hashed, is_pre_char, valid_identifier, valid_identifiers,
}
use yanuget.Version.Parse.{parse, parse_component}
use yanuget.Version.Valid.{IsValid, parse-IsValid}
use yanuget.Version.Order.{cmp-eq_iff-hashed}
use yanuget.Version.RoundTrip.{parse-to_full_string, with_original}
use yanuget.Version.Identity.{cmp-eq_iff-normalized, parse-normalized}

abbrev beta : NuGetVersion
beta = record {
  major = 1;
  minor = 0;
  patch = 0;
  revision = 0;
  pre = text "Beta" ∷ text "2" ∷ [];
  metadata = some (text "sha.01");
  original = text "1.0.0-Beta.2+sha.01";
}

abbrev beta_lower : NuGetVersion
beta_lower = record {
  major = 1;
  minor = 0;
  patch = 0;
  revision = 0;
  pre = text "beta" ∷ text "2" ∷ [];
  metadata = none;
  original = text "1.00.0.0-beta.2";
}

reads_version :
    (parse (text " 1.0.0-Beta.2+sha.01 ") ≡ ok beta)
    × (parse (text "1.00.0.0-beta.2") ≡ ok beta_lower)
unfolding parse trim trim_start trim_end is_whitespace len split split_once join parse_u64 decimal
    to_full_string core_string is_pre_char valid_identifier valid_identifiers parse_component
reads_version = (refl, refl)

refuses_version :
    (parse (text "v1.0.0") ≡ err (text "v1.0.0"))
    × (parse (text "1.0.0-01") ≡ err (text "1.0.0-01"))
    × (parse (text "1.2.3.4.5") ≡ err (text "1.2.3.4.5"))
    × (parse (text "2147483648.0") ≡ err (text "2147483648.0"))
    × (parse (text "1.0.0-") ≡ err (text "1.0.0-"))
unfolding parse trim trim_start trim_end is_whitespace len split split_once join parse_u64 decimal
    to_full_string core_string is_pre_char valid_identifier valid_identifiers parse_component
refuses_version = (refl, refl, refl, refl, refl)

orders_labels :
    (compare_identifier (text "9") (text "10") ≡ lt)
    × (compare_identifier (text "9") (text "a") ≡ lt)
    × (compare_identifier (text "RC") (text "beta") ≡ gt)
unfolding compare_identifier parse_u64
orders_labels = (refl, refl, refl)

beta-IsValid : IsValid beta
beta-IsValid = parse-IsValid (text " 1.0.0-Beta.2+sha.01 ") reads_version.0

beta_lower-IsValid : IsValid beta_lower
beta_lower-IsValid = parse-IsValid (text "1.00.0.0-beta.2") reads_version.1

same_cmp : cmp beta beta_lower ≡ eq
unfolding cmp cmp_core cmp_pre compare_pre_identifiers compare_zipped compare_identifier parse_u64
same_cmp = refl

parse-IsValid_example : IsValid beta
parse-IsValid_example = parse-IsValid (text " 1.0.0-Beta.2+sha.01 ") reads_version.0

parse-to_full_string_example :
    parse (to_full_string beta) ≡ ok (with_original beta (to_full_string beta))
parse-to_full_string_example = parse-to_full_string beta beta-IsValid

cmp-eq_iff-hashed_example : (cmp beta beta_lower ≡ eq) ↔ (hashed beta ≡ hashed beta_lower)
cmp-eq_iff-hashed_example = cmp-eq_iff-hashed beta beta_lower

cmp-eq_iff-normalized_example :
    (cmp beta beta_lower ≡ eq) ↔ (normalized beta ≡ normalized beta_lower)
cmp-eq_iff-normalized_example =
    cmp-eq_iff-normalized beta beta_lower beta-IsValid beta_lower-IsValid

parse-normalized_example :
    (w : NuGetVersion) × (parse (normalized beta) ≡ ok w)
    × (cmp beta w ≡ eq)
    × (normalized w ≡ normalized beta)
    × (w.metadata ≡ none)
parse-normalized_example = parse-normalized beta beta-IsValid
