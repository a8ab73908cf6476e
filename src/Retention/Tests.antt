-- ===== src/Retention/Tests.antt =====
-- Runs of the retention code, and the theorems at them.
use yanuget.Prelude.{
  ◌&&◌, not, ℕ, ◌*◌, ◌-◌, true, false, none, some, [], ◌∷◌, ◌≡◌, ◌⊎◌, inl, inr, refl, List, All,
  if◌then◌else◌, leb, arith,
}
use yanuget.Text.{text}
use yanuget.Version.{NuGetVersion, cmp, cmp_core, cmp_pre, version_eq, is_prerelease}
use yanuget.Range.{greatest_from}
use yanuget.Models.{Package}
use yanuget.Retention.{
  Candidate, RetentionPolicy, Calendar, id_has_prefix, excludes, has_limits, newest, protected,
  insert_newest, sort_newest, channel, reason_for, verdict, prune_channel, cutoff_for, prune_plan,
}
use yanuget.Retention.Safety.{IsPrunable, prune_plan-IsPrunable}
use yanuget.Retention.Newest.{Survivor, prune_plan-Survivor}
use yanuget.Retention.Ranks.{StableJustified, PrereleaseJustified, prune_plan-IsJustified}
use yanuget.Retention.Complete.{Names, Names-prune_plan, surplus}

-- seconds, without the calendar's far end
abbrev seconds : Calendar
seconds = record {
  Span = ℕ;
  try_days = λ days. if leb days 106751991167 then some (days * 86400) else none;
  checked_sub = λ now span. if leb span now then some (now - span) else none;
}

abbrev stable : ℕ → NuGetVersion
stable n = record {
  major = n;
  minor = 0;
  patch = 0;
  revision = 0;
  pre = [];
  metadata = none;
  original = text "x";
}

abbrev package_of : NuGetVersion → Package
package_of v = record {
  id = text "Contoso.Core";
  version = v;
  enabled = true;
  license_url = none;
  license_expression = none;
  published = 0;
}

abbrev one : Candidate
one = record { pkg = package_of (stable 1); pinned = false; servable = true; added = 10 }

abbrev two_pinned : Candidate
two_pinned = record { pkg = package_of (stable 2); pinned = true; servable = true; added = 20 }

abbrev three : Candidate
three = record { pkg = package_of (stable 3); pinned = false; servable = true; added = 30 }

abbrev four_pending : Candidate
four_pending = record { pkg = package_of (stable 4); pinned = false; servable = false; added = 40 }

abbrev contoso : List Candidate
contoso = two_pinned ∷ one ∷ four_pending ∷ three ∷ []

abbrev keep_one : RetentionPolicy
keep_one = record {
  keep_latest_stable = some 1;
  keep_latest_prerelease = none;
  max_age_days = none;
  exclude_id_prefixes = text "Fabrikam." ∷ [];
}

-- Of the ranked versions, 3 and 1, the newest is kept.
prunes_one :
    (prune_plan seconds contoso keep_one 1000
      ≡ record {
        version = stable 1;
        reason = record { beyond_newest = some (1, false); older_than_days = none };
      }
        ∷ [])
unfolding prune_plan has_limits excludes id_has_prefix cutoff_for protected newest greatest_from cmp
    cmp_core cmp_pre version_eq is_prerelease channel sort_newest insert_newest prune_channel
    verdict reason_for
prunes_one = refl

prefixes :
    ((id_has_prefix (text "contoso.core") (text "Contoso.")
        && id_has_prefix (text "CONTOSO") (text "contoso."))
      && not (id_has_prefix (text "ContosoX") (text "contoso.")))
    ≡ true
unfolding id_has_prefix
prefixes = refl

prune_plan-IsPrunable_example : All (IsPrunable contoso) (prune_plan seconds contoso keep_one 1000)
prune_plan-IsPrunable_example = prune_plan-IsPrunable seconds contoso keep_one 1000

prune_plan-IsJustified_example :
    All
      (λ p.
        StableJustified seconds contoso keep_one 1000 p
        ⊎ PrereleaseJustified seconds contoso keep_one 1000 p)
      (prune_plan seconds contoso keep_one 1000)
prune_plan-IsJustified_example = prune_plan-IsJustified seconds contoso keep_one 1000

prune_plan-Survivor_example : Survivor contoso (prune_plan seconds contoso keep_one 1000)
prune_plan-Survivor_example =
    prune_plan-Survivor seconds contoso keep_one 1000 one (inr (inl refl)) refl

Names-prune_plan_example : Names (prune_plan seconds contoso keep_one 1000) one
unfolding has_limits excludes id_has_prefix protected newest greatest_from cmp cmp_core cmp_pre
    version_eq is_prerelease
Names-prune_plan_example =
    Names-prune_plan seconds two_pinned (one ∷ four_pending ∷ three ∷ []) keep_one 1000 false one
      refl refl (inr (inl refl)) refl refl (surplus 1 refl (ground arith))
