-- ===== src/Retention.antt =====
-- src/retention.rs: which versions of one package a feed's retention policy prunes.
pub mod Sorting
pub mod Safety
pub mod Newest
pub mod Ranks
pub mod Complete
mod Tests
use yanuget.Prelude.{
  ℕ, ◌+◌, ◌-◌, ◌^◌, Bool, true, false, not, ◌&&◌, ◌||◌, Option, none, some, List, [], ◌∷◌, ◌++◌,
  map, ltb, leb, if◌then◌else◌, any, is_empty, retain, suc, zero, lt, eq, gt, Ordering,
}
use yanuget.Text.{Text, text_eq, lower, lower_char, ends_with_dot}
use yanuget.Version.{NuGetVersion, cmp, version_eq}
use yanuget.Range.{greatest}
use yanuget.Models.{Package, FeedVersion, Instant, is_prerelease}

pub record RetentionPolicy : Type 0 where
  pub keep_latest_stable : Option ℕ
  pub keep_latest_prerelease : Option ℕ
  pub max_age_days : Option ℕ
  pub exclude_id_prefixes : List Text

abbrev pub is_some {ℓ} : {A : Type ℓ} → Option A → Bool
is_some none = false
is_some (some _) = true

pub has_limits : RetentionPolicy → Bool
has_limits p =
    is_some p.keep_latest_stable || is_some p.keep_latest_prerelease || is_some p.max_age_days

-- `id` begins with `prefix`, but for ASCII case
abbrev starts_ignore_case : Text → Text → Bool
starts_ignore_case id [] = true
starts_ignore_case [] (p ∷ prefix) = false
starts_ignore_case (c ∷ id) (p ∷ prefix) =
    text_eq (lower (c ∷ [])) (lower (p ∷ [])) && starts_ignore_case id prefix

-- `id_has_prefix` of src/config/feeds.rs
pub id_has_prefix : Text → Text → Bool
id_has_prefix id prefix =
    starts_ignore_case id prefix
    || elim (ends_with_dot prefix) [ none ↦ false | some bare ↦ text_eq (lower id) (lower bare) ]

pub excludes : RetentionPolicy → Text → Bool
excludes p id = any (λ prefix. id_has_prefix id prefix) p.exclude_id_prefixes

pub record PruneReason : Type 0 where
  -- the number kept, and whether the channel is the pre-releases
  pub beyond_newest : Option (ℕ × Bool)
  pub older_than_days : Option ℕ

pub record Pruned : Type 0 where
  pub version : NuGetVersion
  pub reason : PruneReason

pub record Candidate : Type 0 where
  pub pkg : Package
  pub pinned : Bool
  pub servable : Bool
  pub added : Instant

pub ranked : Package → Candidate
ranked p = record { pkg = p; pinned = false; servable = true; added = p.published }

abbrev pub version_of : Candidate → NuGetVersion
version_of c = c.pkg.version

abbrev pub same_bool : Bool → Bool → Bool
same_bool true b = b
same_bool false b = not b

-- the newest servable version of a channel
pub newest : List Candidate → Bool → Option NuGetVersion
newest versions pre =
    greatest
      (map version_of (retain (λ c. c.servable && same_bool (is_prerelease c.pkg) pre) versions))

abbrev pub or_else {ℓ} : {A : Type ℓ} → Option A → Option A → Option A
or_else none second = second
or_else (some a) second = some a

pub protected : List Candidate → Option NuGetVersion
protected versions = or_else (newest versions false) (newest versions true)

-- `sort_by` with the newest first: any stable sort
unfoldable pub insert_newest : Candidate → List Candidate → List Candidate
insert_newest c [] = c ∷ []
insert_newest c (d ∷ ds) =
    let later = insert_newest c ds in
    elim (cmp (version_of d) (version_of c)) [ gt ↦ d ∷ later | eq ↦ c ∷ d ∷ ds | lt ↦ c ∷ d ∷ ds ]

unfoldable pub sort_newest : List Candidate → List Candidate
sort_newest [] = []
sort_newest (c ∷ cs) = insert_newest c (sort_newest cs)

abbrev pub in_channel : Bool → Candidate → Bool
in_channel pre c = (c.servable && not c.pinned) && same_bool (is_prerelease c.pkg) pre

-- the ranked versions of a channel, newest first
pub channel : List Candidate → Bool → List Candidate
channel versions pre = sort_newest (retain (in_channel pre) versions)

abbrev pub beyond : Option ℕ → ℕ → Bool → Option (ℕ × Bool)
beyond none rank pre = none
beyond (some n) rank pre = if leb n rank then some (n, pre) else none

abbrev pub expired : Option Instant → Option ℕ → Instant → Option ℕ
expired none days added = none
expired (some cutoff) days added = if ltb added cutoff then days else none

pub reason_for : Option ℕ → Option Instant → Option ℕ → Bool → ℕ → Candidate → PruneReason
reason_for keep cutoff days pre rank c = record {
  beyond_newest = beyond keep rank pre;
  older_than_days = expired cutoff days c.added;
}

abbrev pub is_protected : Option NuGetVersion → NuGetVersion → Bool
is_protected none v = false
is_protected (some p) v = version_eq p v

-- one round of the inner loop
pub verdict :
    Option NuGetVersion → Option ℕ → Option Instant → Option ℕ → Bool → ℕ → Candidate → List Pruned
verdict safe keep cutoff days pre rank c =
    let reason = reason_for keep cutoff days pre rank c in
    if is_protected safe (version_of c)
    then []
    else if is_some reason.beyond_newest || is_some reason.older_than_days
    then record { version = version_of c; reason = reason } ∷ []
    else []

-- the inner loop, from a rank on
pub prune_channel :
    Option NuGetVersion
    → Option ℕ
    → Option Instant
    → Option ℕ
    → Bool
    → ℕ
    → List Candidate
    → List Pruned
prune_channel safe keep cutoff days pre rank [] = []
prune_channel safe keep cutoff days pre rank (c ∷ cs) =
    verdict safe keep cutoff days pre rank c
    ++ prune_channel safe keep cutoff days pre (suc rank) cs

-- `chrono`, which the source calls and does not implement: a span of days, where it can be
-- represented, and an instant that long before another, where it can.
pub record Calendar : Type 1 where
  pub Span : Type 0
  pub try_days : ℕ → Option Span
  pub checked_sub : Instant → Span → Option Instant

-- `i64::MAX`
abbrev max_i64 : ℕ
max_i64 = 2 ^ 63 - 1

pub is_servable : FeedVersion → Bool
is_servable v = v.pkg.enabled && not v.pending

pub candidate : FeedVersion → Candidate
candidate v = record { pkg = v.pkg; pinned = v.pinned; servable = is_servable v; added = v.added }

module _ (calendar : Calendar) where
  open calendar use {Span, try_days, checked_sub}

  abbrev before : Instant → Option Span → Option Instant
  before now none = none
  before now (some span) = checked_sub now span

  -- none, never too old, where the days do not fit an `i64` or the calendar
  pub cutoff_for : Option ℕ → Instant → Option Instant
  cutoff_for none now = none
  cutoff_for (some days) now = if leb days max_i64 then before now (try_days days) else none

  pub prune_plan : List Candidate → RetentionPolicy → Instant → List Pruned
  prune_plan [] policy now = []
  prune_plan (c ∷ cs) policy now =
      let versions = c ∷ cs in
      let safe = protected versions in
      let cutoff = cutoff_for policy.max_age_days now in
      if not (has_limits policy)
      then []
      else if excludes policy c.pkg.id
      then []
      else prune_channel safe policy.keep_latest_stable cutoff policy.max_age_days false 0
          (channel versions false)
        ++ prune_channel safe policy.keep_latest_prerelease cutoff policy.max_age_days true 0
            (channel versions true)

  pub versions_to_prune : List Package → RetentionPolicy → Instant → List NuGetVersion
  versions_to_prune packages policy now =
      map (λ p. p.version) (prune_plan (map ranked packages) policy now)

  pub plan_for : List FeedVersion → RetentionPolicy → Instant → List Pruned
  plan_for versions policy now = prune_plan (map candidate versions) policy now
