-- ===== src/Models.antt =====
-- src/models.rs and src/database/mod.rs: a package version, as far as the modelled code reads it.
use yanuget.Prelude.{ℕ, Bool, Option}
use yanuget.Text.{Text}
use yanuget.Version
use yanuget.Version.{NuGetVersion}

-- `DateTime<Utc>`, by its order only
abbrev pub Instant : Type 0
Instant = ℕ

pub record Package : Type 0 where
  pub id : Text
  pub version : NuGetVersion
  pub enabled : Bool
  pub license_url : Option Text
  pub license_expression : Option Text
  pub published : Instant

abbrev pub is_prerelease : Package → Bool
is_prerelease p = Version.is_prerelease p.version

-- `FeedVersion`: a package with the state of its membership of a feed
pub record FeedVersion : Type 0 where
  pub pkg : Package
  pub pinned : Bool
  pub pending : Bool
  pub added : Instant
