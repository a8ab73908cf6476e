-- ===== src/Closure/Tests.antt =====
-- A resolution against a small upstream, and the theorems at it.
use yanuget.Prelude.{
  inl, ℕ, true, false, ◌&&◌, Option, none, some, List, [], ◌∷◌, ◌≡◌, refl, if◌then◌else◌,
}
use yanuget.Prelude.Result.{Result, ok, err}
use yanuget.Text.{Text, text, text_eq, lower}
use yanuget.Version.{NuGetVersion, version_eq, cmp, cmp_core, cmp_pre, is_prerelease}
use yanuget.Range.{VersionRange, any_version, contains}
use yanuget.Closure.Solver.{
  Search, search, edges_of, explore, clashing, next_demand, chosen_as, extend, with_versions,
  candidates, is_candidate, try_each,
}
use yanuget.Closure.{
  PackageInfo, DependencyRef, Edge, Known, Stop, Clash, no_version_fits, fail, no_set_fits, pins,
}
use yanuget.Closure.Resolve.{Source, solve, resolve}
use yanuget.Closure.Solution.{IsSolution}
use yanuget.Closure.Complete.{solve-IsSolution}
use yanuget.Closure.Learned.{IsEnd, resolve-IsEnd}

abbrev release : ℕ → ℕ → NuGetVersion
release n m = record {
  major = n;
  minor = m;
  patch = 0;
  revision = 0;
  pre = [];
  metadata = none;
  original = text "x";
}

abbrev info_of : Text → NuGetVersion → PackageInfo
info_of id v = record { id = id; version = v; listed = true }

abbrev app : PackageInfo
app = info_of (text "App") (release 1 0)

abbrev lib : ℕ → PackageInfo
lib m = info_of (text "Lib") (release 1 m)

abbrev base : PackageInfo
base = info_of (text "Base") (release 1 0)

abbrev dependency : Text → Text → DependencyRef
dependency id range = record { id = id; range = some range }

-- the higher Lib needs a Base that the app does not fit
abbrev upstream_of : Source (Unit {0})
upstream_of = record {
  versions = λ id. ok (
      if text_eq id (text "Lib")
      then lib 0 ∷ lib 1 ∷ []
      else if text_eq id (text "Base")
      then base ∷ []
      else []);
  dependencies = λ p. ok (
      if text_eq p.id (text "App")
      then dependency (text "Lib") (text "1.0")
        ∷ dependency (text "chocolatey") (text "")
        ∷ dependency (text "Base") (text "[1.0]")
        ∷ []
      else if text_eq p.id (text "Lib") && version_eq p.version (release 1 1)
      then dependency (text "Base") (text "2.0") ∷ []
      else []);
}

resolve-IsEnd_example : IsEnd upstream_of app (resolve upstream_of app)
resolve-IsEnd_example = resolve-IsEnd upstream_of app

-- the same, once the source has told everything
abbrev edge : Text → VersionRange → Edge
edge id range = record { id = id; key = lower id; range = range }

abbrev from : NuGetVersion → VersionRange
from v = record { min = some (record { version = v; inclusive = true }); max = none }

abbrev all_told : Known
all_told = record {
  versions =
      λ key. if text_eq key (text "lib") then some (lib 0 ∷ lib 1 ∷ []) else some (base ∷ []);
  dependencies = λ key v. some (
      if text_eq key (text "app")
      then edge (text "Lib") (from (release 1 0)) ∷ edge (text "Base") any_version ∷ []
      else if text_eq key (text "lib") && version_eq v (release 1 1)
      then edge (text "Base") (from (release 2 0)) ∷ []
      else []);
}

answer_of : Search → Result Stop (Option (List PackageInfo))
answer_of s = s.answer

-- Lib 1.1 is tried first and given up
backtracks :
    answer_of (search all_told false 6 (app ∷ []) (record { steps = 0; conflict = none }))
    ≡ ok (some (app ∷ lib 0 ∷ base ∷ []))
unfolding answer_of search edges_of explore clashing next_demand chosen_as extend with_versions
    candidates is_candidate pins try_each contains cmp cmp_core cmp_pre is_prerelease version_eq
backtracks = refl

-- a Lib that does not exist is asked for
abbrev newer_asked : Known
newer_asked = record {
  versions = λ key. some (lib 0 ∷ lib 1 ∷ []);
  dependencies = λ key v.
      some (if text_eq key (text "app") then edge (text "Lib") (from (release 2 0)) ∷ [] else []);
}

abbrev no_lib : Clash
no_lib =
    no_version_fits (text "Lib")
      (record { parent = app; edge = edge (text "Lib") (from (release 2 0)) } ∷ [])

nothing_fits : solve newer_asked app ≡ err (fail (no_set_fits (some no_lib)))
unfolding solve search edges_of explore clashing next_demand chosen_as extend with_versions
    candidates is_candidate pins try_each contains cmp cmp_core cmp_pre is_prerelease version_eq
nothing_fits = refl

solve-IsSolution_example : ¬ IsSolution newer_asked (is_prerelease app.version) (app ∷ lib 1 ∷ [])
solve-IsSolution_example =
    solve-IsSolution newer_asked app (some no_lib) (app ∷ lib 1 ∷ []) nothing_fits (inl refl)
