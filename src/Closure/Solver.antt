-- ===== src/Closure/Solver.antt =====
-- `Solver`: a backtracking search for the versions, and what it answers.
use yanuget.Prelude.{
  ℕ, zero, suc, Bool, true, false, not, ◌&&◌, ◌||◌, Option, none, some, List, [], ◌∷◌, ◌++◌, map,
  reverse, all, any, is_empty, length, retain, leb, ltb, if◌then◌else◌,
}
use yanuget.Prelude.Result.{Result, ok, err, ◌>>=◌}
use yanuget.Text.{Text, text, text_eq, eq_ignore_case}
use yanuget.Version.{is_prerelease}
use yanuget.Range.{contains}
use yanuget.Closure.{
  PackageInfo, Edge, pins, Known, dependencies_of, versions_of, edges_from, Demand, Clash,
  does_not_fit, not_on_upstream, no_version_fits, too_many_tries, too_many_packages, out_of_fuel,
  Stop, need, fail,
}

abbrev pub max_packages : ℕ
max_packages = 500

abbrev pub max_steps : ℕ
max_steps = 100000

abbrev pub is_cli_package : Edge → Bool
is_cli_package e = text_eq e.key (text "chocolatey")

abbrev pub demands_of : PackageInfo → List Edge → List Demand
demands_of parent deps =
    map (λ e. record { parent = parent; edge = e }) (retain (λ e. not (is_cli_package e)) deps)

-- the edges of the chosen packages, or the first package whose edges are not known
unfoldable pub edges_of : Known → List PackageInfo → Result PackageInfo (List Demand)
edges_of known [] = ok []
edges_of known (p ∷ chosen) =
    let rest = edges_of known chosen in
    elim (dependencies_of known p) [
      | none ↦ err p
      | some deps ↦ rest >>= λ demands. ok (demands_of p deps ++ demands)
    ]

unfoldable pub chosen_as : List PackageInfo → Text → Option PackageInfo
chosen_as [] key = none
chosen_as (c ∷ chosen) key =
    let later = chosen_as chosen key in if eq_ignore_case c.id key then some c else later

abbrev pub or_else {ℓ} : {A : Type ℓ} → Option A → Option A → Option A
or_else none later = later
or_else (some a) later = some a

-- the first edge that what is chosen does not fit
abbrev pub misfit : Demand → Option PackageInfo → Option Clash
misfit d none = none
misfit d (some c) = if contains d.edge.range c.version then none else some (does_not_fit d c)

unfoldable pub clashing : List PackageInfo → List Demand → Option Clash
clashing chosen [] = none
clashing chosen (d ∷ demands) =
    let later = clashing chosen demands in or_else (misfit d (chosen_as chosen d.edge.key)) later

-- the first edge for which nothing is chosen
abbrev pub is_none {ℓ} : {A : Type ℓ} → Option A → Bool
is_none none = true
is_none (some a) = false

unfoldable pub next_demand : List PackageInfo → List Demand → Option Demand
next_demand chosen [] = none
next_demand chosen (d ∷ demands) =
    let later = next_demand chosen demands in
    if is_none (chosen_as chosen d.edge.key) then some d else later

-- the candidates for what some edges ask: listed before unlisted, then the highest first
unfoldable pub is_candidate : Bool → List Demand → PackageInfo → Bool
is_candidate prerelease on_it v =
    all (λ d. contains d.edge.range v.version) on_it
    && (any (λ d. pins d.edge.range v.version) on_it || prerelease || not (is_prerelease v.version))

unfoldable pub candidates : Bool → List Demand → List PackageInfo → List PackageInfo
candidates prerelease on_it versions =
    let fitting = retain (is_candidate prerelease on_it) (reverse versions) in
    retain (λ v. v.listed) fitting ++ retain (λ v. not v.listed) fitting

-- the mutable fields of a solver
pub record Effort : Type 0 where
  pub steps : ℕ
  pub conflict : Option Clash

-- the answer: the packages if some set fits, and the fields afterwards
pub record Search : Type 0 where
  pub answer : Result Stop (Option (List PackageInfo))
  pub effort : Effort

abbrev pub stopped : Stop → Effort → Search
stopped stop effort = record { answer = err stop; effort = effort }

abbrev pub clash : Clash → Effort → Search
clash why effort = record {
  answer = ok none;
  effort = record effort { conflict = or_else effort.conflict (some why) };
}

-- the loop over the candidates
abbrev pub after_try : (Effort → Search) → Search → Search
after_try later tried = elim tried.answer [
  | err stop ↦ tried
  | ok found ↦ elim found [ some chosen ↦ tried | none ↦ later tried.effort ]
]

unfoldable pub try_each :
    (List PackageInfo → Effort → Search) → List PackageInfo → List PackageInfo → Effort → Search
try_each go_on chosen [] effort = record { answer = ok none; effort = effort }
try_each go_on chosen (c ∷ cs) effort =
    after_try (try_each go_on chosen cs) (go_on (chosen ++ c ∷ []) effort)

module _ (known : Known) (prerelease : Bool) where
  -- from the edges on an id to the candidates for it
  unfoldable pub with_versions :
      (List PackageInfo → Effort → Search)
      → List Demand
      → Edge
      → List PackageInfo
      → List PackageInfo
      → Effort
      → Search
  with_versions go_on on_it next chosen versions effort =
      if is_empty (candidates prerelease on_it versions)
      then clash
          (if is_empty versions
            then not_on_upstream next.id on_it
            else no_version_fits next.id on_it)
          effort
      else try_each go_on chosen (candidates prerelease on_it versions) effort

  abbrev pub on_key : Text → List Demand → List Demand
  on_key key demands = retain (λ d. text_eq d.edge.key key) demands

  unfoldable pub extend :
      (List PackageInfo → Effort → Search) → List Demand → Edge → List PackageInfo → Effort → Search
  extend go_on demands next chosen effort =
      if leb max_packages (length chosen)
      then stopped (fail too_many_packages) effort
      else elim (known.versions next.key) [
        | none ↦ stopped (need (versions_of next.id)) effort
        | some versions ↦ with_versions go_on (on_key next.key demands) next chosen versions effort
      ]

  unfoldable pub explore :
      (List PackageInfo → Effort → Search) → List Demand → List PackageInfo → Effort → Search
  explore go_on demands chosen effort = elim (clashing chosen demands) [
    | some why ↦ clash why effort
    | none ↦ elim (next_demand chosen demands) [
      | none ↦ record { answer = ok (some chosen); effort = effort }
      | some next ↦ extend go_on demands next.edge chosen effort
    ]
  ]

  -- `Solver::search`, on fuel
  unfoldable pub search : ℕ → List PackageInfo → Effort → Search
  search zero chosen effort = stopped (fail out_of_fuel) effort
  search (suc fuel) chosen effort =
      let counted : Effort = record effort { steps = suc effort.steps } in
      if ltb max_steps counted.steps
      then stopped (fail too_many_tries) counted
      else elim (edges_of known chosen) [
        | err p ↦ stopped (need (edges_from p)) counted
        | ok demands ↦ explore (search fuel) demands chosen counted
      ]
