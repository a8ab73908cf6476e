-- ===== src/Closure/Resolve.antt =====
-- `solve` and `resolve`: the packages of a closure with what requires them, and the loop that asks the
-- source for what the solver needs to know.
use yanuget.Prelude.{
  ℕ, zero, suc, ◌&&◌, Option, none, some, List, [], ◌∷◌, ◌++◌, map, is_empty, if◌then◌else◌,
}
use yanuget.Prelude.Result.{Result, ok, err, ◌>>=◌}
use yanuget.Text.{Text, text, text_eq, lower, eq_ignore_case}
use yanuget.Version.{version_eq, is_prerelease, normalized as normalized_version}
use yanuget.Range.{normalized as normalized_range}
use yanuget.Closure.{
  PackageInfo, DependencyRef, Edge, BadEdge, new_edge, Known, dependencies_of, Need, versions_of,
  edges_from, Failure, no_set_fits, Stop, need, fail,
}
use yanuget.Closure.Solver.{max_packages, is_cli_package, Effort, search}

pub record Resolved : Type 0 where
  pub info : PackageInfo
  pub required_by : List Text

pub record Closure : Type 0 where
  pub packages : List Resolved
  pub provided : List (Text × Text)

-- `id version`
abbrev pub name_of : PackageInfo → Text
name_of p = p.id ++ b' ' ∷ normalized_version p.version

-- `Edge::describe`
abbrev pub describe : Edge → Text
describe e = let r = normalized_range e.range in if is_empty r then text "any version" else r

-- the first package with an id gets one more name
unfoldable pub push_required : Text → Text → List Resolved → List Resolved
push_required id name [] = []
push_required id name (p ∷ packages) =
    let later = push_required id name packages in
    if eq_ignore_case p.info.id id
    then record p { required_by = p.required_by ++ name ∷ [] } ∷ packages
    else p ∷ later

unfoldable pub credit : Text → Edge → Closure → Closure
credit name e closure =
    if is_cli_package e
    then record closure { provided = closure.provided ++ (name, describe e) ∷ [] }
    else record closure { packages = push_required e.id name closure.packages }

unfoldable pub credit_all : Text → List Edge → Closure → Closure
credit_all name [] closure = closure
credit_all name (e ∷ es) closure = credit_all name es (credit name e closure)

-- the index of the map: what the search found is known
abbrev pub edges_or_none : Option (List Edge) → List Edge
edges_or_none none = []
edges_or_none (some deps) = deps

unfoldable pub credit_parents : Known → List PackageInfo → Closure → Closure
credit_parents known [] closure = closure
credit_parents known (p ∷ ps) closure =
    credit_parents known ps
      (credit_all (name_of p) (edges_or_none (dependencies_of known p)) closure)

unfoldable pub closure_of : Known → List PackageInfo → Closure
closure_of known chosen =
    credit_parents known chosen
      (record { packages = map (λ p. record { info = p; required_by = [] }) chosen; provided = [] })

abbrev pub solved : Known → Result Stop (Option (List PackageInfo)) → Effort → Result Stop Closure
solved known (err stop) effort = err stop
solved known (ok none) effort = err (fail (no_set_fits effort.conflict))
solved known (ok (some chosen)) effort = ok (closure_of known chosen)

-- `Solver::solve`; a recursion per chosen package is fuel enough
unfoldable pub solve : Known → PackageInfo → Result Stop Closure
solve known root =
    let found =
      search known (is_prerelease root.version) max_packages (root ∷ [])
        (record { steps = 0; conflict = none }) in
    solved known found.answer found.effort

-- the upstream, by what it answers
pub record Source (UpstreamError : Type 0) : Type 0 where
  pub versions : Text → Result UpstreamError (List PackageInfo)
  pub dependencies : PackageInfo → Result UpstreamError (List DependencyRef)

pub data ClosureError (UpstreamError : Type 0) : Type 0 where
  upstream : UpstreamError → ClosureError UpstreamError
  bad_edge : BadEdge → ClosureError UpstreamError
  unresolvable : Failure → ClosureError UpstreamError
  too_many_lookups : ClosureError UpstreamError

abbrev pub max_lookups : ℕ
max_lookups = 2000

abbrev pub nothing_known : Known
nothing_known = record { versions = λ id. none; dependencies = λ id v. none }

unfoldable pub new_edges : PackageInfo → List DependencyRef → Result BadEdge (List Edge)
new_edges from [] = ok []
new_edges from (d ∷ ds) = new_edge from d >>= λ e. new_edges from ds >>= λ es. ok (e ∷ es)

-- `insert` in the two maps
abbrev pub learn_versions : Text → List PackageInfo → Known → Known
learn_versions id vs known = record known {
  versions = λ key. if text_eq key (lower id) then some vs else known.versions key;
}

abbrev pub learn_edges : PackageInfo → List Edge → Known → Known
learn_edges p edges known = record known {
  dependencies = λ key v.
      if text_eq key (lower p.id) && version_eq v p.version
      then some edges
      else known.dependencies key v;
}

module _ {E : Type 0} (source : Source E) where
  abbrev pub map_err {ℓ} :
      {F : Type 0} {A : Type ℓ} → (F → ClosureError E) → Result F A → Result (ClosureError E) A
  map_err f (ok a) = ok a
  map_err f (err e) = err (f e)

  unfoldable pub learn : Need → Known → Result (ClosureError E) Known
  learn (versions_of id) known =
      map_err upstream (source.versions id) >>= λ vs. ok (learn_versions id vs known)
  learn (edges_from p) known = map_err upstream (source.dependencies p) >>= λ refs.
      map_err bad_edge (new_edges p refs) >>= λ edges. ok (learn_edges p edges known)

  -- the loop, by the lookups left
  unfoldable pub resolve_from : ℕ → PackageInfo → Known → Result (ClosureError E) Closure
  resolve_from zero root known = err too_many_lookups
  resolve_from (suc n) root known = elim (solve known root) [
    | ok closure ↦ ok closure
    | err stop ↦ elim stop [
      | fail why ↦ err (unresolvable why)
      | need what ↦ learn what known >>= λ more. resolve_from n root more
    ]
  ]

  unfoldable pub resolve : PackageInfo → Result (ClosureError E) Closure
  resolve root = resolve_from max_lookups root nothing_known
