-- ===== src/Closure/Solved.antt =====
-- `solve` of crates/yanuget-internalize/src/closure.rs, from the answer of the search.
use yanuget.Prelude.{
  false, Option, none, some, List, [], ◌∷◌, map, ◌≡◌, inl, inr, refl, sym, ap, ◌∙◌, subst,
  Bool-cases, arith,
}
use yanuget.Prelude.Result.{Result, ok, err}
use yanuget.Text.{Text, eq_ignore_case}
use yanuget.Version.{is_prerelease}
use yanuget.Closure.{PackageInfo, Edge, Known, dependencies_of, Stop}
use yanuget.Closure.Solver.{max_packages, is_cli_package, Effort}
use yanuget.Closure.Search.{
  is_out_of_fuel, is_out_of_fuel-is_foreign, IsFound, IsAnswer, search-IsAnswer,
}
use yanuget.Closure.Resolve.{
  Resolved, Closure, push_required, credit, credit_all, credit_parents, closure_of, edges_or_none,
  name_of, solved, solve,
}

abbrev pub infos : List Resolved → List PackageInfo
infos packages = map (λ p. p.info) packages

-- the names are written beside the packages
infos-push_required :
    (id name : Text) (packages : List Resolved)
    → infos (push_required id name packages) ≡ infos packages
unfolding push_required
infos-push_required id name [] = refl
infos-push_required id name (p ∷ packages) = elim (Bool-cases (eq_ignore_case p.info.id id)) [
  | inl same ↦ rw same refl
  | inr other ↦ rw other (ap (λ ps. p.info ∷ ps) (infos-push_required id name packages))
]

infos-credit :
    (name : Text) (e : Edge) (closure : Closure)
    → infos (credit name e closure).packages ≡ infos closure.packages
unfolding credit
infos-credit name e closure = elim (Bool-cases (is_cli_package e)) [
  | inl cli ↦ rw cli refl
  | inr other ↦ rw other (infos-push_required e.id name closure.packages)
]

infos-credit_all :
    (name : Text) (es : List Edge) (closure : Closure)
    → infos (credit_all name es closure).packages ≡ infos closure.packages
unfolding credit_all
infos-credit_all name [] closure = refl
infos-credit_all name (e ∷ es) closure =
    infos-credit_all name es (credit name e closure) ∙ infos-credit name e closure

infos-credit_parents :
    (known : Known) (ps : List PackageInfo) (closure : Closure)
    → infos (credit_parents known ps closure).packages ≡ infos closure.packages
unfolding credit_parents
infos-credit_parents known [] closure = refl
infos-credit_parents known (p ∷ ps) closure =
    infos-credit_parents known ps _
    ∙ infos-credit_all (name_of p) (edges_or_none (dependencies_of known p)) closure

infos-unrequired :
    (ps : List PackageInfo) → infos (map (λ p. record { info = p; required_by = [] }) ps) ≡ ps
infos-unrequired [] = refl
infos-unrequired (p ∷ ps) = ap (λ qs. p ∷ qs) (infos-unrequired ps)

infos-closure_of :
    (known : Known) (chosen : List PackageInfo) → infos (closure_of known chosen).packages ≡ chosen
unfolding closure_of
infos-closure_of known chosen = infos-credit_parents known chosen _ ∙ infos-unrequired chosen

-- what `solve` answers
abbrev pub IsSolved : Known → PackageInfo → Result Stop Closure → Type 0
IsSolved known root (ok closure) = IsFound known (root ∷ []) (infos closure.packages)
IsSolved known root (err stop) = is_out_of_fuel stop ≡ false

solved-IsSolved :
    (known : Known) (root : PackageInfo) (answer : Result Stop (Option (List PackageInfo)))
    (effort : Effort)
    → IsAnswer known (root ∷ []) answer
    → IsSolved known root (solved known answer effort)
solved-IsSolved known root (err stop) effort h = is_out_of_fuel-is_foreign stop h
solved-IsSolved known root (ok none) effort h = refl
solved-IsSolved known root (ok (some chosen)) effort h =
    subst (IsFound known (root ∷ [])) (sym (infos-closure_of known chosen)) h

pub solve-IsSolved : (known : Known) (root : PackageInfo) → IsSolved known root (solve known root)
unfolding solve
solve-IsSolved known root = solved-IsSolved known root _ _ (
    search-IsAnswer known (is_prerelease root.version) max_packages (root ∷ []) _ (omega arith)
      (omega arith))
