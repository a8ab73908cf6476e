-- ===== src/Closure/Complete.antt =====
-- The search of crates/yanuget-internalize/src/closure.rs where it finds no set that fits.
use yanuget.Prelude.{
  ℕ, zero, suc, Bool, true, false, not, Option, none, some, List, [], ◌∷◌, ◌++◌, reverse, length,
  leb, ltb, is_empty, ◌≡◌, inl, inr, refl, sym, ap, subst, Bool-cases, All, Among, at_Among,
  retain-Among, reverse-Among, Among-append, All-append, arith,
}
use yanuget.Prelude.Result.{Result, ok, err, Result-cases}
use yanuget.Text.{Text, eq_ignore_case}
use yanuget.Version.{is_prerelease}
use yanuget.Closure.{
  PackageInfo, Known, Demand, Clash, Stop, need, fail, too_many_packages, too_many_tries,
  versions_of, edges_from, no_set_fits,
}
use yanuget.Closure.Solver.{
  max_packages, max_steps, edges_of, clashing, next_demand, is_candidate, candidates, on_key,
  Effort, Search, after_try, try_each, with_versions, extend, explore, search,
}
use yanuget.Closure.Search.{is_foreign, IsAnswer, search-IsAnswer}
use yanuget.Closure.Resolve.{solved, solve}
use yanuget.Closure.Sound.{Option-cases, IsMet}
use yanuget.Closure.Solution.{
  IsSolution, edges_of-IsMet, clashing-absurd, next_demand-Among, fits-all, the_one-is_candidate,
}

module _ (known : Known) (prerelease : Bool) (S : List PackageInfo)
    (solution : IsSolution known prerelease S) where
  -- a candidate is tried
  candidates-Among :
      (on_it : List Demand) (q : PackageInfo) (versions : List PackageInfo)
      → Among q versions
      → is_candidate prerelease on_it q ≡ true
      → Among q (candidates prerelease on_it versions)
  unfolding candidates
  candidates-Among on_it q versions m h =
      let fitting =
        retain-Among (is_candidate prerelease on_it) q (reverse versions)
          (reverse-Among q versions m) h in
      elim (Bool-cases q.listed) [
        | inl listed ↦ Among-append q _ _ (inl (retain-Among (λ v. v.listed) q _ fitting listed))
        | inr unlisted ↦
            Among-append q _ _
              (inr (retain-Among (λ v. not v.listed) q _ fitting (ap not unlisted)))
      ]

  nonempty : (q : PackageInfo) (cs : List PackageInfo) → Among q cs → is_empty cs ≡ false
  nonempty q [] m = absurd m
  nonempty q (c ∷ cs) m = refl

  -- where no candidate worked, each was tried in vain
  Failed : Search → Type 0
  Failed s = s.answer ≡ ok none

  untried :
      (later : Effort → Search) (answer : Result Stop (Option (List PackageInfo))) (effort : Effort)
      → Failed (after_try later (record { answer = answer; effort = effort }))
      → (answer ≡ ok none) × Failed (later effort)
  unfolding Failed
  untried later (err stop) effort h = cc
  untried later (ok (some found)) effort h = cc
  untried later (ok none) effort h = (refl, h)

  try_each-Failed :
      (go_on : List PackageInfo → Effort → Search) (chosen cs : List PackageInfo) (effort : Effort)
      (q : PackageInfo)
      → Among q cs
      → Failed (try_each go_on chosen cs effort)
      → (e : Effort) × Failed (go_on (chosen ++ q ∷ []) e)
  unfolding try_each Failed
  try_each-Failed go_on chosen [] effort q m h = absurd m
  try_each-Failed go_on chosen (c ∷ cs) effort q m h =
      let tried = go_on (chosen ++ c ∷ []) effort in
      let (failed, later) =
        untried (try_each go_on chosen cs) tried.answer tried.effort (unfold Failed in h) in
      elim m [
        | inl e ↦ (
          effort,
          subst (λ (p : PackageInfo). (go_on (chosen ++ p ∷ []) effort).answer ≡ ok none) (sym e)
              failed,
        )
        | inr n ↦ try_each-Failed go_on chosen cs tried.effort q n later
      ]

  -- nothing that would do is left out
  module _ (go_on : List PackageInfo → Effort → Search) (chosen : List PackageInfo)
      (among : All (λ c. Among c S) chosen)
      (goes_on : (q : PackageInfo) (e : Effort)
        → Among q S
        → Failed (go_on (chosen ++ q ∷ []) e)
        → ⊥) where
    extend-absurd :
        (demands : List Demand) (next : Demand) (effort : Effort)
        → All (λ d. IsMet S d.edge) demands
        → Among next demands
        → Failed (extend known prerelease go_on demands next.edge chosen effort)
        → ⊥
    unfolding extend with_versions Failed
    extend-absurd demands next effort met m h =
        elim (Bool-cases (leb max_packages (length chosen))) [
          | inl full ↦
              let stuck : err (fail too_many_packages) ≡ ok none = rw (extend, full) at h in cc
          | inr more ↦ elim (Option-cases (known.versions next.edge.key)) [
            | inl unknown ↦
                let stuck : err (need (versions_of next.edge.id)) ≡ ok none =
                  rw (extend, more, unknown) at h in
                cc
            | inr (versions, told) ↦
                let q = at_Among (λ (d : Demand). IsMet S d.edge) next demands m met in
                let listed : Among q.by versions =
                  at_Among
                    (λ (c : PackageInfo).
                      (key : Text) (vs : List PackageInfo)
                      → eq_ignore_case c.id key ≡ true
                      → known.versions key ≡ some vs
                      → Among c vs)
                    q.by S q.is_chosen solution.told next.edge.key versions q.same_id told in
                let tried =
                  candidates-Among (on_key known prerelease next.edge.key demands) q.by versions
                    listed
                    (the_one-is_candidate known prerelease S solution
                      (on_key known prerelease next.edge.key demands) q.by q.is_chosen
                      (fits-all known prerelease S solution demands next.edge.key q.by q.is_chosen
                        q.same_id met)) in
                let failed : Failed (
                    try_each go_on chosen
                      (candidates prerelease (on_key known prerelease next.edge.key demands)
                        versions)
                      effort) =
                  rw (extend, more, told, with_versions, nonempty q.by _ tried) at h in
                let (e, in_vain) = try_each-Failed go_on chosen _ effort q.by tried failed in
                goes_on q.by e q.is_chosen in_vain
          ]
        ]

    explore-absurd :
        (demands : List Demand) (effort : Effort)
        → edges_of known chosen ≡ ok demands
        → Failed (explore known prerelease go_on demands chosen effort)
        → ⊥
    unfolding explore Failed
    explore-absurd demands effort told h =
        let met = edges_of-IsMet known prerelease S solution chosen demands among told in
        elim (Option-cases (clashing chosen demands)) [
          | inr (why, found) ↦
              clashing-absurd known prerelease S solution chosen demands why among met found
          | inl fits ↦ elim (Option-cases (next_demand chosen demands)) [
            | inl all_chosen ↦
                let stuck : ok (some chosen) ≡ ok none = rw (explore, fits, all_chosen) at h in cc
            | inr (next, found) ↦
                extend-absurd demands next effort met
                  (next_demand-Among known prerelease S solution chosen demands next found)
                  (rw (explore, fits, found) at h)
          ]
        ]

  search-absurd :
      (fuel : ℕ) (chosen : List PackageInfo) (effort : Effort)
      → All (λ c. Among c S) chosen
      → Failed (search known prerelease fuel chosen effort)
      → ⊥
  unfolding search Failed
  search-absurd zero chosen effort a h = cc
  search-absurd (suc fuel) chosen effort a h =
      elim (Bool-cases (ltb max_steps (suc effort.steps))) [
        | inl tired ↦
            let stuck : err (fail too_many_tries) ≡ ok none = rw (search, tired) at h in cc
        | inr fresh ↦ elim (Result-cases (edges_of known chosen)) [
          | inr (p, unknown) ↦
              let stuck : err (need (edges_from p)) ≡ ok none = rw (search, fresh, unknown) at h in
              cc
          | inl (demands, told) ↦
              explore-absurd (search known prerelease fuel) chosen a
                (λ q e m failed.
                  search-absurd fuel (chosen ++ q ∷ []) e (All-append _ chosen (q ∷ []) a (m, tt))
                    failed)
                demands (record effort { steps = suc effort.steps }) told
                (rw (search, fresh, told) at h)
        ]
      ]

solved-absurd :
    (known : Known) (chosen : List PackageInfo) (answer : Result Stop (Option (List PackageInfo)))
    (effort : Effort) (why : Option Clash)
    → IsAnswer known chosen answer
    → solved known answer effort ≡ err (fail (no_set_fits why))
    → answer ≡ ok none
solved-absurd known chosen (err stop) effort why a h =
    let e : err stop ≡ err (fail (no_set_fits why)) = h in
    let e' : stop ≡ fail (no_set_fits why) = cc in
    let foreign : is_foreign (fail (no_set_fits why)) ≡ false =
      subst (λ (s : Stop). is_foreign s ≡ false) e' a in
    cc
solved-absurd known chosen (ok none) effort why a h = refl
solved-absurd known chosen (ok (some found)) effort why a h = cc

-- Where `solve` says that no set of versions fits, no set that holds the root does: none holds, with at
-- most one version of each id, all that its packages need, out of the versions that the source lists,
-- and without pre-releases unless the root is one.
pub solve-IsSolution :
    (known : Known) (root : PackageInfo) (why : Option Clash) (S : List PackageInfo)
    → solve known root ≡ err (fail (no_set_fits why))
    → Among root S
    → ¬ IsSolution known (is_prerelease root.version) S
unfolding solve
solve-IsSolution known root why S h m = λ solution.
    let prerelease = is_prerelease root.version in
    let start : Effort = record { steps = 0; conflict = none } in
    let answered =
      search-IsAnswer known prerelease max_packages (root ∷ []) start (omega arith) (omega arith) in
    search-absurd known prerelease S solution max_packages (root ∷ []) start (m, tt)
      (unfold Failed in solved-absurd known (root ∷ []) _ _ why answered h)
