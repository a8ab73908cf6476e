-- ===== src/Closure/Search.antt =====
-- What an answer of the search of crates/yanuget-internalize/src/closure.rs is, by its steps.
use yanuget.Prelude.{
  ℕ, zero, suc, ◌+◌, ◌≤◌, Bool, true, false, Option, none, some, List, [], ◌∷◌, ◌++◌, length, leb,
  ltb, is_empty, ◌≡◌, inl, inr, refl, sym, ◌∙◌, Bool-cases, length-append, append_assoc, append-nil,
  arith,
}
use yanuget.Prelude.Result.{Result, ok, err, Result-cases}
use yanuget.Closure.{
  PackageInfo, Edge, Known, Demand, Stop, need, fail, out_of_fuel, too_many_tries,
  too_many_packages, no_set_fits,
}
use yanuget.Closure.Solver.{
  max_packages, max_steps, edges_of, clashing, next_demand, on_key, candidates, Effort, Search,
  after_try, try_each, with_versions, extend, explore, search,
}
use yanuget.Closure.Sound.{Option-cases, IsClosed, demand-IsMet, edges_of-IsClosed}

abbrev pub is_out_of_fuel : Stop → Bool
is_out_of_fuel (need n) = false
is_out_of_fuel (fail too_many_tries) = false
is_out_of_fuel (fail too_many_packages) = false
is_out_of_fuel (fail (no_set_fits c)) = false
is_out_of_fuel (fail out_of_fuel) = true

-- a stop that is not the search's
abbrev pub is_foreign : Stop → Bool
is_foreign (need n) = false
is_foreign (fail too_many_tries) = false
is_foreign (fail too_many_packages) = false
is_foreign (fail (no_set_fits c)) = true
is_foreign (fail out_of_fuel) = true

pub is_out_of_fuel-is_foreign :
    (stop : Stop) → is_foreign stop ≡ false → is_out_of_fuel stop ≡ false
is_out_of_fuel-is_foreign (need n) h = refl
is_out_of_fuel-is_foreign (fail too_many_tries) h = refl
is_out_of_fuel-is_foreign (fail too_many_packages) h = refl
is_out_of_fuel-is_foreign (fail (no_set_fits c)) h = refl
is_out_of_fuel-is_foreign (fail out_of_fuel) h = cc

module _ (known : Known) where
  -- a set of packages that grew from the chosen ones and holds all that it needs
  pub record IsFound (chosen found : List PackageInfo) : Type 0 where
    pub more : List PackageInfo
    pub grown : found ≡ chosen ++ more
    pub closed : IsClosed known found
    pub bounded : length found ≤ max_packages

  abbrev pub IsAnswer : List PackageInfo → Result Stop (Option (List PackageInfo)) → Type 0
  IsAnswer chosen (err stop) = is_foreign stop ≡ false
  IsAnswer chosen (ok none) = Unit
  IsAnswer chosen (ok (some found)) = IsFound chosen found

  -- what grew from one package more grew
  fewer-IsAnswer :
      (chosen : List PackageInfo) (c : PackageInfo)
      (answer : Result Stop (Option (List PackageInfo)))
      → IsAnswer (chosen ++ c ∷ []) answer
      → IsAnswer chosen answer
  fewer-IsAnswer chosen c (err stop) h = h
  fewer-IsAnswer chosen c (ok none) h = tt
  fewer-IsAnswer chosen c (ok (some found)) h = record {
    more = c ∷ h.more;
    grown = h.grown ∙ append_assoc chosen (c ∷ []) h.more;
    closed = h.closed;
    bounded = h.bounded;
  }

  try-IsAnswer :
      (chosen : List PackageInfo) (later : Effort → Search)
      (answer : Result Stop (Option (List PackageInfo))) (effort : Effort)
      → IsAnswer chosen answer
      → ((e : Effort) → IsAnswer chosen (later e).answer)
      → IsAnswer chosen (after_try later (record { answer = answer; effort = effort })).answer
  try-IsAnswer chosen later (err stop) effort h l = h
  try-IsAnswer chosen later (ok none) effort h l = l effort
  try-IsAnswer chosen later (ok (some found)) effort h l = h

  module _ (go_on : List PackageInfo → Effort → Search) (chosen : List PackageInfo) where
    GoesOn : Type 0
    GoesOn =
        (c : PackageInfo) (e : Effort)
        → IsAnswer (chosen ++ c ∷ []) (go_on (chosen ++ c ∷ []) e).answer

    try_each-IsAnswer :
        GoesOn
        → (cs : List PackageInfo) (effort : Effort)
        → IsAnswer chosen (try_each go_on chosen cs effort).answer
    unfolding try_each GoesOn
    try_each-IsAnswer goes_on [] effort = tt
    try_each-IsAnswer goes_on (c ∷ cs) effort =
        let tried = go_on (chosen ++ c ∷ []) effort in
        try-IsAnswer chosen (try_each go_on chosen cs) tried.answer tried.effort
          (fewer-IsAnswer chosen c tried.answer (goes_on c effort)) (try_each-IsAnswer goes_on cs)

    module _ (prerelease : Bool) where
      with_versions-IsAnswer :
          GoesOn
          → (on_it : List Demand) (next : Edge) (versions : List PackageInfo) (effort : Effort)
          → IsAnswer chosen
              (with_versions known prerelease go_on on_it next chosen versions effort).answer
      unfolding with_versions
      with_versions-IsAnswer goes_on on_it next versions effort =
          elim (Bool-cases (is_empty (candidates prerelease on_it versions))) [
            | inl none_fits ↦ rw none_fits tt
            | inr some_fit ↦
                rw some_fit
                  (try_each-IsAnswer goes_on (candidates prerelease on_it versions) effort)
          ]

      extend-IsAnswer :
          (leb max_packages (length chosen) ≡ false → GoesOn)
          → (demands : List Demand) (next : Edge) (effort : Effort)
          → IsAnswer chosen (extend known prerelease go_on demands next chosen effort).answer
      unfolding extend
      extend-IsAnswer goes_on demands next effort =
          elim (Bool-cases (leb max_packages (length chosen))) [
            | inl full ↦ rw full refl
            | inr more ↦ rw more (elim (Option-cases (known.versions next.key)) [
              | inl unknown ↦ rw unknown refl
              | inr (versions, told) ↦ rw told (
                  with_versions-IsAnswer (goes_on more) (on_key known prerelease next.key demands)
                    next versions effort)
            ])
          ]

      explore-IsAnswer :
          (leb max_packages (length chosen) ≡ false → GoesOn)
          → length chosen ≤ max_packages
          → (demands : List Demand) (effort : Effort) → edges_of known chosen ≡ ok demands
          → IsAnswer chosen (explore known prerelease go_on demands chosen effort).answer
      unfolding explore
      explore-IsAnswer goes_on few demands effort told =
          elim (Option-cases (clashing chosen demands)) [
            | inr (why, found) ↦ rw (explore, found) tt
            | inl fits ↦
                rw (explore, fits)
                  (elim (Option-cases (next_demand chosen demands)) [
                    | inr (next, found) ↦
                        rw found (extend-IsAnswer goes_on demands next.edge effort)
                    | inl all_chosen ↦ rw all_chosen (record {
                      more = [];
                      grown = sym (append-nil chosen);
                      closed =
                          edges_of-IsClosed known chosen chosen demands told
                            (demand-IsMet chosen demands fits all_chosen);
                      bounded = few;
                    })
                  ])
          ]

  -- the fuel covers what may still be chosen
  pub search-IsAnswer :
      (prerelease : Bool) (fuel : ℕ) (chosen : List PackageInfo) (effort : Effort)
      → length chosen ≤ max_packages
      → suc max_packages ≤ length chosen + fuel
      → IsAnswer chosen (search known prerelease fuel chosen effort).answer
  unfolding search GoesOn
  search-IsAnswer prerelease zero chosen effort few enough = absurd (omega (arith, few, enough))
  search-IsAnswer prerelease (suc fuel) chosen effort few enough =
      elim (Bool-cases (ltb max_steps (suc effort.steps))) [
        | inl tired ↦ rw tired refl
        | inr fresh ↦ rw fresh (elim (Result-cases (edges_of known chosen)) [
          | inr (p, unknown) ↦ rw unknown refl
          | inl (demands, told) ↦ rw told (
              explore-IsAnswer (search known prerelease fuel) chosen prerelease
                (λ more c e.
                  search-IsAnswer prerelease fuel (chosen ++ c ∷ []) e
                    (ground (arith, more, length-append chosen (c ∷ [])))
                    (ground (arith, enough, length-append chosen (c ∷ []))))
                few demands (record effort { steps = suc effort.steps }) told)
        ])
      ]
