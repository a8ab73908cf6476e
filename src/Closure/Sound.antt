-- ===== src/Closure/Sound.antt =====
-- The edges of the chosen packages in crates/yanuget-internalize/src/closure.rs, and when they
-- are met.
use yanuget.Prelude.{
  true, Option, none, some, List, [], ◌∷◌, ◌++◌, ◌≡◌, ◌⊎◌, inl, inr, refl, sym, subst, Bool-cases,
  All, Among,
}
use yanuget.Prelude.Result.{ok, err, ◌>>=◌, >>=-eq-ok, ok-injective}
use yanuget.Text.{Text, eq_ignore_case}
use yanuget.Range.{contains}
use yanuget.Closure.{PackageInfo, Edge, Known, dependencies_of, Demand, does_not_fit}
use yanuget.Closure.Solver.{is_cli_package, demands_of, edges_of, chosen_as, clashing, next_demand}

-- a chosen package that an edge asks for, in its range
pub record IsMet (chosen : List PackageInfo) (e : Edge) : Type 0 where
  pub by : PackageInfo
  pub is_chosen : Among by chosen
  pub same_id : eq_ignore_case by.id e.key ≡ true
  pub in_range : contains e.range by.version ≡ true

-- all that a chosen package needs, but for the package chocolatey, is chosen
abbrev pub AreMet : List PackageInfo → List Edge → Type 0
AreMet chosen = All (λ e. (is_cli_package e ≡ true) ⊎ IsMet chosen e)

abbrev pub IsClosed : Known → List PackageInfo → Type 0
IsClosed known chosen =
    All (λ p. (deps : List Edge) × (dependencies_of known p ≡ some deps) × AreMet chosen deps)
      chosen

pub Option-cases : {A : Type 0} (o : Option A) → (o ≡ none) ⊎ ((a : A) × (o ≡ some a))
Option-cases none = inl refl
Option-cases (some a) = inr (a, refl)

-- what `chosen_as` finds
pub chosen_as-Among :
    (chosen : List PackageInfo) (key : Text) (c : PackageInfo)
    → chosen_as chosen key ≡ some c
    → Among c chosen × (eq_ignore_case c.id key ≡ true)
unfolding chosen_as
chosen_as-Among [] key c h = cc
chosen_as-Among (p ∷ chosen) key c h = elim (Bool-cases (eq_ignore_case p.id key)) [
  | inl same ↦
      let e : some p ≡ some c = rw same at h in
      let found : p ≡ c = cc in
      (inl (sym found), subst (λ (q : PackageInfo). eq_ignore_case q.id key ≡ true) found same)
  | inr other ↦ let later = chosen_as-Among chosen key c (rw other at h) in (inr later.0, later.1)
]

-- where nothing clashes and nothing is next, every edge is met
pub demand-IsMet :
    (chosen : List PackageInfo) (demands : List Demand)
    → clashing chosen demands ≡ none
    → next_demand chosen demands ≡ none
    → All (λ d. IsMet chosen d.edge) demands
unfolding clashing next_demand
demand-IsMet chosen [] h n = tt
demand-IsMet chosen (d ∷ demands) h n = elim (Option-cases (chosen_as chosen d.edge.key)) [
  | inl free ↦ let none_left : some d ≡ none = rw free at n in cc
  | inr (c, found) ↦ elim (Bool-cases (contains d.edge.range c.version)) [
    | inl inside ↦
        let member = chosen_as-Among chosen d.edge.key c found in
        (
          record { by = c; is_chosen = member.0; same_id = member.1; in_range = inside },
          demand-IsMet chosen demands (rw (found, inside) at h) (rw found at n),
        )
    | inr outside ↦ let none_left : some (does_not_fit d c) ≡ none = rw (found, outside) at h in cc
  ]
]

-- from the edges of the chosen packages back to the packages
retained-IsMet :
    (chosen : List PackageInfo) (p : PackageInfo) (deps : List Edge) (rest : List Demand)
    → All (λ (d : Demand). IsMet chosen d.edge) (demands_of p deps ++ rest)
    → AreMet chosen deps × All (λ (d : Demand). IsMet chosen d.edge) rest
retained-IsMet chosen p [] rest h = (tt, h)
retained-IsMet chosen p (e ∷ deps) rest h = elim (Bool-cases (is_cli_package e)) [
  | inl cli ↦
      let later = retained-IsMet chosen p deps rest (rw cli at h) in ((inl cli, later.0), later.1)
  | inr other ↦
      let both : IsMet chosen e
          × All (λ (d : Demand). IsMet chosen d.edge) (demands_of p deps ++ rest) =
        rw other at h in
      let later = retained-IsMet chosen p deps rest both.1 in ((inr both.0, later.0), later.1)
]

pub edges_of-IsClosed :
    (known : Known) (chosen some_chosen : List PackageInfo) (demands : List Demand)
    → edges_of known some_chosen ≡ ok demands
    → All (λ d. IsMet chosen d.edge) demands
    → All
        (λ p. (deps : List Edge) × (dependencies_of known p ≡ some deps) × AreMet chosen deps)
        some_chosen
unfolding edges_of
edges_of-IsClosed known chosen [] demands h a = tt
edges_of-IsClosed known chosen (p ∷ ps) demands h a =
    elim (Option-cases (dependencies_of known p)) [
      | inl unknown ↦ let stuck : err p ≡ ok demands = rw (edges_of, unknown) at h in cc
      | inr (deps, told) ↦
          let chained : edges_of known ps >>= (λ rest. ok (demands_of p deps ++ rest))
              ≡ ok demands =
            rw (edges_of, told) at h in
          let (rest, of_rest, joined) =
            >>=-eq-ok (edges_of known ps) (λ rest. ok (demands_of p deps ++ rest)) chained in
          let met =
            retained-IsMet chosen p deps rest
              (subst (All (λ (d : Demand). IsMet chosen d.edge)) (sym (ok-injective joined)) a) in
          ((deps, told, met.0), edges_of-IsClosed known chosen ps rest of_rest met.1)
    ]
