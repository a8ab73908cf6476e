-- ===== src/Closure/Solution.antt =====
-- Sets of packages that would do for crates/yanuget-internalize/src/closure.rs, and what they
-- hold of an id.
use yanuget.Prelude.{
  Bool, true, not, ◌||◌, some, List, [], ◌∷◌, ◌++◌, all, ◌≡◌, inl, inr, refl, sym, ◌∙◌, subst,
  Bool-cases, All, Among, at_Among, arith,
}
use yanuget.Prelude.Result.{ok, err, ok-injective, >>=-eq-ok, ◌>>=◌}
use yanuget.Text.{Text, text_eq, eq_ignore_case, lower}
use yanuget.Text.Equal.{text_eq_iff}
use yanuget.Version.{is_prerelease}
use yanuget.Range.{contains}
use yanuget.Closure.{PackageInfo, Edge, Known, dependencies_of, Demand, Clash}
use yanuget.Closure.Solver.{
  is_cli_package, demands_of, edges_of, chosen_as, clashing, next_demand, is_candidate, on_key,
}
use yanuget.Closure.Sound.{Option-cases, IsMet, AreMet, IsClosed, chosen_as-Among}

-- A set of packages that would do: it holds all that they need, at most one version of each id, each one
-- that the source lists, and no pre-release unless they are asked for.
pub record IsSolution (known : Known) (prerelease : Bool) (S : List PackageInfo) : Type 0 where
  pub closed : IsClosed known S
  pub one_each : All (λ c. All (λ d. eq_ignore_case c.id d.id ≡ true → c ≡ d) S) S
  pub told :
      All
        (λ c.
          (key : Text) (versions : List PackageInfo)
          → eq_ignore_case c.id key ≡ true
          → known.versions key ≡ some versions
          → Among c versions)
        S
  pub stable : All (λ c. (prerelease || not (is_prerelease c.version)) ≡ true) S

same_ids :
    (a b key : Text)
    → eq_ignore_case a key ≡ true
    → eq_ignore_case b key ≡ true
    → eq_ignore_case a b ≡ true
same_ids a b key h k =
    (text_eq_iff (lower a) (lower b)).1
      ((text_eq_iff (lower a) (lower key)).0 h ∙ sym ((text_eq_iff (lower b) (lower key)).0 k))

module _ (known : Known) (prerelease : Bool) (S : List PackageInfo)
    (solution : IsSolution known prerelease S) where
  -- what the set holds of an id
  the_one :
      (c d : PackageInfo) (key : Text)
      → Among c S
      → Among d S
      → eq_ignore_case c.id key ≡ true
      → eq_ignore_case d.id key ≡ true
      → c ≡ d
  the_one c d key m n h k =
      at_Among (λ (d : PackageInfo). eq_ignore_case c.id d.id ≡ true → c ≡ d) d S n
        (at_Among
          (λ (c : PackageInfo).
            All (λ (d : PackageInfo). eq_ignore_case c.id d.id ≡ true → c ≡ d) S)
          c S m solution.one_each)
        (same_ids c.id d.id key h k)

  demands-IsMet :
      (p : PackageInfo) (deps : List Edge) (rest : List Demand)
      → AreMet S deps
      → All (λ (d : Demand). IsMet S d.edge) rest
      → All (λ (d : Demand). IsMet S d.edge) (demands_of p deps ++ rest)
  demands-IsMet p [] rest h r = r
  demands-IsMet p (e ∷ deps) rest h r = elim (Bool-cases (is_cli_package e)) [
    | inl cli ↦ rw cli (demands-IsMet p deps rest h.1 r)
    | inr other ↦
        rw other (elim h.0 [ inl cli ↦ cc | inr met ↦ met ], demands-IsMet p deps rest h.1 r)
  ]

  pub edges_of-IsMet :
      (chosen : List PackageInfo) (demands : List Demand)
      → All (λ c. Among c S) chosen
      → edges_of known chosen ≡ ok demands
      → All (λ d. IsMet S d.edge) demands
  unfolding edges_of
  edges_of-IsMet [] demands a h = subst (All (λ (d : Demand). IsMet S d.edge)) (ok-injective h) tt
  edges_of-IsMet (p ∷ chosen) demands a h = elim (Option-cases (dependencies_of known p)) [
    | inl unknown ↦ let stuck : err p ≡ ok demands = rw (edges_of, unknown) at h in cc
    | inr (deps, told) ↦
        let chained : edges_of known chosen >>= (λ rest. ok (demands_of p deps ++ rest))
            ≡ ok demands =
          rw (edges_of, told) at h in
        let (rest, of_rest, joined) =
          >>=-eq-ok (edges_of known chosen) (λ rest. ok (demands_of p deps ++ rest)) chained in
        let (deps', told', met) =
          at_Among
            (λ (q : PackageInfo).
              (ds : List Edge) × (dependencies_of known q ≡ some ds) × AreMet S ds)
            p S a.0 solution.closed in
        let same : some deps' ≡ some deps = sym told' ∙ told in
        let same' : deps' ≡ deps = cc in
        subst (All (λ (d : Demand). IsMet S d.edge)) (ok-injective joined) (
          demands-IsMet p deps rest (subst (AreMet S) same' met)
            (edges_of-IsMet chosen rest a.1 of_rest))
  ]

  pub clashing-absurd :
      (chosen : List PackageInfo) (demands : List Demand) (why : Clash)
      → All (λ c. Among c S) chosen
      → All (λ d. IsMet S d.edge) demands
      → clashing chosen demands ≡ some why
      → ⊥
  unfolding clashing
  clashing-absurd chosen [] why a m h = cc
  clashing-absurd chosen (d ∷ demands) why a m h =
      elim (Option-cases (chosen_as chosen d.edge.key)) [
        | inl free ↦ clashing-absurd chosen demands why a m.1 (rw (clashing, free) at h)
        | inr (c, found) ↦ elim (Bool-cases (contains d.edge.range c.version)) [
          | inl inside ↦
              clashing-absurd chosen demands why a m.1 (rw (clashing, found, inside) at h)
          | inr outside ↦
              let (listed, same) = chosen_as-Among chosen d.edge.key c found in
              let e : m.0.by ≡ c =
                the_one m.0.by c d.edge.key m.0.is_chosen
                  (at_Among (λ (q : PackageInfo). Among q S) c chosen listed a) m.0.same_id same in
              let inside : contains d.edge.range c.version ≡ true =
                subst (λ (q : PackageInfo). contains d.edge.range q.version ≡ true) e
                  m.0.in_range in
              cc
        ]
      ]

  pub next_demand-Among :
      (chosen : List PackageInfo) (demands : List Demand) (next : Demand)
      → next_demand chosen demands ≡ some next
      → Among next demands
  unfolding next_demand
  next_demand-Among chosen [] next h = cc
  next_demand-Among chosen (d ∷ demands) next h =
      elim (Option-cases (chosen_as chosen d.edge.key)) [
        | inl free ↦
            let e : some d ≡ some next = rw (next_demand, free) at h in
            let e' : d ≡ next = cc in inl (sym e')
        | inr (c, found) ↦
            inr (next_demand-Among chosen demands next (rw (next_demand, found) at h))
      ]

  -- what the set holds of an id fits every edge on it
  pub fits-all :
      (demands : List Demand) (key : Text) (q : PackageInfo)
      → Among q S
      → eq_ignore_case q.id key ≡ true
      → All (λ d. IsMet S d.edge) demands
      → all (λ d. contains d.edge.range q.version) (on_key known prerelease key demands) ≡ true
  fits-all [] key q m h a = refl
  fits-all (d ∷ demands) key q m h a = elim (Bool-cases (text_eq d.edge.key key)) [
    | inl on_it ↦
        let same : d.edge.key ≡ key = (text_eq_iff d.edge.key key).0 on_it in
        let e : a.0.by ≡ q =
          the_one a.0.by q key a.0.is_chosen m
            (subst (λ k. eq_ignore_case a.0.by.id k ≡ true) same a.0.same_id) h in
        let inside : contains d.edge.range q.version ≡ true =
          subst (λ (c : PackageInfo). contains d.edge.range c.version ≡ true) e a.0.in_range in
        rw (on_it, inside) (fits-all demands key q m h a.1)
    | inr other ↦ rw other (fits-all demands key q m h a.1)
  ]

  pub the_one-is_candidate :
      (on_it : List Demand) (q : PackageInfo)
      → Among q S
      → all (λ d. contains d.edge.range q.version) on_it ≡ true
      → is_candidate prerelease on_it q ≡ true
  unfolding is_candidate
  the_one-is_candidate on_it q m fits =
      let stable : (prerelease || not (is_prerelease q.version)) ≡ true =
        at_Among (λ (c : PackageInfo). (prerelease || not (is_prerelease c.version)) ≡ true) q S m
          solution.stable in
      ground (arith, fits, stable)
