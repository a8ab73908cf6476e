-- ===== src/Retention/Newest.antt =====
-- The safety floor: the newest servable version of a package survives every policy.
use yanuget.Prelude.{
  Bool, true, false, none, some, List, [], ◌∷◌, ◌≡◌, ◌≢◌, ◌⊎◌, refl, sym, ap, ◌∙◌, subst, arith,
  Bool-cases, inl, inr, retain, map, All, Among, All_mono, All-map, Among-map, Among-retain,
  retain-Among, ◌&&◌,
}
use yanuget.Version.{NuGetVersion, version_eq}
use yanuget.Range.{greatest, greatest_from}
use yanuget.Range.Best.{◌≤ᵥ◌, greatest_from-Greatest}
use yanuget.Models.{Instant, is_prerelease}
use yanuget.Retention.{
  Candidate, Pruned, RetentionPolicy, Calendar, version_of, same_bool, newest, protected,
  is_protected, prune_plan,
}
use yanuget.Retention.Safety.{IsPrunable, prune_plan-IsPrunable}

-- the servable versions of a channel, pinned or not
abbrev pub servable_in : Bool → List Candidate → List Candidate
servable_in pre versions = retain (λ c. c.servable && same_bool (is_prerelease c.pkg) pre) versions

-- The plan leaves the newest servable version: the newest stable one, or, if nothing stable is
-- servable, the newest pre-release.
pub record Survivor (versions : List Candidate) (plan : List Pruned) : Type 0 where
  pub source : Candidate
  pub among : Among source versions
  pub servable : source.servable ≡ true
  pub channel : (is_prerelease source.pkg ≡ false) ⊎ (servable_in false versions ≡ [])
  pub newest :
      All (λ d. version_of d ≤ᵥ version_of source) (servable_in (is_prerelease source.pkg) versions)
  pub kept : All (λ p. version_eq (version_of source) p.version ≡ false) plan

-- The newest version of a channel, by candidate.
newest_cases :
    (pre : Bool) (versions : List Candidate)
    → ((newest versions pre ≡ none) × (servable_in pre versions ≡ []))
      ⊎ ((c : Candidate) × Among c (servable_in pre versions)
          × (newest versions pre ≡ some (version_of c))
          × All (λ d. version_of d ≤ᵥ version_of c) (servable_in pre versions))
unfolding newest
newest_cases pre versions = of_list (servable_in pre versions)
  where
    of_list :
        (cs : List Candidate)
        → ((greatest (map version_of cs) ≡ none) × (cs ≡ []))
          ⊎ ((c : Candidate) × Among c cs
              × (greatest (map version_of cs) ≡ some (version_of c))
              × All (λ d. version_of d ≤ᵥ version_of c) cs)
    of_list [] = inl (refl, refl)
    of_list (c ∷ cs) =
        let g = greatest_from (version_of c) (map version_of cs) in
        let (m, top, below) = greatest_from-Greatest (version_of c) (map version_of cs) in
        let (d, n, e) = Among-map version_of g (c ∷ cs) m in
        inr (
          d,
          n,
          ap some e,
          subst (λ v. All (λ x. version_of x ≤ᵥ v) (c ∷ cs)) e
              (All-map version_of (λ v. v ≤ᵥ g) (c ∷ cs) (top, below)),
        )

same_bool-eq : (a b : Bool) → same_bool a b ≡ true → a ≡ b
same_bool-eq a b h = ground arith

module _ (calendar : Calendar) (versions : List Candidate) (policy : RetentionPolicy)
    (now : Instant) where
  abbrev plan : List Pruned
  plan = prune_plan calendar versions policy now

  protected-kept :
      (v : NuGetVersion)
      → protected versions ≡ some v
      → All (λ p. version_eq v p.version ≡ false) plan
  protected-kept v e =
      All_mono (IsPrunable versions) (λ p. version_eq v p.version ≡ false) plan
        (λ p h.
          ap (version_eq v) h.version
          ∙ subst (λ o. is_protected o (version_of h.source) ≡ false) e h.unprotected)
        (prune_plan-IsPrunable calendar versions policy now)

  Survivor-of :
      (pre : Bool) (c : Candidate)
      → (pre ≡ false) ⊎ (servable_in false versions ≡ [])
      → Among c (servable_in pre versions)
      → All (λ d. version_of d ≤ᵥ version_of c) (servable_in pre versions)
      → protected versions ≡ some (version_of c)
      → Survivor versions plan
  Survivor-of pre c channel m top e =
      let (n, t) =
        Among-retain (λ c. c.servable && same_bool (is_prerelease c.pkg) pre) c versions m in
      let of_channel : is_prerelease c.pkg ≡ pre =
        same_bool-eq (is_prerelease c.pkg) pre (ground arith) in
      record {
        source = c;
        among = n;
        servable = ground arith;
        channel = elim channel [ inl s ↦ inl (of_channel ∙ s) | inr s ↦ inr s ];
        newest =
            subst (λ b. All (λ d. version_of d ≤ᵥ version_of c) (servable_in b versions))
              (sym of_channel) top;
        kept = protected-kept (version_of c) e;
      }

  no_member : (c : Candidate) (cs : List Candidate) → Among c cs → cs ≢ []
  no_member c [] m e = m
  no_member c (d ∷ cs) m e = cc

  -- If any version of the list is servable, the newest servable stable version survives the plan; if
  -- no stable version is servable, the newest servable pre-release does.
  pub prune_plan-Survivor :
      (c : Candidate) → Among c versions → c.servable ≡ true → Survivor versions plan
  unfolding protected
  prune_plan-Survivor c m s = elim (newest_cases false versions) [
    | inr (d, n, e, top) ↦ Survivor-of false d (inl refl) n top (rw e)
    | inl (e, nothing) ↦ elim (newest_cases true versions) [
      | inr (d, n, f, top) ↦ Survivor-of true d (inr nothing) n top (rw (e, f))
      | inl (f, nothing_else) ↦ elim (Bool-cases (is_prerelease c.pkg)) [
        | inl pre ↦ absurd (
            no_member c (servable_in true versions) (retain-Among _ c versions m (rw (s, pre)))
              nothing_else)
        | inr stable ↦ absurd (
            no_member c (servable_in false versions) (retain-Among _ c versions m (rw (s, stable)))
              nothing)
      ]
    ]
  ]
