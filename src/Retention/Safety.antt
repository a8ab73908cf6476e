-- ===== src/Retention/Safety.antt =====
-- What a prune plan never contains: pinned and withheld versions, and the newest servable one.
use yanuget.Prelude.{
  ◌⊎◌, ℕ, suc, Bool, true, false, Option, List, [], ◌∷◌, ◌++◌, ◌≡◌, refl, sym, subst, arith,
  Bool-cases, inl, inr, retain, All, Among, All_mono, All-append, All_Among, Among-retain, ◌||◌,
}
use yanuget.Version.{NuGetVersion}
use yanuget.Models.{Instant}
use yanuget.Retention.{
  Candidate, Pruned, PruneReason, RetentionPolicy, Calendar, version_of, protected, is_protected,
  in_channel, channel, verdict, prune_channel, prune_plan, cutoff_for, has_limits, excludes,
  reason_for, is_some,
}
use yanuget.Retention.Sorting.{All-sort_newest}

-- `p` names a version of the list that is servable and not pinned, and is not protected.
pub record IsPrunable (versions : List Candidate) (p : Pruned) : Type 0 where
  pub source : Candidate
  pub among : Among source versions
  pub servable : source.servable ≡ true
  pub unpinned : source.pinned ≡ false
  pub version : p.version ≡ version_of source
  pub unprotected : is_protected (protected versions) (version_of source) ≡ false

abbrev Rankable : List Candidate → Candidate → Type 0
Rankable versions c = Among c versions × (c.servable ≡ true) × (c.pinned ≡ false)

channel_Rankable :
    (versions : List Candidate) (pre : Bool) → All (Rankable versions) (channel versions pre)
unfolding channel
channel_Rankable versions pre =
    All-sort_newest (Rankable versions) (retain (in_channel pre) versions) (
      All_mono (λ c. Among c (retain (in_channel pre) versions)) (Rankable versions)
        (retain (in_channel pre) versions)
        (λ c m.
          let (n, t) = Among-retain (in_channel pre) c versions m in
          (n, ground arith, ground arith))
        (All_Among (retain (in_channel pre) versions)))

-- what one round of the loop adds to the plan
module _ (safe : Option NuGetVersion) (keep : Option ℕ) (cutoff : Option Instant) (days : Option ℕ)
    (pre : Bool) (rank : ℕ) (c : Candidate) where
  abbrev pub reason_of : PruneReason
  reason_of = reason_for keep cutoff days pre rank c

  abbrev pub has_reason : Bool
  has_reason = is_some reason_of.beyond_newest || is_some reason_of.older_than_days

  pub verdict-protected :
      is_protected safe (version_of c) ≡ true → verdict safe keep cutoff days pre rank c ≡ []
  unfolding verdict
  verdict-protected h = rw h

  pub verdict-has_reason :
      is_protected safe (version_of c) ≡ false
      → has_reason ≡ true
      → verdict safe keep cutoff days pre rank c
        ≡ record { version = version_of c; reason = reason_of } ∷ []
  unfolding verdict
  verdict-has_reason h r = rw (h, r)

  pub verdict-no_reason :
      is_protected safe (version_of c) ≡ false
      → has_reason ≡ false
      → verdict safe keep cutoff days pre rank c ≡ []
  unfolding verdict
  verdict-no_reason h r = rw (h, r)

module _ (versions : List Candidate) (keep : Option ℕ) (cutoff : Option Instant) (days : Option ℕ)
    (pre : Bool) where
  verdict-IsPrunable :
      (rank : ℕ) (c : Candidate)
      → Rankable versions c
      → All (IsPrunable versions) (verdict (protected versions) keep cutoff days pre rank c)
  verdict-IsPrunable rank c (m, s, u) =
      let P = All (IsPrunable versions) in
      let safe = protected versions in
      elim (Bool-cases (is_protected safe (version_of c))) [
        | inl shut ↦ subst P (sym (verdict-protected safe keep cutoff days pre rank c shut)) tt
        | inr open_ ↦ elim (Bool-cases (has_reason safe keep cutoff days pre rank c)) [
          | inl r ↦ subst P (sym (verdict-has_reason safe keep cutoff days pre rank c open_ r)) (
            record {
              source = c;
              among = m;
              servable = s;
              unpinned = u;
              version = refl;
              unprotected = open_;
            },
            tt,
          )
          | inr r ↦ subst P (sym (verdict-no_reason safe keep cutoff days pre rank c open_ r)) tt
        ]
      ]

  prune_channel-IsPrunable :
      (rank : ℕ) (cs : List Candidate)
      → All (Rankable versions) cs
      → All (IsPrunable versions) (prune_channel (protected versions) keep cutoff days pre rank cs)
  unfolding prune_channel
  prune_channel-IsPrunable rank [] a = tt
  prune_channel-IsPrunable rank (c ∷ cs) a =
      All-append (IsPrunable versions) _ _ (verdict-IsPrunable rank c a.0)
        (prune_channel-IsPrunable (suc rank) cs a.1)

module _ (calendar : Calendar) where
  -- the two channels of a package with limits that is not excluded
  abbrev pub both_channels : List Candidate → RetentionPolicy → Instant → List Pruned
  both_channels versions policy now =
      let cutoff = cutoff_for calendar policy.max_age_days now in
      let safe = protected versions in
      prune_channel safe policy.keep_latest_stable cutoff policy.max_age_days false 0
        (channel versions false)
      ++ prune_channel safe policy.keep_latest_prerelease cutoff policy.max_age_days true 0
          (channel versions true)

  pub prune_plan_cases :
      (versions : List Candidate) (policy : RetentionPolicy) (now : Instant)
      → (prune_plan calendar versions policy now ≡ [])
        ⊎ (prune_plan calendar versions policy now ≡ both_channels versions policy now)
  unfolding prune_plan
  prune_plan_cases [] policy now = inl refl
  prune_plan_cases (c ∷ cs) policy now = elim (Bool-cases (has_limits policy)) [
    | inr l ↦ inl (rw l)
    | inl l ↦ elim (Bool-cases (excludes policy c.pkg.id)) [
      | inl x ↦ inl (rw (l, x))
      | inr x ↦ inr (rw (l, x))
    ]
  ]

  -- Every version that is pruned is a servable version of the list that is not pinned, and is not the
  -- protected one.
  pub prune_plan-IsPrunable :
      (versions : List Candidate) (policy : RetentionPolicy) (now : Instant)
      → All (IsPrunable versions) (prune_plan calendar versions policy now)
  prune_plan-IsPrunable versions policy now =
      let P = All (IsPrunable versions) in
      let cutoff = cutoff_for calendar policy.max_age_days now in
      elim (prune_plan_cases versions policy now) [
        | inl e ↦ subst P (sym e) tt
        | inr e ↦ subst P (sym e) (
            All-append (IsPrunable versions) _ _
              (prune_channel-IsPrunable versions policy.keep_latest_stable cutoff
                policy.max_age_days false 0 (channel versions false)
                (channel_Rankable versions false))
              (prune_channel-IsPrunable versions policy.keep_latest_prerelease cutoff
                policy.max_age_days true 0 (channel versions true)
                (channel_Rankable versions true)))
      ]
