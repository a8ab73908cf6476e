-- ===== src/Retention/Ranks.antt =====
-- Why a version is in a prune plan: the reasons that it names hold of it.
use yanuget.Prelude.{
  ℕ, suc, ◌+◌, ◌≤◌, ◌<◌, Bool, true, false, Option, none, some, List, [], ◌∷◌, ◌≡◌, ◌⊎◌, refl, sym,
  ◌∙◌, subst, arith, Bool-cases, inl, inr, retain, All, Among, All_mono, All-append, All_Among,
  Among-retain, ◌&&◌, ◌||◌, ltb, leb, lt,
}
use yanuget.Version.{NuGetVersion, cmp}
use yanuget.Range.Best.{◌≤ᵥ◌, le_self}
use yanuget.Models.{Instant}
use yanuget.Retention.{
  Candidate, Pruned, RetentionPolicy, Calendar, version_of, protected, is_protected, in_channel,
  channel, verdict, prune_channel, prune_plan, cutoff_for, reason_for, is_some, beyond, expired,
}
use yanuget.Retention.Sorting.{
  All-sort_newest, count, count-sort_newest, IsNewestFirst, sort_newest-IsNewestFirst,
}
use yanuget.Retention.Safety.{
  verdict-protected, verdict-has_reason, verdict-no_reason, has_reason, reason_of, prune_plan_cases,
}

-- `d` is at least as new as `c`
abbrev pub not_below : Candidate → Candidate → Bool
not_below c d = elim (cmp (version_of d) (version_of c)) [ lt ↦ false | _ ↦ true ]

-- The count in a reason: the number kept of the channel, and more than that number of ranked versions
-- of the channel, the pruned one among them, are at least as new.
abbrev pub CountHolds : List Candidate → Option ℕ → Bool → Candidate → Option (ℕ × Bool) → Type 0
CountHolds versions keep pre c none = Unit
CountHolds versions keep pre c (some named) =
    (keep ≡ some named.0)
    × (named.1 ≡ pre)
    × (named.0 < count (λ d. in_channel pre d && not_below c d) versions)

-- The age in a reason: the policy's, and the version entered the feed before the cutoff.
abbrev pub AgeHolds : Option Instant → Option ℕ → Candidate → Option ℕ → Type 0
AgeHolds cutoff days c none = Unit
AgeHolds cutoff days c (some d) =
    (days ≡ some d) × ((t : Instant) × (cutoff ≡ some t) × (c.added < t))

pub record IsJustified (versions : List Candidate) (keep : Option ℕ) (cutoff : Option Instant)
    (days : Option ℕ) (pre : Bool) (p : Pruned) : Type 0 where
  pub source : Candidate
  pub among : Among source versions
  pub ranked : in_channel pre source ≡ true
  pub version : p.version ≡ version_of source
  pub has_one : (is_some p.reason.beyond_newest || is_some p.reason.older_than_days) ≡ true
  pub by_count : CountHolds versions keep pre source p.reason.beyond_newest
  pub by_age : AgeHolds cutoff days source p.reason.older_than_days

not_below_of : (c d : Candidate) → version_of c ≤ᵥ version_of d → not_below c d ≡ true
not_below_of c d h = ground arith

count-retain :
    (p q : Candidate → Bool) (cs : List Candidate)
    → count q (retain p cs) ≡ count (λ d. p d && q d) cs
count-retain p q [] = refl
count-retain p q (c ∷ cs) = ground (arith, count-retain p q cs)

-- how many of a channel are at least as new, sorted or not
pub count-channel :
    (versions : List Candidate) (pre : Bool) (q : Candidate → Bool)
    → count q (channel versions pre) ≡ count (λ d. in_channel pre d && q d) versions
unfolding channel
count-channel versions pre q =
    count-sort_newest q (retain (in_channel pre) versions)
    ∙ count-retain (in_channel pre) q versions

module _ (versions : List Candidate) (keep : Option ℕ) (cutoff : Option Instant) (days : Option ℕ)
    (pre : Bool) where
  abbrev whole : List Candidate
  whole = channel versions pre

  -- where the loop stands: as many as the rank are before the rest, and are as new
  abbrev Ranked : ℕ → List Candidate → Candidate → Type 0
  Ranked rank cs d =
      Among d versions
      × (in_channel pre d ≡ true)
      × (rank + count (not_below d) cs ≤ count (not_below d) whole)

  count_holds :
      (n rank : ℕ) (c : Candidate)
      → rank < count (not_below c) whole
      → CountHolds versions (some n) pre c (beyond (some n) rank pre)
  count_holds n rank c h = elim (Bool-cases (leb n rank)) [
    | inl reached ↦
        rw reached (refl, refl, ground (arith, count-channel versions pre (not_below c)))
    | inr short ↦ rw short tt
  ]

  by_count :
      (k : Option ℕ) (rank : ℕ) (c : Candidate)
      → rank < count (not_below c) whole
      → CountHolds versions k pre c (beyond k rank pre)
  by_count none rank c h = tt
  by_count (some n) rank c h = count_holds n rank c h

  by_age :
      (t : Option Instant) (d : Option ℕ) (c : Candidate) → AgeHolds t d c (expired t d c.added)
  by_age none d c = tt
  by_age (some t) d c = elim (Bool-cases (ltb c.added t)) [
    | inl old ↦ rw old (of_days d old)
    | inr young ↦ rw young tt
  ]
    where
      of_days : (d : Option ℕ) → ltb c.added t ≡ true → AgeHolds (some t) d c d
      of_days none old = tt
      of_days (some n) old = (refl, (t, refl, ground arith))

  justified :
      (safe : Option NuGetVersion) (rank : ℕ) (c : Candidate)
      → Among c versions
      → in_channel pre c ≡ true
      → rank < count (not_below c) whole
      → has_reason safe keep cutoff days pre rank c ≡ true
      → IsJustified versions keep cutoff days pre
          (record { version = version_of c; reason = reason_of safe keep cutoff days pre rank c })
  unfolding reason_for
  justified safe rank c m r h one = record {
    source = c;
    among = m;
    ranked = r;
    version = refl;
    has_one = one;
    by_count = by_count keep rank c h;
    by_age = by_age cutoff days c;
  }

  verdict-IsJustified :
      (safe : Option NuGetVersion) (rank : ℕ) (c : Candidate)
      → Among c versions
      → in_channel pre c ≡ true
      → rank < count (not_below c) whole
      → All (IsJustified versions keep cutoff days pre) (verdict safe keep cutoff days pre rank c)
  verdict-IsJustified safe rank c m r h =
      let P = All (IsJustified versions keep cutoff days pre) in
      elim (Bool-cases (is_protected safe (version_of c))) [
        | inl shut ↦ subst P (sym (verdict-protected safe keep cutoff days pre rank c shut)) tt
        | inr open_ ↦ elim (Bool-cases (has_reason safe keep cutoff days pre rank c)) [
          | inr none_ ↦
              subst P (sym (verdict-no_reason safe keep cutoff days pre rank c open_ none_)) tt
          | inl one ↦
              subst P (sym (verdict-has_reason safe keep cutoff days pre rank c open_ one))
                (justified safe rank c m r h one, tt)
        ]
      ]

  next-Ranked :
      (rank : ℕ) (c : Candidate) (cs : List Candidate)
      → All (λ d. version_of d ≤ᵥ version_of c) cs
      → All (Ranked rank (c ∷ cs)) cs
      → All (Ranked (suc rank) cs) cs
  next-Ranked rank c cs below h = go cs below h
    where
      go :
          (ds : List Candidate)
          → All (λ d. version_of d ≤ᵥ version_of c) ds
          → All (Ranked rank (c ∷ cs)) ds
          → All (Ranked (suc rank) cs) ds
      go [] below h = tt
      go (d ∷ ds) below h =
          let (m, r, k) = h.0 in
          ((m, r, ground (arith, not_below_of d c below.0)), go ds below.1 h.1)

  prune_channel-IsJustified :
      (safe : Option NuGetVersion) (rank : ℕ) (cs : List Candidate)
      → IsNewestFirst cs
      → All (Ranked rank cs) cs
      → All
          (IsJustified versions keep cutoff days pre)
          (prune_channel safe keep cutoff days pre rank cs)
  unfolding prune_channel
  prune_channel-IsJustified safe rank [] s h = tt
  prune_channel-IsJustified safe rank (c ∷ cs) s h =
      let (m, r, k) = h.0 in
      All-append _ _ _
        (verdict-IsJustified safe rank c m r
          (ground (arith, not_below_of c c (le_self (version_of c)))))
        (prune_channel-IsJustified safe (suc rank) cs s.1 (next-Ranked rank c cs s.0 h.1))

  start-Ranked : All (Ranked 0 whole) whole
  unfolding channel
  start-Ranked = All-sort_newest (Ranked 0 whole) (retain (in_channel pre) versions) (
      All_mono (λ c. Among c (retain (in_channel pre) versions)) (Ranked 0 whole)
        (retain (in_channel pre) versions)
        (λ c m. let (n, t) = Among-retain (in_channel pre) c versions m in (n, t, omega arith))
        (All_Among (retain (in_channel pre) versions)))

  newest_first : IsNewestFirst whole
  unfolding channel
  newest_first = sort_newest-IsNewestFirst (retain (in_channel pre) versions)

  pub channel-IsJustified :
      (safe : Option NuGetVersion)
      → All
          (IsJustified versions keep cutoff days pre)
          (prune_channel safe keep cutoff days pre 0 whole)
  channel-IsJustified safe = prune_channel-IsJustified safe 0 whole newest_first start-Ranked

module _ (calendar : Calendar) where
  abbrev pub StableJustified : List Candidate → RetentionPolicy → Instant → Pruned → Type 0
  StableJustified versions policy now =
      IsJustified versions policy.keep_latest_stable (cutoff_for calendar policy.max_age_days now)
        policy.max_age_days false

  abbrev pub PrereleaseJustified : List Candidate → RetentionPolicy → Instant → Pruned → Type 0
  PrereleaseJustified versions policy now =
      IsJustified versions policy.keep_latest_prerelease
        (cutoff_for calendar policy.max_age_days now) policy.max_age_days true

  -- Each pruned version is a ranked version of one channel and names a reason, and each reason that it
  -- names holds: more ranked versions of its channel than the policy keeps are at least as new as it,
  -- itself among them, or it entered the feed before the cutoff.
  pub prune_plan-IsJustified :
      (versions : List Candidate) (policy : RetentionPolicy) (now : Instant)
      → All
          (λ p. StableJustified versions policy now p ⊎ PrereleaseJustified versions policy now p)
          (prune_plan calendar versions policy now)
  prune_plan-IsJustified versions policy now =
      let P = λ (p : Pruned).
        StableJustified versions policy now p ⊎ PrereleaseJustified versions policy now p in
      let cutoff = cutoff_for calendar policy.max_age_days now in
      elim (prune_plan_cases calendar versions policy now) [
        | inl e ↦ subst (All P) (sym e) tt
        | inr e ↦ subst (All P) (sym e) (
            All-append P _ _
              (All_mono (StableJustified versions policy now) P _ (λ p h. inl h)
                (channel-IsJustified versions policy.keep_latest_stable cutoff policy.max_age_days
                  false (protected versions)))
              (All_mono (PrereleaseJustified versions policy now) P _ (λ p h. inr h)
                (channel-IsJustified versions policy.keep_latest_prerelease cutoff
                  policy.max_age_days true (protected versions))))
      ]
