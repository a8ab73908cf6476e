-- ===== src/Retention/Complete.antt =====
-- What a prune plan does contain: every old or surplus version that nothing protects.
use yanuget.Prelude.{
  ℕ, suc, ◌+◌, ◌≤◌, ◌<◌, Bool, true, false, Option, some, List, [], ◌∷◌, ◌++◌, ◌≡◌, refl, sym,
  subst, arith, inl, inr, retain, retain-Among, All, Among, ◌&&◌, gt,
}
use yanuget.Version.{NuGetVersion, cmp}
use yanuget.Version.Order.{cmp-IsOrder}
use yanuget.Range.Best.{◌≤ᵥ◌, le_self}
use yanuget.Models.{Instant}
use yanuget.Retention.{
  cutoff_for, protected, excludes, prune_plan, has_limits, Calendar, RetentionPolicy, Candidate,
  Pruned, version_of, is_protected, in_channel, channel, insert_newest, sort_newest, verdict,
  prune_channel, reason_for,
}
use yanuget.Retention.Sorting.{count, insert_cases, IsNewestFirst, sort_newest-IsNewestFirst}
use yanuget.Retention.Safety.{both_channels, reason_of, verdict-has_reason, has_reason}
use yanuget.Retention.Ranks.{count-channel}

-- `d` is newer than `c`
abbrev pub newer : Candidate → Candidate → Bool
newer c d = elim (cmp (version_of d) (version_of c)) [ gt ↦ true | _ ↦ false ]

-- The rules reach `c`: it entered the feed before the cutoff, or as many ranked versions of its channel
-- as are kept are newer.
pub data IsReached (versions : List Candidate) (keep : Option ℕ) (cutoff : Option Instant)
    (days : Option ℕ) (pre : Bool) (c : Candidate) : Type 0 where
  old :
      (t : Instant) (d : ℕ)
      → cutoff ≡ some t
      → days ≡ some d
      → c.added < t
      → IsReached versions keep cutoff days pre c
  surplus :
      (n : ℕ)
      → keep ≡ some n
      → n ≤ count (λ d. in_channel pre d && newer c d) versions
      → IsReached versions keep cutoff days pre c

Among-insert_newest :
    (x c : Candidate) (cs : List Candidate) → Among x (c ∷ cs) → Among x (insert_newest c cs)
Among-insert_newest x c [] m = unfold insert_newest in m
Among-insert_newest x c (d ∷ ds) m = elim (insert_cases c d ds) [
  | inl (_, e) ↦ subst (Among x) (sym e) (elim m [
    | inl h ↦ inr (Among-insert_newest x c ds (inl h))
    | inr (inl h) ↦ inl h
    | inr (inr h) ↦ inr (Among-insert_newest x c ds (inr h))
  ])
  | inr (_, e) ↦ subst (Among x) (sym e) m
]

Among-sort_newest : (x : Candidate) (cs : List Candidate) → Among x cs → Among x (sort_newest cs)
unfolding sort_newest
Among-sort_newest x [] m = m
Among-sort_newest x (c ∷ cs) (inl e) = Among-insert_newest x c (sort_newest cs) (inl e)
Among-sort_newest x (c ∷ cs) (inr m) =
    Among-insert_newest x c (sort_newest cs) (inr (Among-sort_newest x cs m))

Among-append_left : {A : Type 0} (x : A) (xs ys : List A) → Among x xs → Among x (xs ++ ys)
Among-append_left x [] ys m = absurd m
Among-append_left x (y ∷ xs) ys (inl e) = inl e
Among-append_left x (y ∷ xs) ys (inr m) = inr (Among-append_left x xs ys m)

Among-append_right : {A : Type 0} (x : A) (xs ys : List A) → Among x ys → Among x (xs ++ ys)
Among-append_right x [] ys m = m
Among-append_right x (y ∷ xs) ys m = inr (Among-append_right x xs ys m)

-- Nothing at the top of a list that is newest first is newer than what is below it.
not_newer : (c d : Candidate) → version_of d ≤ᵥ version_of c → newer c d ≡ false
not_newer c d h = ground (arith, cmp-IsOrder.swap (version_of c) (version_of d))

none_newer :
    (c : Candidate) (cs : List Candidate)
    → All (λ d. version_of d ≤ᵥ version_of c) cs
    → count (newer c) cs ≡ 0
none_newer c [] h = refl
none_newer c (d ∷ ds) h = ground (arith, not_newer c d h.0, none_newer c ds h.1)

-- The plan names the version of `c`.
abbrev pub Names : List Pruned → Candidate → Type 0
Names plan c = (p : Pruned) × Among p plan × (p.version ≡ version_of c)

module _ (versions : List Candidate) (keep : Option ℕ) (cutoff : Option Instant) (days : Option ℕ)
    (pre : Bool) where
  reached-has_reason :
      (safe : Option NuGetVersion) (rank : ℕ) (c : Candidate)
      → IsReached versions keep cutoff days pre c
      → count (λ d. in_channel pre d && newer c d) versions ≤ rank
      → has_reason safe keep cutoff days pre rank c ≡ true
  unfolding reason_for
  reached-has_reason safe rank c (old t d e f a) k = rw (e, f) (ground arith)
  reached-has_reason safe rank c (surplus n e a) k = rw e (ground arith)

  Names-verdict :
      (safe : Option NuGetVersion) (rank : ℕ) (c : Candidate) (more : List Pruned)
      → IsReached versions keep cutoff days pre c
      → is_protected safe (version_of c) ≡ false
      → count (λ d. in_channel pre d && newer c d) versions ≤ rank
      → Names (verdict safe keep cutoff days pre rank c ++ more) c
  Names-verdict safe rank c more h open_ k =
      let e =
        verdict-has_reason safe keep cutoff days pre rank c open_
          (reached-has_reason safe rank c h k) in
      subst (λ found. Names (found ++ more) c) (sym e)
        (
          record { version = version_of c; reason = reason_of safe keep cutoff days pre rank c },
          inl refl,
          refl,
        )

  Names-prune_channel :
      (safe : Option NuGetVersion) (rank : ℕ) (c : Candidate) (cs : List Candidate)
      → IsReached versions keep cutoff days pre c
      → is_protected safe (version_of c) ≡ false
      → IsNewestFirst cs
      → Among c cs
      → count (λ d. in_channel pre d && newer c d) versions ≤ rank + count (newer c) cs
      → Names (prune_channel safe keep cutoff days pre rank cs) c
  unfolding prune_channel
  Names-prune_channel safe rank c [] h open_ s m k = absurd m
  Names-prune_channel safe rank c (d ∷ ds) h open_ s (inl e) k =
      subst
        (λ x.
          Names
            (verdict safe keep cutoff days pre rank x
              ++ prune_channel safe keep cutoff days pre (suc rank) ds)
            c)
        e (Names-verdict safe rank c _ h open_ top)
    where
      above : All (λ x. version_of x ≤ᵥ version_of c) (d ∷ ds)
      above =
          subst (λ x. All (λ y. version_of y ≤ᵥ version_of x) (d ∷ ds)) (sym e)
            (le_self (version_of d), s.0)

      top : count (λ x. in_channel pre x && newer c x) versions ≤ rank
      top = omega (arith, k, none_newer c (d ∷ ds) above)
  Names-prune_channel safe rank c (d ∷ ds) h open_ s (inr m) k =
      let (p, n, e) = Names-prune_channel safe (suc rank) c ds h open_ s.1 m (ground arith) in
      (p, Among-append_right p (verdict safe keep cutoff days pre rank d) _ n, e)

  pub Names-channel :
      (safe : Option NuGetVersion) (c : Candidate)
      → IsReached versions keep cutoff days pre c
      → is_protected safe (version_of c) ≡ false
      → Among c versions
      → in_channel pre c ≡ true
      → Names (prune_channel safe keep cutoff days pre 0 (channel versions pre)) c
  Names-channel safe c h open_ m r =
      Names-prune_channel safe 0 c (channel versions pre) h open_ newest_first inside
        (omega (arith, count-channel versions pre (newer c)))
    where
      newest_first : IsNewestFirst (channel versions pre)
      newest_first = unfold channel in sort_newest-IsNewestFirst (retain (in_channel pre) versions)

      inside : Among c (channel versions pre)
      inside =
          unfold channel in
          Among-sort_newest c (retain (in_channel pre) versions)
            (retain-Among (in_channel pre) c versions m r)

abbrev pub keep_of : RetentionPolicy → Bool → Option ℕ
keep_of policy false = policy.keep_latest_stable
keep_of policy true = policy.keep_latest_prerelease

module _ (calendar : Calendar) where
  -- the plan of a package that the policy limits and does not exclude
  limited_plan :
      (first : Candidate) (rest : List Candidate) (policy : RetentionPolicy) (now : Instant)
      → has_limits policy ≡ true
      → excludes policy first.pkg.id ≡ false
      → prune_plan calendar (first ∷ rest) policy now
        ≡ both_channels calendar (first ∷ rest) policy now
  unfolding prune_plan
  limited_plan first rest policy now l x = rw (l, x)

  -- Where the policy has limits and does not exclude the id, the plan names every servable version that
  -- is not pinned and not protected, and that entered the feed before the cutoff or has as many newer
  -- ranked versions in its channel as the policy keeps.
  pub Names-prune_plan :
      (first : Candidate) (rest : List Candidate) (policy : RetentionPolicy) (now : Instant)
      (pre : Bool) (c : Candidate)
      → has_limits policy ≡ true
      → excludes policy first.pkg.id ≡ false
      → Among c (first ∷ rest)
      → in_channel pre c ≡ true
      → is_protected (protected (first ∷ rest)) (version_of c) ≡ false
      → IsReached
          (first ∷ rest)
          (keep_of policy pre)
          (cutoff_for calendar policy.max_age_days now)
          policy.max_age_days
          pre
          c
      → Names (prune_plan calendar (first ∷ rest) policy now) c
  Names-prune_plan first rest policy now false c l x m r open_ h =
      let (p, n, e) =
        Names-channel (first ∷ rest) _ _ _ false (protected (first ∷ rest)) c h open_ m r in
      subst (λ plan. Names plan c) (sym (limited_plan first rest policy now l x))
        (p, Among-append_left p _ _ n, e)
  Names-prune_plan first rest policy now true c l x m r open_ h =
      let (p, n, e) =
        Names-channel (first ∷ rest) _ _ _ true (protected (first ∷ rest)) c h open_ m r in
      subst (λ plan. Names plan c) (sym (limited_plan first rest policy now l x))
        (p, Among-append_right p _ _ n, e)
