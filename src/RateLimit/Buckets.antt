-- ===== src/RateLimit/Buckets.antt =====
-- One request against the budget of its client: the map and its sweep are not to be seen.
use yanuget.Prelude.{
  ◌&&◌, ◌≤◌, length, false, ◌⊎◌, ap, not, leb, ◌∙◌, sym, inr, subst, inl, Bool-cases, retain, Bool,
  ℕ, true, Option, none, some, if◌then◌else◌, ◌≡◌, refl, arith,
}
use yanuget.Models.{Instant}
use yanuget.Address.{IpAddr, ip_eq}
use yanuget.RateLimit.{
  is_exhausted, spend, or_insert, sweep, rolled, check_at, bucket_key, Bucket, Inner, RateLimiter,
  lookup, put, is_live,
}
use yanuget.RateLimit.Map.{
  IsMap, lookup-put, when_live, in_force, put-IsMap, live_entry, lookup-retain, retain-IsMap,
  ip_eq_self,
}

-- What a request does to the bucket that counts for its key: it is charged unless it is used up.
abbrev pub charge : RateLimiter → Instant → Option Bucket → Bucket
charge limiter now o =
    if leb limiter.max (or_insert now o).count then or_insert now o else spend (or_insert now o)

abbrev pub allowed : RateLimiter → Instant → Option Bucket → Bool
allowed limiter now o = not (leb limiter.max (or_insert now o).count)

-- What `check_at` promises, without the map and its clean-up: the answer, the bucket of the key, and
-- for every key the bucket that counts.
pub record IsCharged (limiter : RateLimiter) (ip : IpAddr) (now : Instant) (before after : Inner)
    (answer : Bool) : Type 0 where
  pub answered : answer ≡ allowed limiter now (in_force limiter now before (bucket_key ip))
  pub charged :
      lookup (bucket_key ip) after.buckets
      ≡ some (charge limiter now (in_force limiter now before (bucket_key ip)))
  pub in_force_after :
      (k : IpAddr)
      → in_force limiter now after k ≡ (
          if ip_eq k (bucket_key ip)
          then when_live limiter.window now
              (some (charge limiter now (in_force limiter now before (bucket_key ip))))
          else in_force limiter now before k)
  pub is_map : IsMap after.buckets

sweep_cases :
    (window : ℕ) (now : Instant) (inner : Inner)
    → ((sweep window now inner).buckets ≡ inner.buckets)
      ⊎ ((sweep window now inner).buckets ≡ retain (live_entry window now) inner.buckets)
unfolding sweep
sweep_cases window now inner = elim (Bool-cases (leb inner.sweep_at (length inner.buckets))) [
  | inl full ↦ inr (rw full)
  | inr small ↦ inl (rw small)
]

pub sweep-IsMap :
    (window : ℕ) (now : Instant) (inner : Inner)
    → IsMap inner.buckets
    → IsMap (sweep window now inner).buckets
sweep-IsMap window now inner h = elim (sweep_cases window now inner) [
  | inl e ↦ subst IsMap (sym e) h
  | inr e ↦ subst IsMap (sym e) (retain-IsMap window now inner.buckets h)
]

when_live_twice :
    (window : ℕ) (now : Instant) (o : Option Bucket)
    → when_live window now (when_live window now o) ≡ when_live window now o
when_live_twice window now none = refl
when_live_twice window now (some b) = ground arith

-- A sweep leaves every bucket that counts.
pub sweep-when_live :
    (window : ℕ) (now : Instant) (inner : Inner) (k : IpAddr)
    → IsMap inner.buckets
    → when_live window now (lookup k (sweep window now inner).buckets)
      ≡ when_live window now (lookup k inner.buckets)
sweep-when_live window now inner k h = elim (sweep_cases window now inner) [
  | inl e ↦ ap (λ bs. when_live window now (lookup k bs)) e
  | inr e ↦
      ap (λ bs. when_live window now (lookup k bs)) e
      ∙ ap (when_live window now) (lookup-retain window now k inner.buckets h)
      ∙ when_live_twice window now (lookup k inner.buckets)
]

rolled-when_live :
    (window : ℕ) (now : Instant) (o : Option Bucket)
    → rolled window now (or_insert now o) ≡ or_insert now (when_live window now o)
rolled-when_live window now none = ground arith
rolled-when_live window now (some b) = ground arith

-- the bucket that `check_at` puts back
put_back :
    (limiter : RateLimiter) (ip : IpAddr) (now : Instant) (inner : Inner)
    → IsMap inner.buckets
    → (check_at limiter ip now inner ≡ (
      record {
        buckets =
            put
              (bucket_key ip)
              (charge limiter now (in_force limiter now inner (bucket_key ip)))
              (sweep limiter.window now inner).buckets;
        sweep_at = (sweep limiter.window now inner).sweep_at;
      },
      allowed limiter now (in_force limiter now inner (bucket_key ip)),
    ))
unfolding check_at in_force
put_back limiter ip now inner h =
    let key = bucket_key ip in
    let swept = sweep limiter.window now inner in
    let same =
      rolled-when_live limiter.window now (lookup key swept.buckets)
      ∙ ap (or_insert now) (sweep-when_live limiter.window now inner key h) in
    of_bucket (rolled limiter.window now (or_insert now (lookup key swept.buckets))) _ same
  where
    of_bucket :
        (b c : Bucket)
        → b ≡ c
        → ◌≡◌ {A = Inner × Bool}
            (if leb limiter.max b.count
              then (
                record {
                  buckets = put (bucket_key ip) b (sweep limiter.window now inner).buckets;
                  sweep_at = (sweep limiter.window now inner).sweep_at;
                },
                false,
              )
              else (
                record {
                  buckets = put (bucket_key ip) (spend b) (sweep limiter.window now inner).buckets;
                  sweep_at = (sweep limiter.window now inner).sweep_at;
                },
                true,
              ))
            (
              record {
                buckets =
                    put
                      (bucket_key ip)
                      (if leb limiter.max c.count then c else spend c)
                      (sweep limiter.window now inner).buckets;
                sweep_at = (sweep limiter.window now inner).sweep_at;
              },
              not (leb limiter.max c.count),
            )
    of_bucket b c e = elim (Bool-cases (leb limiter.max c.count)) [
      | inl full ↦ rw (e, full)
      | inr free ↦ rw (e, free)
    ]

in_force-put :
    (limiter : RateLimiter) (now : Instant) (inner : Inner)
    → IsMap inner.buckets
    → (key : IpAddr) (b : Bucket) (at_ : ℕ) (k : IpAddr)
    → in_force limiter now
        (record { buckets = put key b (sweep limiter.window now inner).buckets; sweep_at = at_ })
        k
      ≡ (if ip_eq k key
          then when_live limiter.window now (some b)
          else in_force limiter now inner k)
unfolding in_force
in_force-put limiter now inner h key b at_ k =
    ap (when_live limiter.window now) (lookup-put key k b (sweep limiter.window now inner).buckets)
    ∙ elim (Bool-cases (ip_eq k key)) [
      | inl same ↦ rw same refl
      | inr other ↦ rw other (sweep-when_live limiter.window now inner k h)
    ]

-- A request is allowed when the bucket that counts for its key, or a fresh one, is not used up; that
-- bucket is charged, and the buckets that count for the other keys stay, whatever was swept.
pub check_at-IsCharged :
    (limiter : RateLimiter) (ip : IpAddr) (now : Instant) (inner : Inner)
    → IsMap inner.buckets
    → IsCharged limiter ip now inner
        (check_at limiter ip now inner).0
        (check_at limiter ip now inner).1
check_at-IsCharged limiter ip now inner h =
    subst (λ out. IsCharged limiter ip now inner out.0 out.1)
      (sym (put_back limiter ip now inner h))
      (record {
        answered = refl;
        charged =
            lookup-put (bucket_key ip) (bucket_key ip) b swept.buckets
            ∙ ap (λ t. if t then some b else lookup (bucket_key ip) swept.buckets)
                (ip_eq_self (bucket_key ip));
        in_force_after = in_force-put limiter now inner h (bucket_key ip) b swept.sweep_at;
        is_map = put-IsMap (bucket_key ip) b swept.buckets (sweep-IsMap limiter.window now inner h);
      })
  where
    swept : Inner
    swept = sweep limiter.window now inner

    b : Bucket
    b = charge limiter now (in_force limiter now inner (bucket_key ip))

-- `is_exhausted` says whether `check_at` would refuse, at the same instant and on the same state.
pub is_exhausted-check_at :
    (limiter : RateLimiter) (ip : IpAddr) (now : Instant) (inner : Inner)
    → 1 ≤ limiter.max
    → IsMap inner.buckets
    → is_exhausted limiter ip now inner ≡ not (check_at limiter ip now inner).1
unfolding is_exhausted in_force
is_exhausted-check_at limiter ip now inner p h =
    of_bucket (lookup (bucket_key ip) inner.buckets)
    ∙ ap not (sym (check_at-IsCharged limiter ip now inner h).answered)
  where
    of_bucket :
        (o : Option Bucket)
        → (elim o [
          | none ↦ false
          | some b ↦ is_live limiter.window now b && leb limiter.max b.count
        ])
          ≡ not (allowed limiter now (when_live limiter.window now o))
    of_bucket none = ground arith
    of_bucket (some b) = ground arith

-- The bucket of another key stays, or is swept because it does not count.
pub check_at_untouched :
    (limiter : RateLimiter) (ip : IpAddr) (now : Instant) (inner : Inner) (k : IpAddr)
    → IsMap inner.buckets
    → ip_eq k (bucket_key ip) ≡ false
    → (lookup k (check_at limiter ip now inner).0.buckets ≡ lookup k inner.buckets)
      ⊎ ((lookup k (check_at limiter ip now inner).0.buckets ≡ none)
          × (when_live limiter.window now (lookup k inner.buckets) ≡ none))
check_at_untouched limiter ip now inner k h other =
    let behind : lookup k (check_at limiter ip now inner).0.buckets
        ≡ lookup k (sweep limiter.window now inner).buckets =
      ap (λ out. lookup k out.0.buckets) (put_back limiter ip now inner h)
      ∙ lookup-put (bucket_key ip) k _ (sweep limiter.window now inner).buckets
      ∙ ap
          (λ t.
            if t
            then some (charge limiter now (in_force limiter now inner (bucket_key ip)))
            else lookup k (sweep limiter.window now inner).buckets)
          other in
    elim (sweep_cases limiter.window now inner) [
      | inl e ↦ inl (behind ∙ ap (lookup k) e)
      | inr e ↦
          of_bucket (lookup k inner.buckets)
            (behind ∙ ap (lookup k) e ∙ lookup-retain limiter.window now k inner.buckets h)
    ]
  where
    of_bucket :
        (o : Option Bucket) {p : Option Bucket}
        → p ≡ when_live limiter.window now o
        → (p ≡ o) ⊎ ((p ≡ none) × (when_live limiter.window now o ≡ none))
    of_bucket none e = inl e
    of_bucket (some b) e = elim (Bool-cases (is_live limiter.window now b)) [
      | inl live ↦ inl (e ∙ ap (λ t. if t then some b else none) live)
      | inr dead ↦ let gone = ap (λ t. if t then some b else none) dead in inr (e ∙ gone, gone)
    ]
