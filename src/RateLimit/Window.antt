-- ===== src/RateLimit/Window.antt =====
-- Over a whole window, a client gets as many requests through as its budget has left.
use yanuget.Prelude.{
  ℕ, suc, ◌+◌, ◌≤◌, ◌<◌, true, false, not, ◌&&◌, Option, none, some, List, [], ◌∷◌, leb,
  if◌then◌else◌, ◌≡◌, refl, sym, ap, ◌∙◌, subst, ◌⊎◌, inl, inr, Bool-cases, All, arith,
}
use yanuget.Models.{Instant}
use yanuget.Address.{IpAddr, ip_eq, ip_eq_iff}
use yanuget.RateLimit.{Bucket, Inner, RateLimiter, lookup, bucket_key, check_at}
use yanuget.RateLimit.Map.{IsMap, in_force}
use yanuget.RateLimit.Buckets.{charge, allowed, check_at-IsCharged, check_at_untouched}

-- one request after the other, each with its address and its instant
abbrev pub Requests : Type 0
Requests = List (IpAddr × Instant)

-- how many requests count against a key
pub calls : IpAddr → Requests → ℕ
calls key [] = 0
calls key (r ∷ rs) =
    let later = calls key rs in if ip_eq key (bucket_key r.0) then suc later else later

-- how many of those are accepted, from a state on
unfoldable pub accepted : RateLimiter → IpAddr → Requests → Inner → ℕ
accepted limiter key [] inner = 0
accepted limiter key (r ∷ rs) inner =
    let out = check_at limiter r.0 r.1 inner in
    let later = accepted limiter key rs out.0 in
    if ip_eq key (bucket_key r.0) && out.1 then suc later else later

-- how much of a budget is spent in the window from `start` on: the bucket of the key is not there, its
-- window is over, or its window began then or later
pub data IsSpent (limiter : RateLimiter) (start : Instant) (inner : Inner) (key : IpAddr) (c : ℕ)
    : Type 0 where
  unused : lookup key inner.buckets ≡ none → c ≡ 0 → IsSpent limiter start inner key c
  over :
      (b : Bucket)
      → lookup key inner.buckets ≡ some b
      → b.window_start + limiter.window ≤ start
      → c ≡ 0
      → IsSpent limiter start inner key c
  running :
      (b : Bucket)
      → lookup key inner.buckets ≡ some b
      → start ≤ b.window_start
      → b.count ≡ c
      → IsSpent limiter start inner key c

abbrev pub min : ℕ → ℕ → ℕ
min a b = if leb a b then a else b

-- the instant lies in the window from `start` on
abbrev pub Within : RateLimiter → Instant → IpAddr × Instant → Type 0
Within limiter start r = (start ≤ r.1) × (r.1 < start + limiter.window)

module _ (limiter : RateLimiter) (start : Instant) (key : IpAddr) where
  -- what counts at an instant of the window
  abbrev Counts : ℕ → Option Bucket → Type 0
  Counts c o =
      ((o ≡ none) × (c ≡ 0))
      ⊎ ((b : Bucket) × (o ≡ some b) × (start ≤ b.window_start) × (b.count ≡ c))

  Counts-at :
      (now : Instant) (inner : Inner) (c : ℕ)
      → start ≤ now
      → now < start + limiter.window
      → IsSpent limiter start inner key c
      → Counts c (in_force limiter now inner key)
  unfolding in_force
  Counts-at now inner c p q (unused e z) = rw e (inl (refl, z))
  Counts-at now inner c p q (over b e d z) = rw e (inl (ground arith, z))
  Counts-at now inner c p q (running b e s k) = rw e (inr (b, ground arith, s, k))

  -- What a request of the key does where `c` of its budget is spent.
  charged_count :
      (now : Instant) (c : ℕ) (o : Option Bucket)
      → start ≤ now
      → Counts c o
      → (allowed limiter now o ≡ not (leb limiter.max c))
        × ((charge limiter now o).count ≡ (if leb limiter.max c then c else suc c))
        × (start ≤ (charge limiter now o).window_start)
  charged_count now c o p (inl (e, z)) = rw (e, z) (refl, ground arith, ground arith)
  charged_count now c o p (inr (b, e, s, k)) = rw (e, sym k) (refl, ground arith, ground arith)

  -- A request of the key, and one of another.
  pub check_at-IsSpent :
      (ip : IpAddr) (now : Instant) (inner : Inner) (c : ℕ)
      → IsMap inner.buckets
      → start ≤ now
      → now < start + limiter.window
      → ip_eq key (bucket_key ip) ≡ true
      → IsSpent limiter start inner key c
      → ((check_at limiter ip now inner).1 ≡ not (leb limiter.max c))
        × IsSpent limiter start
            (check_at limiter ip now inner).0
            key
            (if leb limiter.max c then c else suc c)
  check_at-IsSpent ip now inner c m p q same h =
      let is = check_at-IsCharged limiter ip now inner m in
      let key_is : key ≡ bucket_key ip = ground (arith, same, ip_eq_iff key (bucket_key ip)) in
      let (a, k, s) = charged_count now c (in_force limiter now inner (bucket_key ip)) p (
        subst (λ x. Counts c (in_force limiter now inner x)) key_is
          (Counts-at now inner c p q h)) in
      (
        is.answered ∙ a,
        running _ (ap (λ x. lookup x (check_at limiter ip now inner).0.buckets) key_is ∙ is.charged)
            s k,
      )

  nothing_spent : {o : Option Bucket} (c : ℕ) → Counts c o → o ≡ none → c ≡ 0
  nothing_spent c (inl (_, z)) g = z
  nothing_spent c (inr (b, e, _, _)) g = cc

  pub other-IsSpent :
      (ip : IpAddr) (now : Instant) (inner : Inner) (c : ℕ)
      → IsMap inner.buckets
      → start ≤ now
      → now < start + limiter.window
      → ip_eq key (bucket_key ip) ≡ false
      → IsSpent limiter start inner key c
      → IsSpent limiter start (check_at limiter ip now inner).0 key c
  unfolding in_force
  other-IsSpent ip now inner c m p q other h =
      elim (check_at_untouched limiter ip now inner key m other) [
        | inl e ↦ elim h [
          | unused n z ↦ unused (e ∙ n) z
          | over b f d z ↦ over b (e ∙ f) d z
          | running b f s k ↦ running b (e ∙ f) s k
        ]
        | inr (e, gone) ↦ unused e (nothing_spent c (Counts-at now inner c p q h) gone)
      ]

  -- Of the requests of one window, in any order and among those of other clients, as many of a key are
  -- accepted as its budget has left: what was spent and what is accepted make up the smaller of the
  -- limit and what was spent and is called for.
  pub accepted-calls :
      (rs : Requests) (inner : Inner) (c : ℕ)
      → IsMap inner.buckets
      → All (Within limiter start) rs
      → IsSpent limiter start inner key c
      → c ≤ limiter.max
      → c + accepted limiter key rs inner ≡ min (c + calls key rs) limiter.max
  unfolding accepted calls
  accepted-calls [] inner c m w h b = ground arith
  accepted-calls (r ∷ rs) inner c m w h b =
      let (p, q) = w.0 in
      let out = check_at limiter r.0 r.1 inner in
      let kept = (check_at-IsCharged limiter r.0 r.1 inner m).is_map in
      elim (Bool-cases (ip_eq key (bucket_key r.0))) [
        | inr other ↦
            rw other
              (accepted-calls rs out.0 c kept w.1 (other-IsSpent r.0 r.1 inner c m p q other h) b)
        | inl same ↦
            let (a, s) = check_at-IsSpent r.0 r.1 inner c m p q same h in
            elim (Bool-cases (leb limiter.max c)) [
              | inl full ↦
                  let ih =
                    accepted-calls rs out.0 c kept w.1
                      (subst (λ t. IsSpent limiter start out.0 key (if t then c else suc c)) full s)
                      b in
                  rw (same, a, full) (ground (arith, ih))
              | inr free ↦
                  let ih =
                    accepted-calls rs out.0 (suc c) kept w.1
                      (subst (λ t. IsSpent limiter start out.0 key (if t then c else suc c)) free s)
                      (ground arith) in
                  rw (same, a, free) (ground (arith, ih))
            ]
      ]
