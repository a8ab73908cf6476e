-- ===== src/RateLimit/Map.antt =====
-- The map of a limiter: each key once, found where it was put, and swept only when it does not count.
use yanuget.Prelude.{
  ap, ◌∙◌, sym, inr, subst, inl, Bool-cases, retain, Bool, ℕ, true, Option, none, some, [], ◌∷◌,
  if◌then◌else◌, ◌≡◌, refl, arith,
}
use yanuget.Models.{Instant}
use yanuget.Address.{IpAddr, ip_eq, ip_eq_iff}
use yanuget.RateLimit.{Bucket, Buckets, Inner, RateLimiter, lookup, put, is_live}

pub ip_eq_self : (k : IpAddr) → ip_eq k k ≡ true
ip_eq_self k = ground (arith, ip_eq_iff k k)

-- A key that is put is found, and no other is touched.
pub lookup-put :
    (key other : IpAddr) (b : Bucket) (bs : Buckets)
    → lookup other (put key b bs) ≡ (if ip_eq other key then some b else lookup other bs)
unfolding lookup put
lookup-put key other b [] = refl
lookup-put key other b (entry ∷ rest) = ground (
  arith,
  lookup-put key other b rest,
  ip_eq_iff key entry.0,
  ip_eq_iff other entry.0,
  ip_eq_iff other key,
)

-- the bucket that counts at an instant: one whose window is not over
abbrev pub when_live : ℕ → Instant → Option Bucket → Option Bucket
when_live window now none = none
when_live window now (some b) = if is_live window now b then some b else none

unfoldable pub in_force : RateLimiter → Instant → Inner → IpAddr → Option Bucket
in_force limiter now inner key = when_live limiter.window now (lookup key inner.buckets)

-- Each key is in the map once.
abbrev pub IsMap : Buckets → Type 0
IsMap [] = Unit
IsMap (entry ∷ rest) = (lookup entry.0 rest ≡ none) × IsMap rest

lookup-cons :
    (k : IpAddr) (entry : IpAddr × Bucket) (rest : Buckets)
    → lookup k (entry ∷ rest) ≡ (if ip_eq k entry.0 then some entry.1 else lookup k rest)
unfolding lookup
lookup-cons k entry rest = refl

put-cons :
    (k : IpAddr) (b : Bucket) (entry : IpAddr × Bucket) (rest : Buckets)
    → put k b (entry ∷ rest) ≡ (if ip_eq k entry.0 then (k, b) ∷ rest else entry ∷ put k b rest)
unfolding put
put-cons k b entry rest = refl

same_key : (p q : IpAddr) → ip_eq p q ≡ true → p ≡ q
same_key p q h = ground (arith, ip_eq_iff p q)

pub put-IsMap : (key : IpAddr) (b : Bucket) (bs : Buckets) → IsMap bs → IsMap (put key b bs)
put-IsMap key b [] h = unfold put lookup in (refl, tt)
put-IsMap key b (entry ∷ rest) h = elim (Bool-cases (ip_eq key entry.0)) [
  | inl same ↦
      subst IsMap
        (sym (
          put-cons key b entry rest
          ∙ ap (λ t. if t then (key, b) ∷ rest else entry ∷ put key b rest) same))
        (subst (λ k. lookup k rest ≡ none) (sym (same_key key entry.0 same)) h.0, h.1)
  | inr other ↦
      subst IsMap
        (sym (
          put-cons key b entry rest
          ∙ ap (λ t. if t then (key, b) ∷ rest else entry ∷ put key b rest) other))
        (
          lookup-put key entry.0 b rest
              ∙ ground (arith, h.0, ip_eq_iff key entry.0, ip_eq_iff entry.0 key),
          put-IsMap key b rest h.1,
        )
]

module _ (window : ℕ) (now : Instant) where
  abbrev pub live_entry : IpAddr × Bucket → Bool
  live_entry entry = is_live window now entry.1

  lookup-retain-none :
      (k : IpAddr) (bs : Buckets) → lookup k bs ≡ none → lookup k (retain live_entry bs) ≡ none
  unfolding lookup
  lookup-retain-none k [] h = refl
  lookup-retain-none k (entry ∷ rest) h = ground (arith, lookup-retain-none k rest)

  -- A sweep takes no bucket that counts.
  pub lookup-retain :
      (k : IpAddr) (bs : Buckets)
      → IsMap bs
      → lookup k (retain live_entry bs) ≡ when_live window now (lookup k bs)
  unfolding lookup
  lookup-retain k [] h = refl
  lookup-retain k (entry ∷ rest) h = elim (Bool-cases (ip_eq k entry.0)) [
    | inl same ↦
        let gone : lookup k rest ≡ none =
          subst (λ x. lookup x rest ≡ none) (sym (same_key k entry.0 same)) h.0 in
        ground (arith, same, lookup-retain-none k rest gone)
    | inr other ↦ ground (arith, other, lookup-retain k rest h.1)
  ]

  pub retain-IsMap : (bs : Buckets) → IsMap bs → IsMap (retain live_entry bs)
  retain-IsMap [] h = tt
  retain-IsMap (entry ∷ rest) h = elim (Bool-cases (live_entry entry)) [
    | inl live ↦ rw live (lookup-retain-none entry.0 rest h.0, retain-IsMap rest h.1)
    | inr dead ↦ rw dead (retain-IsMap rest h.1)
  ]
