-- ===== src/RateLimit.antt =====
-- src/ratelimit.rs: a budget of requests per client and window.
pub mod Map
pub mod Buckets
pub mod Window
pub mod Client
pub mod Guesses
mod Tests
use yanuget.Prelude.{
  ℕ, ◌+◌, ◌-◌, ◌*◌, Bool, true, false, not, ◌&&◌, ◌||◌, Option, none, some, List, [], ◌∷◌, ◌++◌,
  map, reverse, ltb, leb, ◌==◌, if◌then◌else◌, is_empty, retain, length, ◌≡◌,
}
use yanuget.Text.{Text, trim, split}
use yanuget.Models.{Instant}
use yanuget.Address.{IpAddr, v4, v6, ip_eq, unmap}
use yanuget.Proxy.{TrustedProxies, trusts}

pub record Bucket : Type 0 where
  pub window_start : Instant
  pub count : ℕ

-- the map, each key once
abbrev pub Buckets : Type 0
Buckets = List (IpAddr × Bucket)

pub record Inner : Type 0 where
  pub buckets : Buckets
  pub sweep_at : ℕ

pub record RateLimiter : Type 0 where
  pub max : ℕ
  pub window : ℕ

-- `RateLimiter::new`
pub new_limiter : ℕ → ℕ → RateLimiter
new_limiter max_requests window = record {
  max = if leb 1 max_requests then max_requests else 1;
  window = window;
}

abbrev pub new_inner : Inner
new_inner = record { buckets = []; sweep_at = 0 }

-- `HashMap::get`
unfoldable pub lookup : IpAddr → Buckets → Option Bucket
lookup key [] = none
lookup key (entry ∷ rest) =
    let later = lookup key rest in if ip_eq key entry.0 then some entry.1 else later

-- the entry's bucket is put in place of the old one, or added
unfoldable pub put : IpAddr → Bucket → Buckets → Buckets
put key b [] = (key, b) ∷ []
put key b (entry ∷ rest) =
    let later = put key b rest in if ip_eq key entry.0 then (key, b) ∷ rest else entry ∷ later

unfoldable pub bucket_key : IpAddr → IpAddr
bucket_key ip = elim (unmap ip) [
  | v4 a b c d ↦ v4 a b c d
  | v6 a b c d _ _ _ _ ↦ v6 a b c d 0 0 0 0
]

-- `duration_since` saturates at zero, as `-` does
abbrev pub is_live : ℕ → Instant → Bucket → Bool
is_live window now b = ltb (now - b.window_start) window

unfoldable pub sweep : ℕ → Instant → Inner → Inner
sweep window now inner =
    let live = retain (λ entry. is_live window now entry.1) inner.buckets in
    if leb inner.sweep_at (length inner.buckets)
    then record { buckets = live; sweep_at = length live * 2 + 64 }
    else inner

abbrev pub fresh : Instant → Bucket
fresh now = record { window_start = now; count = 0 }

abbrev pub or_insert : Instant → Option Bucket → Bucket
or_insert now none = fresh now
or_insert now (some b) = b

-- a bucket whose window is over starts anew
abbrev pub rolled : ℕ → Instant → Bucket → Bucket
rolled window now b = if leb window (now - b.window_start) then fresh now else b

abbrev pub spend : Bucket → Bucket
spend b = record { window_start = b.window_start; count = b.count + 1 }

-- the state behind a request, and whether it is within the limit
unfoldable pub check_at : RateLimiter → IpAddr → Instant → Inner → Inner × Bool
check_at limiter ip now inner =
    let key = bucket_key ip in
    let swept = sweep limiter.window now inner in
    let b = rolled limiter.window now (or_insert now (lookup key swept.buckets)) in
    if leb limiter.max b.count
    then (record { buckets = put key b swept.buckets; sweep_at = swept.sweep_at }, false)
    else (record { buckets = put key (spend b) swept.buckets; sweep_at = swept.sweep_at }, true)

unfoldable pub is_exhausted : RateLimiter → IpAddr → Instant → Inner → Bool
is_exhausted limiter ip now inner = elim (lookup (bucket_key ip) inner.buckets) [
  | none ↦ false
  | some b ↦ is_live limiter.window now b && leb limiter.max b.count
]
