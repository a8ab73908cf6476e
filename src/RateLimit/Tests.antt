-- ===== src/RateLimit/Tests.antt =====
-- Runs of the rate limiter, and the theorems at them.
use yanuget.Prelude.{
  ℕ, ◌+◌, ◌≤◌, true, false, none, some, [], ◌∷◌, ◌≡◌, refl, List, if◌then◌else◌, arith,
}
use yanuget.Text.{Text, text, text_eq}
use yanuget.Address.{IpAddr, v4, v6, ip_eq, unmap}
use yanuget.Proxy.{TrustedProxies}
use yanuget.RateLimit.{
  RateLimiter, new_limiter, new_inner, lookup, put, bucket_key, sweep, check_at,
}
use yanuget.RateLimit.Buckets.{IsCharged, check_at-IsCharged}
use yanuget.RateLimit.Window.{Requests, calls, accepted, min, unused, accepted-calls}
use yanuget.RateLimit.Client.{Wire}
use yanuget.RateLimit.Guesses.{Throttle, Call, guesses, guesses-bound}

abbrev two_a_minute : RateLimiter
two_a_minute = record { max = 2; window = 60 }

abbrev local : IpAddr
local = v4 127 0 0 1

abbrev burst : Requests
burst = (local, 100) ∷ (v4 127 0 0 2, 101) ∷ (local, 102) ∷ (v6 0 0 0 0 0 65535 32512 1, 103) ∷ []

-- The third request of 127.0.0.1, by its IPv4-mapped address, is one too many.
two_accepted : accepted two_a_minute local burst new_inner ≡ 2
unfolding accepted check_at sweep lookup put bucket_key unmap ip_eq
two_accepted = refl

check_at-IsCharged_example :
    IsCharged two_a_minute local 100 new_inner
      (check_at two_a_minute local 100 new_inner).0
      (check_at two_a_minute local 100 new_inner).1
check_at-IsCharged_example = check_at-IsCharged two_a_minute local 100 new_inner tt

accepted-calls_example :
    0 + accepted two_a_minute local burst new_inner ≡ min (0 + calls local burst) 2
unfolding lookup
accepted-calls_example =
    accepted-calls two_a_minute 100 local burst new_inner 0 tt
      (
        (ground arith, ground arith),
        (
          (ground arith, ground arith),
          ((ground arith, ground arith), ((ground arith, ground arith), tt)),
        ),
      )
      (unused refl refl) (ground arith)

-- Headers that are the lines of `X-Forwarded-For`, with a credential; three addresses are known.
abbrev lines : Wire
lines = record {
  HeaderMap = List Text;
  HeaderValue = Text;
  get_all = λ headers name. if text_eq name (text "x-forwarded-for") then headers else [];
  get = λ headers name. none;
  contains_key = λ headers name. true;
  to_str = some;
  parse_ip = λ t.
      if text_eq t (text "6.6.6.6")
      then some (v4 6 6 6 6)
      else if text_eq t (text "203.0.113.9")
      then some (v4 203 0 113 9)
      else if text_eq t (text "10.0.0.2")
      then some (v4 10 0 0 2)
      else none;
  parse_socket = λ t. none;
}

abbrev ten : TrustedProxies
ten = record { any_peer = false; nets = record { addr = v4 10 0 0 0; bits = 8 } ∷ [] }

abbrev spoofing : List Text
spoofing = text "6.6.6.6, 203.0.113.9, 10.0.0.2" ∷ []

abbrev throttle : Throttle
throttle = record {
  requests = new_limiter 100 60;
  auth_failures = some two_a_minute;
  trusted = ten;
}

abbrev wrong_key : ℕ → Call lines
wrong_key at_ = record {
  headers = [];
  peer = some local;
  at_request = at_;
  at_test = at_;
  at_failure = at_;
  unauthorized = true;
}

guesses-bound_example :
    0
      + guesses lines throttle local
          (wrong_key 100 ∷ wrong_key 101 ∷ wrong_key 102 ∷ [])
          (record { requests = new_inner; failures = new_inner })
    ≤ 2
unfolding lookup
guesses-bound_example =
    guesses-bound lines throttle two_a_minute 100 local
      (wrong_key 100 ∷ wrong_key 101 ∷ wrong_key 102 ∷ [])
      (record { requests = new_inner; failures = new_inner }) 0 refl (ground arith) tt
      (
        (ground arith, ground arith, ground arith, ground arith),
        (
          (ground arith, ground arith, ground arith, ground arith),
          ((ground arith, ground arith, ground arith, ground arith), tt),
        ),
      )
      (unused refl refl) (ground arith)
