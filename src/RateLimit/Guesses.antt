-- ===== src/RateLimit/Guesses.antt =====
-- src/ratelimit.rs: the middleware, and how many wrong credentials it lets a client try.
use yanuget.Prelude.{
  leb, ◌&&◌, [], ◌+◌, ◌≡◌, refl, sym, ap, subst, ◌⊎◌, All, arith, inr, suc, inl, ◌<◌, ◌∷◌, false,
  Bool-cases, List, true, ◌≤◌, ℕ, Bool, not, Option, none, some, if◌then◌else◌,
}
use yanuget.Models.{Instant}
use yanuget.Address.{ip_eq, IpAddr}
use yanuget.Proxy.{TrustedProxies}
use yanuget.RateLimit.{bucket_key, RateLimiter, Inner, check_at, is_exhausted}
use yanuget.RateLimit.Map.{IsMap}
use yanuget.RateLimit.Buckets.{check_at-IsCharged, is_exhausted-check_at}
use yanuget.RateLimit.Window.{IsSpent, check_at-IsSpent, other-IsSpent}
use yanuget.RateLimit.Client.{Wire, client_ip, carries_credential, window_secs}

pub record Throttle : Type 0 where
  pub requests : RateLimiter
  pub auth_failures : Option RateLimiter
  pub trusted : TrustedProxies

-- the state behind the two limiters
pub record Budgets : Type 0 where
  pub requests : Inner
  pub failures : Inner

-- `429` with the seconds to wait, or what the handler answers
pub data Answer : Type 0 where
  too_many : ℕ → Answer
  handled : Answer

-- One request: its headers and its peer, the instants at which the budgets are asked, and whether the
-- handler, if it runs, answers `401`.
pub record Call (wire : Wire) : Type 0 where
  pub headers : wire.HeaderMap
  pub peer : Option IpAddr
  pub at_request : Instant
  pub at_test : Instant
  pub at_failure : Instant
  pub unauthorized : Bool

module _ (wire : Wire) where
  -- the failed-authentication budget, for a request with a credential
  abbrev guarded : RateLimiter → IpAddr → Call wire → Budgets → Budgets × Answer
  guarded failures ip call budgets =
      if is_exhausted failures ip call.at_test budgets.failures
      then (budgets, too_many (window_secs failures))
      else if call.unauthorized
      then (
        record {
          requests = budgets.requests;
          failures = (check_at failures ip call.at_failure budgets.failures).0;
        },
        handled,
      )
      else (budgets, handled)

  abbrev behind_requests : Option RateLimiter → IpAddr → Call wire → Budgets → Budgets × Answer
  behind_requests none ip call budgets = (budgets, handled)
  behind_requests (some failures) ip call budgets =
      if carries_credential wire call.headers
      then guarded failures ip call budgets
      else (budgets, handled)

  abbrev for_client : Throttle → Option IpAddr → Call wire → Budgets → Budgets × Answer
  for_client throttle none call budgets = (budgets, handled)
  for_client throttle (some ip) call budgets =
      let out = check_at throttle.requests ip call.at_request budgets.requests in
      let charged : Budgets = record { requests = out.0; failures = budgets.failures } in
      if not out.1
      then (charged, too_many (window_secs throttle.requests))
      else behind_requests throttle.auth_failures ip call charged

  unfoldable pub enforce : Throttle → Call wire → Budgets → Budgets × Answer
  enforce throttle call budgets =
      for_client throttle (client_ip wire call.headers call.peer throttle.trusted) call budgets

abbrev is_handled : Answer → Bool
is_handled handled = true
is_handled (too_many secs) = false

module _ (wire : Wire) where
  -- Whether a call was a wrong guess of a client with the key: it carried a credential, and the handler
  -- ran and answered `401`.
  abbrev is_guess : IpAddr → Option IpAddr → Call wire → Answer → Bool
  is_guess key none call answer = false
  is_guess key (some ip) call answer =
      (ip_eq key (bucket_key ip) && carries_credential wire call.headers)
      && (call.unauthorized && is_handled answer)

  -- how many of a sequence of calls are, from a state on
  pub guesses : Throttle → IpAddr → List (Call wire) → Budgets → ℕ
  guesses throttle key [] budgets = 0
  guesses throttle key (call ∷ calls) budgets =
      let out = enforce wire throttle call budgets in
      let later = guesses throttle key calls out.0 in
      if is_guess key (client_ip wire call.headers call.peer throttle.trusted) call out.1
      then suc later
      else later

  -- the failure budget is asked and charged within the window from `start` on
  abbrev pub Timely : RateLimiter → Instant → Call wire → Type 0
  Timely failures start call =
      (start ≤ call.at_test)
      × (call.at_test < start + failures.window)
      × (start ≤ call.at_failure)
      × (call.at_failure < start + failures.window)

  -- What a call does to the failure budgets: nothing, or it charges one that was not used up.
  abbrev Outcome :
      IpAddr → RateLimiter → Option IpAddr → Call wire → Budgets → Budgets × Answer → Type 0
  Outcome key failures client call budgets out =
      ((out.0.failures ≡ budgets.failures) × (is_guess key client call out.1 ≡ false))
      ⊎ ((ip : IpAddr) × (is_exhausted failures ip call.at_test budgets.failures ≡ false)
          × (out.0.failures ≡ (check_at failures ip call.at_failure budgets.failures).0)
          × (is_guess key client call out.1 ≡ ip_eq key (bucket_key ip)))

  guarded-Outcome :
      (key ip : IpAddr) (failures : RateLimiter) (call : Call wire) (b : Budgets)
      → carries_credential wire call.headers ≡ true
      → Outcome key failures (some ip) call b (guarded wire failures ip call b)
  guarded-Outcome key ip failures call b c =
      elim (Bool-cases (is_exhausted failures ip call.at_test b.failures)) [
        | inl shut ↦ rw shut (inl (refl, ground arith))
        | inr open_ ↦ elim (Bool-cases call.unauthorized) [
          | inl wrong ↦ rw (open_, wrong) (inr (ip, open_, refl, ground arith))
          | inr right ↦ rw (open_, right) (inl (refl, ground arith))
        ]
      ]

  behind_requests-Outcome :
      (key ip : IpAddr) (failures : RateLimiter) (call : Call wire) (b : Budgets)
      → Outcome key failures (some ip) call b (behind_requests wire (some failures) ip call b)
  behind_requests-Outcome key ip failures call b =
      elim (Bool-cases (carries_credential wire call.headers)) [
        | inl c ↦
            subst (Outcome key failures (some ip) call b)
              (sym (ap (λ t. if t then guarded wire failures ip call b else (b, handled)) c))
              (guarded-Outcome key ip failures call b c)
        | inr c ↦
            subst (Outcome key failures (some ip) call b)
              (sym (ap (λ t. if t then guarded wire failures ip call b else (b, handled)) c))
              (inl (refl, ground arith))
      ]

  enforce-Outcome :
      (key : IpAddr) (throttle : Throttle) (failures : RateLimiter) (call : Call wire) (b : Budgets)
      → throttle.auth_failures ≡ some failures
      → Outcome key failures
          (client_ip wire call.headers call.peer throttle.trusted)
          call
          b
          (enforce wire throttle call b)
  unfolding enforce
  enforce-Outcome key throttle failures call b e =
      by_client (client_ip wire call.headers call.peer throttle.trusted)
    where
      charged : IpAddr → Budgets
      charged ip = record {
        requests = (check_at throttle.requests ip call.at_request b.requests).0;
        failures = b.failures;
      }

      by_client :
          (client : Option IpAddr)
          → Outcome key failures client call b (for_client wire throttle client call b)
      by_client none = inl (refl, refl)
      by_client (some ip) =
          elim (Bool-cases (check_at throttle.requests ip call.at_request b.requests).1) [
            | inl free ↦ rw (free, e) (behind_requests-Outcome key ip failures call (charged ip))
            | inr full ↦ rw full (inl (refl, ground arith))
          ]

  -- A budget that is not used up is charged by a failure.
  failure-IsSpent :
      (failures : RateLimiter) (start : Instant) (key ip : IpAddr) (call : Call wire)
      (inner : Inner) (c : ℕ)
      → 1 ≤ failures.max
      → IsMap inner.buckets
      → Timely failures start call
      → ip_eq key (bucket_key ip) ≡ true
      → IsSpent failures start inner key c
      → is_exhausted failures ip call.at_test inner ≡ false
      → (c < failures.max)
        × IsSpent failures start (check_at failures ip call.at_failure inner).0 key (suc c)
  failure-IsSpent failures start key ip call inner c one m w same h open_ =
      let (p, q, p', q') = w in
      let (a, _) = check_at-IsSpent failures start key ip call.at_test inner c m p q same h in
      let (_, s) = check_at-IsSpent failures start key ip call.at_failure inner c m p' q' same h in
      let free : leb failures.max c ≡ false =
        ground (arith, a, is_exhausted-check_at failures ip call.at_test inner one m) in
      (
        ground arith,
        subst
            (λ t.
              IsSpent failures start (check_at failures ip call.at_failure inner).0 key
                (if t then c else suc c))
            free s,
      )

  -- In one window of the failure budget, the calls of a client that carry a credential, run and are
  -- answered `401` are at most the budget, however many calls it and others make, one after the other.
  pub guesses-bound :
      (throttle : Throttle) (failures : RateLimiter) (start : Instant) (key : IpAddr)
      (calls : List (Call wire)) (b : Budgets) (c : ℕ)
      → throttle.auth_failures ≡ some failures
      → 1 ≤ failures.max
      → IsMap b.failures.buckets
      → All (Timely failures start) calls
      → IsSpent failures start b.failures key c
      → c ≤ failures.max
      → c + guesses throttle key calls b ≤ failures.max
  unfolding guesses
  guesses-bound throttle failures start key [] b c e one m w h k = ground arith
  guesses-bound throttle failures start key (call ∷ calls) b c e one m w h k =
      let out = enforce wire throttle call b in
      elim (enforce-Outcome key throttle failures call b e) [
        | inl (same, no_guess) ↦ rw no_guess (
            guesses-bound throttle failures start key calls out.0 c e one
              (subst (λ i. IsMap i.buckets) (sym same) m) w.1
              (subst (λ i. IsSpent failures start i key c) (sym same) h) k)
        | inr (ip, open_, charged, guess) ↦
            let kept =
              subst (λ i. IsMap i.buckets) (sym charged)
                (check_at-IsCharged failures ip call.at_failure b.failures m).is_map in
            elim (Bool-cases (ip_eq key (bucket_key ip))) [
              | inl mine ↦
                  let (room, spent) =
                    failure-IsSpent failures start key ip call b.failures c one m w.0 mine h
                      open_ in
                  let ih =
                    guesses-bound throttle failures start key calls out.0 (suc c) e one kept w.1
                      (subst (λ i. IsSpent failures start i key (suc c)) (sym charged) spent)
                      room in
                  rw (guess, mine) (ground (arith, ih))
              | inr other ↦
                  let spent =
                    other-IsSpent failures start key ip call.at_failure b.failures c m (w.0.2)
                      (w.0.3) other h in
                  rw (guess, other)
                    (guesses-bound throttle failures start key calls out.0 c e one kept w.1
                      (subst (λ i. IsSpent failures start i key c) (sym charged) spent) k)
            ]
      ]
