-- ===== src/Mirror/Health.antt =====
-- src/mirror/health.rs: whether the upstream answers.
pub mod History
mod Tests
use yanuget.Prelude.{ℕ, ◌+◌, ◌%◌, ◌^◌, Bool, true, false, Option, none, some, ltb, if◌then◌else◌}
use yanuget.Text.{Text}
use yanuget.Models.{Instant}

pub record UpstreamStatus : Type 0 where
  pub last_success : Option Instant
  pub last_failure : Option Instant
  pub last_error : Option Text
  pub consecutive_failures : ℕ
  pub failing_since : Option Instant
  pub requests : ℕ
  pub failures : ℕ
  pub mirrored : ℕ
  pub mirror_failures : ℕ

-- `Default`
abbrev pub no_status : UpstreamStatus
no_status = record {
  last_success = none;
  last_failure = none;
  last_error = none;
  consecutive_failures = 0;
  failing_since = none;
  requests = 0;
  failures = 0;
  mirrored = 0;
  mirror_failures = 0;
}

-- `+= 1` on a `u64`
abbrev pub next_u64 : ℕ → ℕ
next_u64 n = (n + 1) % 2 ^ 64

abbrev pub ended : ℕ → Option Instant → Option (ℕ × Instant)
ended failures none = none
ended failures (some since) = some (failures, since)

unfoldable pub succeed : Instant → UpstreamStatus → UpstreamStatus × Option (ℕ × Instant)
succeed now state = (
  record {
    last_success = some now;
    last_failure = state.last_failure;
    last_error = state.last_error;
    consecutive_failures = 0;
    failing_since = none;
    requests = next_u64 state.requests;
    failures = state.failures;
    mirrored = state.mirrored;
    mirror_failures = state.mirror_failures;
  },
  ended state.consecutive_failures state.failing_since,
)

abbrev pub is_none : Option Instant → Bool
is_none none = true
is_none (some t) = false

abbrev pub get_or_insert : Instant → Option Instant → Option Instant
get_or_insert now none = some now
get_or_insert now (some t) = some t

unfoldable pub fail : Instant → Text → UpstreamStatus → UpstreamStatus × Bool
fail now error state = (
  record {
    last_success = state.last_success;
    last_failure = some now;
    last_error = some error;
    consecutive_failures = next_u64 state.consecutive_failures;
    failing_since = get_or_insert now state.failing_since;
    requests = next_u64 state.requests;
    failures = next_u64 state.failures;
    mirrored = state.mirrored;
    mirror_failures = state.mirror_failures;
  },
  is_none state.failing_since,
)

abbrev pub answered_once : Option Instant → Option Bool
answered_once none = none
answered_once (some t) = some true

unfoldable pub reachable : UpstreamStatus → Option Bool
reachable state =
    if ltb 0 state.consecutive_failures then some false else answered_once state.last_success

-- the status behind the mutex, and the counters of what was fetched
pub record UpstreamHealth : Type 0 where
  pub state : UpstreamStatus
  pub mirrored : ℕ
  pub mirror_failures : ℕ

-- the snapshot
pub status : UpstreamHealth → UpstreamStatus
status health = record health.state {
  mirrored = health.mirrored;
  mirror_failures = health.mirror_failures;
}
