-- ===== src/Mirror/Health/History.antt =====
-- The status is what the history of requests says.
use yanuget.Prelude.{
  ap₂, ℕ, suc, ◌+◌, ◌^◌, ◌<◌, ◌≤◌, Bool, true, false, Option, none, some, List, [], ◌∷◌, length,
  ltb, ◌==◌, if◌then◌else◌, ◌≡◌, refl, ap, ◌∙◌, arith,
}
use yanuget.Text.{Text}
use yanuget.Models.{Instant}
use yanuget.Mirror.Health.{
  answered_once, UpstreamStatus, no_status, succeed, fail, reachable, ended, is_none, get_or_insert,
  next_u64,
}

pub data Event : Type 0 where
  answered : Instant → Event
  failed : Instant → Text → Event

-- the latest first
abbrev pub History : Type 0
History = List Event

abbrev pub step : Event → UpstreamStatus → UpstreamStatus
step (answered now) state = (succeed now state).0
step (failed now error) state = (fail now error state).0

-- the status behind a history
unfoldable pub status_after : History → UpstreamStatus
status_after [] = no_status
status_after (e ∷ before) = step e (status_after before)

-- the failures since the last answer, and the first of them
abbrev pub streak : History → ℕ
streak [] = 0
streak (answered now ∷ before) = 0
streak (failed now error ∷ before) = suc (streak before)

abbrev pub streak_start : History → Option Instant
streak_start [] = none
streak_start (answered now ∷ before) = none
streak_start (failed now error ∷ before) = get_or_insert now (streak_start before)

abbrev pub all_failures : History → ℕ
all_failures [] = 0
all_failures (answered now ∷ before) = all_failures before
all_failures (failed now error ∷ before) = suc (all_failures before)

abbrev pub last_answer : History → Option Instant
last_answer [] = none
last_answer (answered now ∷ before) = some now
last_answer (failed now error ∷ before) = last_answer before

-- the latest failure, and its error
abbrev pub last_failed : History → Option Instant
last_failed [] = none
last_failed (answered now ∷ before) = last_failed before
last_failed (failed now error ∷ before) = some now

abbrev pub last_error_of : History → Option Text
last_error_of [] = none
last_error_of (answered now ∷ before) = last_error_of before
last_error_of (failed now error ∷ before) = some error

-- what the latest request says of the upstream
abbrev pub last_word : History → Option Bool
last_word [] = none
last_word (answered now ∷ before) = some true
last_word (failed now error ∷ before) = some false

-- the fields of a status as its history has them
pub record IsStatus (h : History) (s : UpstreamStatus) : Type 0 where
  pub requests : s.requests ≡ length h
  pub failures : s.failures ≡ all_failures h
  pub consecutive : s.consecutive_failures ≡ streak h
  pub since : s.failing_since ≡ streak_start h
  pub success : s.last_success ≡ last_answer h
  pub failure : s.last_failure ≡ last_failed h
  pub error : s.last_error ≡ last_error_of h

streak-length : (h : History) → streak h ≤ length h
streak-length [] = omega arith
streak-length (answered now ∷ before) = omega arith
streak-length (failed now error ∷ before) = omega (arith, streak-length before)

all_failures-length : (h : History) → all_failures h ≤ length h
all_failures-length [] = omega arith
all_failures-length (answered now ∷ before) = omega (arith, all_failures-length before)
all_failures-length (failed now error ∷ before) = omega (arith, all_failures-length before)

next_below : (n m : ℕ) → n ≡ m → m + 1 < 2 ^ 64 → next_u64 n ≡ suc m
next_below n m e h = omega (arith, e, h)

-- After fewer than 2^64 requests, the counters are the numbers of requests, of failures and of failures
-- since the last answer; `failing_since` is the first of the last, `last_success` the last answer, and
-- `last_failure` and `last_error` are the instant and the error of the last failure.
pub status_after-IsStatus : (h : History) → length h < 2 ^ 64 → IsStatus h (status_after h)
unfolding status_after succeed fail
status_after-IsStatus [] b = record {
  requests = refl;
  failures = refl;
  consecutive = refl;
  since = refl;
  success = refl;
  failure = refl;
  error = refl;
}
status_after-IsStatus (answered now ∷ before) b =
    let s = status_after-IsStatus before (omega (arith, b)) in
    record {
      requests = next_below _ _ s.requests (omega (arith, b));
      failures = s.failures;
      consecutive = refl;
      since = refl;
      success = refl;
      failure = s.failure;
      error = s.error;
    }
status_after-IsStatus (failed now error ∷ before) b =
    let s = status_after-IsStatus before (omega (arith, b)) in
    record {
      requests = next_below _ _ s.requests (omega (arith, b));
      failures = next_below _ _ s.failures (omega (arith, b, all_failures-length before));
      consecutive = next_below _ _ s.consecutive (omega (arith, b, streak-length before));
      since = ap (get_or_insert now) s.since;
      success = s.success;
      failure = refl;
      error = refl;
    }

answered_once_of :
    (g : History)
    → (if ltb 0 (streak g) then some false else answered_once (last_answer g)) ≡ last_word g
answered_once_of [] = refl
answered_once_of (answered now ∷ before) = refl
answered_once_of (failed now error ∷ before) = ground arith

-- After fewer than 2^64 requests, `reachable` is the word of the latest one.
pub reachable-status_after :
    (h : History) → length h < 2 ^ 64 → reachable (status_after h) ≡ last_word h
unfolding reachable
reachable-status_after h b =
    let s = status_after-IsStatus h b in
    ap₂ (λ n o. if ltb 0 n then some false else answered_once o) s.consecutive s.success
    ∙ answered_once_of h

is_none-streak_start : (g : History) → is_none (streak_start g) ≡ (streak g == 0)
is_none-streak_start [] = refl
is_none-streak_start (answered now ∷ before) = refl
is_none-streak_start (failed now error ∷ before) = starts (streak_start before)
  where
    starts : (o : Option Instant) → is_none (get_or_insert now o) ≡ (suc (streak before) == 0)
    starts none = ground arith
    starts (some t) = ground arith

-- After fewer than 2^64 requests, a failure is told to be the first of a run exactly when the latest
-- request did not fail, and an answer reports the failures that it ends and the first of them, if any.
status_after-told :
    (h : History) (now : Instant) (error : Text)
    → length h < 2 ^ 64
    → ((fail now error (status_after h)).1 ≡ (streak h == 0))
      × ((succeed now (status_after h)).1 ≡ ended (streak h) (streak_start h))
unfolding fail succeed
status_after-told h now error b =
    let s = status_after-IsStatus h b in
    (ap is_none s.since ∙ is_none-streak_start h, ap₂ ended s.consecutive s.since)
