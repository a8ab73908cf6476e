-- ===== src/Mirror/Health/Tests.antt =====
-- Runs of the upstream's status, and the theorems at them.
use yanuget.Prelude.{false, some, [], ◌∷◌, ◌≡◌, refl, arith}
use yanuget.Text.{text}
use yanuget.Mirror.Health.{succeed, fail, reachable, status}
use yanuget.Mirror.Health.History.{
  History, answered, failed, status_after, IsStatus, status_after-IsStatus, reachable-status_after,
  last_word,
}

-- an answer, and two failures after it
abbrev outage : History
outage = failed 30 (text "timeout") ∷ failed 20 (text "refused") ∷ answered 10 ∷ []

since_20 : (status_after outage).failing_since ≡ some 20
unfolding status_after fail succeed
since_20 = refl

status_after-IsStatus_example : IsStatus outage (status_after outage)
status_after-IsStatus_example = status_after-IsStatus outage (ground arith)

reachable-status_after_example : reachable (status_after outage) ≡ last_word outage
reachable-status_after_example = reachable-status_after outage (ground arith)

-- a snapshot is as reachable as the status that it is of
snapshot_reachable :
    reachable (status (record { state = status_after outage; mirrored = 3; mirror_failures = 1 }))
    ≡ some false
unfolding reachable status status_after succeed fail
snapshot_reachable = refl
