-- ===== src/Mirror/Tracker/Tests.antt =====
-- Runs of the back-off, and the theorems at them.
use yanuget.Prelude.{some, true, [], ◌∷◌, ◌≡◌, refl}
use yanuget.Mirror.Tracker.{back_off, active}
use yanuget.Mirror.Tracker.Delay.{after_failures, active-after_failures}

-- the seventh failure in a row waits half an hour
seventh : (after_failures (700 ∷ 600 ∷ 500 ∷ 400 ∷ 300 ∷ 200 ∷ 100 ∷ [])).until ≡ some 2500
unfolding after_failures back_off
seventh = refl

active-after_failures_example : active 259 (after_failures (200 ∷ 100 ∷ [])) ≡ true
active-after_failures_example = active-after_failures 259 200 (100 ∷ [])
