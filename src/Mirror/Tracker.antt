-- ===== src/Mirror/Tracker.antt =====
-- src/mirror/tracker.rs: how long a package is not asked for after failures of the upstream.
pub mod Delay
mod Tests
use yanuget.Prelude.{
  ℕ, suc, ◌+◌, ◌-◌, ◌*◌, ◌^◌, Bool, true, false, Option, none, some, List, [], ◌∷◌, ltb, leb,
  if◌then◌else◌,
}
use yanuget.Models.{Instant}

-- `Ord::min`
abbrev pub smaller : ℕ → ℕ → ℕ
smaller a b = if leb a b then a else b

-- seconds
abbrev pub first_backoff : ℕ
first_backoff = 30

abbrev pub max_backoff : ℕ
max_backoff = 1800

pub record Backoff : Type 0 where
  pub failures : ℕ
  pub until : Option Instant

-- `Default`, and what `succeed` leaves
abbrev pub no_backoff : Backoff
no_backoff = record { failures = 0; until = none }

unfoldable pub active : Instant → Backoff → Bool
active now b = elim b.until [ none ↦ false | some until ↦ ltb now until ]

-- `saturating_add(1)` of a `u32`
abbrev pub one_more : ℕ → ℕ
one_more failures = smaller (failures + 1) (2 ^ 32 - 1)

-- the wait after so many failures
abbrev pub wait_after : ℕ → ℕ
wait_after failures = smaller (first_backoff * 2 ^ smaller (failures - 1) 10) max_backoff

unfoldable pub back_off : Instant → Backoff → Backoff
back_off now b = record {
  failures = one_more b.failures;
  until = some (now + wait_after (one_more b.failures));
}
