-- ===== src/Mirror/Tracker/Delay.antt =====
-- The waits of a run of failures: the first, doubled by each further one, up to the longest.
use yanuget.Prelude.{
  ℕ, zero, suc, ◌+◌, ◌-◌, ◌*◌, ◌^◌, ◌≤◌, false, none, some, List, [], ◌∷◌, length, ltb, ◌≡◌, refl,
  sym, ap, ◌∙◌, arith,
}
use yanuget.Models.{Instant}
use yanuget.Mirror.Tracker.{
  Backoff, no_backoff, active, one_more, wait_after, back_off, smaller, first_backoff, max_backoff,
}

-- the state behind a run of failures, the latest first
unfoldable pub after_failures : List Instant → Backoff
after_failures [] = no_backoff
after_failures (now ∷ before) = back_off now (after_failures before)

-- the wait after one failure and so many more
abbrev pub doubled : ℕ → ℕ
doubled zero = first_backoff
doubled (suc n) = smaller (2 * doubled n) max_backoff

counted : (run : List Instant) → (after_failures run).failures ≡ smaller (length run) (2 ^ 32 - 1)
unfolding after_failures back_off
counted [] = refl
counted (now ∷ before) = ground (arith, counted before)

-- past the sixth, the waits stay the longest
doubled-max : (m : ℕ) → doubled (suc (suc (suc (suc (suc (suc m)))))) ≡ max_backoff
doubled-max zero = refl
doubled-max (suc m) = ap (λ d. smaller (2 * d) max_backoff) (doubled-max m)

exponent : (n : ℕ) → 10 ≤ n → smaller (smaller (suc n) (2 ^ 32 - 1) - 1) 10 ≡ 10
exponent n h = ground (arith, h)

wait_after-doubled : (n : ℕ) → wait_after (smaller (suc n) (2 ^ 32 - 1)) ≡ doubled n
wait_after-doubled zero = refl
wait_after-doubled (suc zero) = refl
wait_after-doubled (suc (suc zero)) = refl
wait_after-doubled (suc (suc (suc zero))) = refl
wait_after-doubled (suc (suc (suc (suc zero)))) = refl
wait_after-doubled (suc (suc (suc (suc (suc zero))))) = refl
wait_after-doubled (suc (suc (suc (suc (suc (suc zero)))))) = refl
wait_after-doubled (suc (suc (suc (suc (suc (suc (suc zero))))))) = refl
wait_after-doubled (suc (suc (suc (suc (suc (suc (suc (suc zero)))))))) = refl
wait_after-doubled (suc (suc (suc (suc (suc (suc (suc (suc (suc zero))))))))) = refl
wait_after-doubled (suc (suc (suc (suc (suc (suc (suc (suc (suc (suc m)))))))))) =
    ap (λ e. smaller (first_backoff * 2 ^ e) max_backoff)
      (exponent (suc (suc (suc (suc (suc (suc (suc (suc (suc (suc m)))))))))) (omega arith))
    ∙ sym (doubled-max (suc (suc (suc (suc m)))))

saturates : (n : ℕ) → one_more (smaller n (2 ^ 32 - 1)) ≡ smaller (suc n) (2 ^ 32 - 1)
saturates n = ground arith

-- After a run of failures, the package is not asked for until so long after the latest one: 30 seconds
-- after a first failure, and after each further one twice as long as before, but at most half an hour.
-- That the count of failures stops at the largest `u32` does not show.
pub after_failures-until :
    (now : Instant) (before : List Instant)
    → (after_failures (now ∷ before)).until ≡ some (now + doubled (length before))
unfolding after_failures back_off
after_failures-until now before =
    ap (λ f. some (now + wait_after (one_more f))) (counted before)
    ∙ ap (λ f. some (now + wait_after f)) (saturates (length before))
    ∙ ap (λ w. some (now + w)) (wait_after-doubled (length before))

-- While a run of failures lasts, a package is held back exactly in the time after the latest one.
pub active-after_failures :
    (at_ now : Instant) (before : List Instant)
    → active at_ (after_failures (now ∷ before)) ≡ ltb at_ (now + doubled (length before))
unfolding active
active-after_failures at_ now before =
    ap (λ o. elim o [ none ↦ false | some until ↦ ltb at_ until ]) (after_failures-until now before)
