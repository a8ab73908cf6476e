-- ===== src/Text/Trim.antt =====
-- Texts that `trim` leaves as they are.
use mathlib.Core.List.{reverse-append, reverse-reverse}
use yanuget.Prelude.{
  false, ◌++◌, ap, sym, ℕ, Bool, true, not, [], ◌∷◌, reverse, all, ◌≡◌, refl, ◌∙◌, arith,
  all-append,
}
use yanuget.Text.{Text, is_whitespace, drop_while, trim, trim_start, trim_end}

drop_while_id : (p : ℕ → Bool) (s : Text) → all (λ c. not (p c)) s ≡ true → drop_while p s ≡ s
drop_while_id p [] h = refl
drop_while_id p (c ∷ s) h = ground arith

pub all-reverse : (p : ℕ → Bool) (s : Text) → all p s ≡ true → all p (reverse s) ≡ true
all-reverse p [] h = refl
all-reverse p (c ∷ s) h =
    rw (reverse-append (c ∷ []) s)
      (all-append p (reverse s) (c ∷ []) ∙ ground (arith, all-reverse p s))

-- A text with no white space is its own `trim_end`, and its own `trim`.
pub trim_end_id : (s : Text) → all (λ c. not (is_whitespace c)) s ≡ true → trim_end s ≡ s
unfolding trim_end
trim_end_id s h =
    rw (drop_while_id is_whitespace (reverse s) (all-reverse (λ c. not (is_whitespace c)) s h))
      (reverse-reverse s)

pub trim_id : (s : Text) → all (λ c. not (is_whitespace c)) s ≡ true → trim s ≡ s
unfolding trim trim_start
trim_id s h = rw (drop_while_id is_whitespace s h) (trim_end_id s h)

-- A text that begins and ends with other characters than white space is its own `trim`, whatever
-- stands between them.
pub trim_ends :
    (c d : ℕ) (s : Text)
    → is_whitespace c ≡ false
    → is_whitespace d ≡ false
    → trim (c ∷ (s ++ d ∷ [])) ≡ c ∷ (s ++ d ∷ [])
unfolding trim trim_start trim_end
trim_ends c d s hc hd = rw hc (
    rw (reverse-append (c ∷ s) (d ∷ [])) (
      rw hd
        (ap reverse (sym (reverse-append (c ∷ s) (d ∷ []))) ∙ reverse-reverse (c ∷ (s ++ d ∷ [])))))

-- One space in front is dropped.
pub trim_space : (s : Text) → trim (0x20 ∷ s) ≡ trim s
unfolding trim trim_start is_whitespace
trim_space s = refl
