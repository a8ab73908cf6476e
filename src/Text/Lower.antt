-- ===== src/Text/Lower.antt =====
-- `to_ascii_lowercase`: idempotent, and it changes neither lengths, digits nor numerals.
use yanuget.Prelude.{
  ℕ, ◌+◌, true, false, List, [], ◌∷◌, ◌++◌, ◌≡◌, refl, ap, ◌∙◌, all, arith, map, map-append, ◌==◌,
  Bool-cases, inl, inr,
}
use yanuget.Text.{Text, is_ascii_digit, lower, lower_char, len, join, parse_u64, digits_u64}

pub lower-lower : (s : Text) → lower (lower s) ≡ lower s
lower-lower [] = refl
lower-lower (c ∷ s) = ground (arith, lower-lower s)

pub len-lower : (s : Text) → len (lower s) ≡ len s
unfolding len
len-lower [] = refl
len-lower (c ∷ s) = ground (arith, len-lower s)

pub len-append : (s t : Text) → len (s ++ t) ≡ len s + len t
unfolding len
len-append [] t = omega arith
len-append (c ∷ s) t = ground (arith, len-append s t)

pub lower-join :
    (b : ℕ) (ps : List Text) → lower_char b ≡ b → lower (join b ps) ≡ join b (map lower ps)
unfolding join
lower-join b [] h = refl
lower-join b (p ∷ []) h = refl
lower-join b (p ∷ q ∷ ps) h =
    map-append lower_char p (b ∷ join b (q ∷ ps)) ∙ ground (arith, lower-join b (q ∷ ps))

pub all_digits-lower : (s : Text) → all is_ascii_digit (lower s) ≡ all is_ascii_digit s
all_digits-lower [] = refl
all_digits-lower (c ∷ s) = ground (arith, all_digits-lower s)

pub lower_digits : (s : Text) → all is_ascii_digit s ≡ true → lower s ≡ s
lower_digits [] h = refl
lower_digits (c ∷ s) h = ground (arith, lower_digits s)

digits_u64-lower : (s : Text) → digits_u64 (lower s) ≡ digits_u64 s
unfolding digits_u64
digits_u64-lower [] = refl
digits_u64-lower (c ∷ s) = elim (Bool-cases (all is_ascii_digit (c ∷ s))) [
  | inl digits ↦ ap digits_u64 (lower_digits (c ∷ s) digits)
  | inr other ↦ let same = all_digits-lower (c ∷ s) ∙ other in ground arith
]

pub parse_u64-lower : (s : Text) → parse_u64 (lower s) ≡ parse_u64 s
unfolding parse_u64
parse_u64-lower [] = refl
parse_u64-lower (c ∷ s) = elim (Bool-cases (c == b'+')) [
  | inl plus ↦ ground (arith, digits_u64-lower s)
  | inr other ↦
      let same : (lower_char c == b'+') ≡ false = ground arith in
      rw (same, other) (digits_u64-lower (c ∷ s))
]
