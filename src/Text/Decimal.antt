-- ===== src/Text/Decimal.antt =====
-- Decimal numerals: `{}` writes what `parse::<u64>` reads, and no leading zero.
use yanuget.Prelude.{
  ◌==◌, ℕ, zero, suc, ◌+◌, ◌-◌, ◌*◌, ◌/◌, ◌%◌, ◌^◌, ◌<◌, true, false, none, some, [], ◌∷◌, ◌++◌,
  ltb, if◌then◌else◌, all, ◌≡◌, ◌≢◌, refl, sym, ap, ◌∙◌, arith, Bool-cases, inl, inr, append_assoc,
  append-nil, ltb→lt,
}
use yanuget.Text.{Text, is_ascii_digit, read_onto, parse_u64, decimal_onto, decimal}

decimal_onto-append :
    (f n : ℕ) (out more : Text) → decimal_onto f n (out ++ more) ≡ decimal_onto f n out ++ more
unfolding decimal_onto
decimal_onto-append zero n out more = refl
decimal_onto-append (suc f) n out more =
    ground (arith, decimal_onto-append f (n / 10) ((b'0' + n % 10) ∷ out) more)

-- any fuel above the number gives the same digits
decimal_onto_fuel :
    (f g n : ℕ) (out : Text) → n < f → n < g → decimal_onto f n out ≡ decimal_onto g n out
unfolding decimal_onto
decimal_onto_fuel zero g n out p q = absurd (omega arith)
decimal_onto_fuel (suc f) zero n out p q = absurd (omega arith)
decimal_onto_fuel (suc f) (suc g) n out p q = elim (Bool-cases (ltb n 10)) [
  | inl small ↦ rw small
  | inr large ↦ rw large (decimal_onto_fuel f g (n / 10) _ (ground arith) (ground arith))
]

pub decimal_small : (n : ℕ) → n < 10 → decimal n ≡ (b'0' + n) ∷ []
unfolding decimal
decimal_small n h = ground arith

-- the last digit of a number of several digits
pub decimal_snoc : (m d : ℕ) → 0 < m → d < 10 → decimal (m * 10 + d) ≡ decimal m ++ (b'0' + d) ∷ []
unfolding decimal
decimal_snoc m d hm hd =
    let quot : (m * 10 + d) / 10 ≡ m = omega arith in
    let digit : (m * 10 + d) % 10 ≡ d = omega arith in
    let large : ltb (m * 10 + d) 10 ≡ false = ground arith in
    rw large (
      rw (quot, digit)
        (decimal_onto_fuel (m * 10 + d) (suc m) m _ (omega arith) (omega arith)
          ∙ decimal_onto-append (suc m) m [] ((b'0' + d) ∷ [])))

read_onto-decimal_onto :
    (f n : ℕ) (out : Text) → n < f → read_onto 0 (decimal_onto f n out) ≡ read_onto n out
unfolding decimal_onto
read_onto-decimal_onto zero n out h = absurd (omega arith)
read_onto-decimal_onto (suc f) n out h = elim (Bool-cases (ltb n 10)) [
  | inl small ↦ rw small (ap (λ k. read_onto k out) (omega arith))
  | inr large ↦ rw large (
      read_onto-decimal_onto f (n / 10) ((b'0' + n % 10) ∷ out) (ground arith)
      ∙ ap (λ k. read_onto k out) (omega arith))
]

pub read_onto-decimal : (n : ℕ) → read_onto 0 (decimal n) ≡ n
unfolding decimal
read_onto-decimal n = read_onto-decimal_onto (suc n) n [] (omega arith)

all_digits-decimal_onto :
    (f n : ℕ) (out : Text)
    → n < f
    → all is_ascii_digit out ≡ true
    → all is_ascii_digit (decimal_onto f n out) ≡ true
unfolding decimal_onto
all_digits-decimal_onto zero n out h a = a
all_digits-decimal_onto (suc f) n out h a = elim (Bool-cases (ltb n 10)) [
  | inl small ↦ ground arith
  | inr large ↦
      rw large
        (all_digits-decimal_onto f (n / 10) ((b'0' + n % 10) ∷ out) (ground arith) (ground arith))
]

pub all_digits-decimal : (n : ℕ) → all is_ascii_digit (decimal n) ≡ true
unfolding decimal
all_digits-decimal n = all_digits-decimal_onto (suc n) n [] (omega arith) refl

decimal_onto_head :
    (f n : ℕ) (out : Text)
    → n < f
    → 0 < n
    → (d : ℕ) × (s : Text) × (decimal_onto f n out ≡ (b'0' + d) ∷ s) × (0 < d) × (d < 10)
unfolding decimal_onto
decimal_onto_head zero n out h p = absurd (omega arith)
decimal_onto_head (suc f) n out h p = elim (Bool-cases (ltb n 10)) [
  | inl small ↦ (n, out, rw small, p, ltb→lt n 10 small)
  | inr large ↦
      rw large (decimal_onto_head f (n / 10) ((b'0' + n % 10) ∷ out) (ground arith) (ground arith))
]

-- A positive number begins with a digit that is not 0.
pub decimal_head :
    (n : ℕ) → 0 < n → (d : ℕ) × (s : Text) × (decimal n ≡ (b'0' + d) ∷ s) × (0 < d) × (d < 10)
unfolding decimal
decimal_head n h = decimal_onto_head (suc n) n [] (omega arith) h

-- Writing what more digits are read onto appends the digits.
decimal-read_onto :
    (m : ℕ) (s : Text)
    → 0 < m
    → all is_ascii_digit s ≡ true
    → decimal (read_onto m s) ≡ decimal m ++ s
decimal-read_onto m [] h a = sym (append-nil (decimal m))
decimal-read_onto m (c ∷ s) h a =
    let d : c - b'0' < 10 = ground arith in
    let back : b'0' + (c - b'0') ≡ c = ground arith in
    decimal-read_onto (m * 10 + (c - b'0')) s (omega arith) (ground arith)
    ∙ ap (λ t. t ++ s) (decimal_snoc m (c - b'0') h d)
    ∙ append_assoc (decimal m) ((b'0' + (c - b'0')) ∷ []) s
    ∙ ap (λ k. decimal m ++ (k ∷ s)) back

-- A numeral with no leading zero is the one that its value is written as.
pub decimal_canonical :
    (c : ℕ) (s : Text)
    → all is_ascii_digit (c ∷ s) ≡ true
    → c ≢ b'0'
    → decimal (read_onto 0 (c ∷ s)) ≡ c ∷ s
decimal_canonical c s a h =
    let d : c - b'0' < 10 = ground arith in
    let p : 0 < c - b'0' = ground arith in
    let back : b'0' + (c - b'0') ≡ c = ground arith in
    decimal-read_onto (0 * 10 + (c - b'0')) s (omega arith) (ground arith)
    ∙ ap (λ t. t ++ s) (decimal_small (0 * 10 + (c - b'0')) (omega arith))
    ∙ ap (λ k. k ∷ s) (omega arith)

-- `parse::<u64>` of a run of digits
pub parse_u64_digits :
    (c : ℕ) (s : Text)
    → all is_ascii_digit (c ∷ s) ≡ true
    → parse_u64 (c ∷ s)
      ≡ (if ltb (read_onto 0 (c ∷ s)) (2 ^ 64) then some (read_onto 0 (c ∷ s)) else none)
unfolding parse_u64
parse_u64_digits c s a = ground arith

-- A text that reads as a number, and has no sign, is digits with that value.
pub parse_u64-some :
    (c : ℕ) (s : Text) {n : ℕ}
    → (c == b'+') ≡ false
    → parse_u64 (c ∷ s) ≡ some n
    → (all is_ascii_digit (c ∷ s) ≡ true) × (read_onto 0 (c ∷ s) ≡ n)
unfolding parse_u64
parse_u64-some c s h e = ground arith
