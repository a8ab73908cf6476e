-- ===== src/Address/Ranges.antt =====
-- What the private addresses are: the ranges of IPv4, and that no IPv6 form hides one.
use Prim.Native.Nat.{bit_and}
use yanuget.Prelude.{
  subst, ◌≢◌, and_right, and_left, Bool-cases, ℕ, zero, suc, ◌<◌, Bool, true, false, not, ◌&&◌,
  ◌||◌, leb, ◌==◌, ◌≡◌, refl, ap, ◌∙◌, inl, inr, arith,
}
use yanuget.Address.{prefix_eq, prefix_from}
use yanuget.Address.Private.{std_private, is_private_v4}

-- a test that holds of every number below a bound
abbrev below : ℕ → (ℕ → Bool) → Bool
below zero p = true
below (suc n) p = p n && below n p

below-at : (n : ℕ) (p : ℕ → Bool) (m : ℕ) → below n p ≡ true → m < n → p m ≡ true
below-at zero p m h l = ground arith
below-at (suc n) p m h l = elim (Bool-cases (m == n)) [
  | inl same ↦ ap p (ground (arith, same)) ∙ and_left (p n) (below n p) h
  | inr other ↦ below-at n p m (and_right (p n) (below n p) h) (ground (arith, other))
]

abbrev same : Bool → Bool → Bool
same true b = b
same false b = not b

same-eq : (a b : Bool) → same a b ≡ true → a ≡ b
same-eq a b h = ground arith

-- The octets that a mask of leading bits takes together: `lo` to `hi`.
abbrev takes : ℕ → ℕ → ℕ → ℕ → ℕ → Bool
takes net mask lo hi x = same (bit_and net mask == bit_and x mask) (leb lo x && leb x hi)

masked :
    (net mask lo hi x : ℕ)
    → below 256 (takes net mask lo hi) ≡ true
    → x < 256
    → (bit_and net mask == bit_and x mask) ≡ (leb lo x && leb x hi)
masked net mask lo hi x h l = same-eq _ _ (below-at 256 (takes net mask lo hi) x h l)

-- The private IPv4 ranges.
abbrev pub in_private_range : ℕ → ℕ → ℕ → ℕ → Bool
in_private_range a b c d =
    (((a == 0 || a == 10) || (a == 127 || leb 224 a))
      || ((a == 100 && (leb 64 b && leb b 127)) || (a == 169 && b == 254)))
    || (((a == 172 && (leb 16 b && leb b 31)) || (a == 192 && b == 168))
        || ((a == 192 && (b == 0 && c == 0)) || (a == 198 && (leb 18 b && leb b 19))))

-- the networks, as ranges of octets
abbrev ranges : ℕ → ℕ → ℕ → Bool
ranges a b c =
    (0 == a && true)
    || ((100 == a && (leb 64 b && leb b 127))
        || ((192 == a && (0 == b && (0 == c && true)))
            || ((198 == a && (leb 18 b && leb b 19))
                || ((leb 224 a && leb a 239) || ((leb 240 a && leb a 255) || false)))))

-- one first octet at a time
abbrev Agree : ℕ → Type 0
Agree a = (b c d : ℕ) → (std_private a b c d || ranges a b c) ≡ in_private_range a b c d

at_0 : Agree 0
at_0 b c d = ground arith

at_10 : Agree 10
at_10 b c d = ground arith

at_100 : Agree 100
at_100 b c d = ground arith

at_127 : Agree 127
at_127 b c d = ground arith

at_169 : Agree 169
at_169 b c d = ground arith

at_172 : Agree 172
at_172 b c d = ground arith

at_192 : Agree 192
at_192 b c d = ground arith

at_198 : Agree 198
at_198 b c d = ground arith

at_255 : Agree 255
at_255 b c d = ground arith

unless : (k a : ℕ) → Agree k → (a ≢ k → Agree a) → Agree a
unless k a at_k other = elim (Bool-cases (a == k)) [
  | inl same_ ↦ let e : k ≡ a = ground arith in subst Agree e at_k
  | inr different ↦ other (λ e. ground arith)
]

-- none of the first octets that stand in the code by themselves
other_octets :
    (a : ℕ)
    → a < 256
    → a ≢ 0
    → a ≢ 10
    → a ≢ 100
    → a ≢ 127
    → a ≢ 169
    → a ≢ 172
    → a ≢ 192
    → a ≢ 198
    → a ≢ 255
    → Agree a
other_octets a p n0 n10 n100 n127 n169 n172 n192 n198 n255 b c d = ground arith

agree : (a : ℕ) → a < 256 → Agree a
agree a p = unless 0 a at_0 λ n0. unless 10 a at_10 λ n10. unless 100 a at_100 λ n100.
    unless 127 a at_127 λ n127. unless 169 a at_169 λ n169. unless 172 a at_172 λ n172.
      unless 192 a at_192 λ n192. unless 198 a at_198 λ n198.
        unless 255 a at_255 λ n255. other_octets a p n0 n10 n100 n127 n169 n172 n192 n198 n255

-- An IPv4 address is refused exactly when it is in 0/8, 10/8, 100.64/10, 127/8, 169.254/16, 172.16/12,
-- 192.0.0/24, 192.168/16, 198.18/15 or at 224/4 and above.
pub is_private_v4-in_private_range :
    (a b c d : ℕ) → a < 256 → b < 256 → is_private_v4 a b c d ≡ in_private_range a b c d
unfolding is_private_v4 prefix_eq prefix_from
is_private_v4-in_private_range a b c d p q =
    rw
      (
        masked 64 192 64 127 b refl q,
        masked 18 254 18 19 b refl q,
        masked 224 240 224 239 a refl p,
        masked 240 240 240 255 a refl p,
      )
      (agree a p b c d)
