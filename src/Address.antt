-- ===== src/Address.antt =====
-- crates/yanuget-pkg/src/address.rs, and std::net::IpAddr as far as the sources read it.
pub mod Private
pub mod Ranges
pub mod Embedded
mod Tests
use yanuget.Prelude.{
  zero, ℕ, suc, ◌-◌, ◌*◌, ◌/◌, ◌%◌, ◌^◌, Bool, true, false, ◌&&◌, List, [], ◌∷◌, ◌==◌,
  if◌then◌else◌, ◌≡◌, ◌↔◌, arith,
}
use Prim.Native.Nat.{bit_and}

-- four octets, or eight 16-bit segments
pub data IpAddr : Type 0 where
  v4 : ℕ → ℕ → ℕ → ℕ → IpAddr
  v6 : ℕ → ℕ → ℕ → ℕ → ℕ → ℕ → ℕ → ℕ → IpAddr

-- `==` of addresses
unfoldable pub ip_eq : IpAddr → IpAddr → Bool
ip_eq (v4 a b c d) (v4 w x y z) = ((a == w) && (b == x)) && ((c == y) && (d == z))
ip_eq (v6 a b c d e f g h) (v6 s t u v w x y z) =
    (((a == s) && (b == t)) && ((c == u) && (d == v)))
    && (((e == w) && (f == x)) && ((g == y) && (h == z)))
ip_eq (v4 a b c d) (v6 s t u v w x y z) = false
ip_eq (v6 a b c d e f g h) (v4 w x y z) = false

-- `ip_eq` decides equality.
pub ip_eq_iff : (p q : IpAddr) → (ip_eq p q ≡ true) ↔ (p ≡ q)
unfolding ip_eq
ip_eq_iff (v4 a b c d) (v4 w x y z) = ground arith
ip_eq_iff (v6 a b c d e f g h) (v6 s t u v w x y z) = ground arith
ip_eq_iff (v4 a b c d) (v6 s t u v w x y z) = ground arith
ip_eq_iff (v6 a b c d e f g h) (v4 w x y z) = ground arith

-- The IPv4 address that an IPv4-mapped IPv6 address stands for: `unmap` and `IpAddr::to_canonical`.
unfoldable pub unmap : IpAddr → IpAddr
unmap (v4 a b c d) = v4 a b c d
unmap (v6 a b c d e f g h) =
    if (((a == 0) && (b == 0)) && ((c == 0) && (d == 0))) && ((e == 0) && (f == 65535))
    then v4 (g / 256) (g % 256) (h / 256) (h % 256)
    else v6 a b c d e f g h

-- the octets of a segment, and those behind it
abbrev high_low : ℕ → List ℕ → List ℕ
high_low s rest = s / 256 ∷ s % 256 ∷ rest

abbrev pub octets : IpAddr → List ℕ
octets (v4 a b c d) = a ∷ b ∷ c ∷ d ∷ []
octets (v6 a b c d e f g h) =
    high_low a
      (high_low b (high_low c (high_low d (high_low e (high_low f (high_low g (high_low h [])))))))

-- Whether two arrays agree on so many octets and on so many leading bits of the next one, under the
-- mask of those bits. An octet that is not there, at which the source panics, agrees with nothing.
unfoldable pub prefix_from : ℕ → ℕ → List ℕ → List ℕ → Bool
prefix_from (suc full) rem (x ∷ xs) (y ∷ ys) = (x == y) && prefix_from full rem xs ys
prefix_from (suc full) rem xs ys = false
prefix_from zero zero xs ys = true
prefix_from zero (suc rem) (x ∷ xs) (y ∷ ys) =
    let mask = (255 * 2 ^ (8 - suc rem)) % 256 in bit_and x mask == bit_and y mask
prefix_from zero (suc rem) xs ys = false

unfoldable pub prefix_eq : List ℕ → List ℕ → ℕ → Bool
prefix_eq a b bits = prefix_from (bits / 8) (bits % 8) a b
