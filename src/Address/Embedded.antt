-- ===== src/Address/Embedded.antt =====
-- No IPv6 form of an IPv4 address hides it.
use yanuget.Prelude.{
  ℕ, ◌+◌, ◌*◌, ◌/◌, ◌%◌, ◌<◌, true, not, ◌||◌, none, some, ltb, ◌==◌, if◌then◌else◌, ◌≡◌, refl, ap,
  ◌∙◌, arith,
}
use yanuget.Address.{IpAddr, v4, v6, unmap}
use yanuget.Address.Private.{
  is_private_octets, octets_of, is_private_v4, embedded_v4, is_private_ip, is_private_ip_addr,
}

-- The IPv6 addresses that carry the IPv4 address of four octets: IPv4-mapped, NAT64, 6to4 (of any host),
-- and IPv4-compatible where it is not one of the first two addresses.
pub data IsForm (a b c d : ℕ) : IpAddr → Type 0 where
  plain : IsForm a b c d (v4 a b c d)
  mapped : IsForm a b c d (v6 0 0 0 0 0 0xffff (a * 256 + b) (c * 256 + d))
  nat64 : IsForm a b c d (v6 0x64 0xff9b 0 0 0 0 (a * 256 + b) (c * 256 + d))
  six_to_four : (s t u v w : ℕ) → IsForm a b c d (v6 0x2002 (a * 256 + b) (c * 256 + d) s t u v w)
  compatible :
      1 < (a * 256 + b) * 65536 + (c * 256 + d)
      → IsForm a b c d (v6 0 0 0 0 0 0 (a * 256 + b) (c * 256 + d))

high : (a b : ℕ) → b < 256 → (a * 256 + b) / 256 ≡ a
high a b h = omega (arith, h)

low : (a b : ℕ) → b < 256 → (a * 256 + b) % 256 ≡ b
low a b h = omega (arith, h)

-- neither the unspecified nor the loopback address
not_first : (x y : ℕ) → 1 < x * 65536 + y → (not (x == 0) || ltb 1 y) ≡ true
not_first x y h = ground arith

carried : (x y : ℕ) → 1 < x * 65536 + y → embedded_v4 0 0 0 0 0 0 x y ≡ some (octets_of x y)
unfolding embedded_v4
carried x y h = ap (λ t. if t then some (octets_of x y) else none) (not_first x y h)

carried_private :
    (x y : ℕ)
    → 1 < x * 65536 + y
    → is_private_ip (v6 0 0 0 0 0 0 x y) ≡ is_private_octets (octets_of x y)
unfolding is_private_ip
carried_private x y h = rw (carried x y h, is_private_ip) refl

-- Every form of an IPv4 address is refused exactly when the address itself is.
pub is_private_ip_addr-IsForm :
    (a b c d : ℕ) (ip : IpAddr)
    → b < 256
    → d < 256
    → IsForm a b c d ip
    → is_private_ip_addr ip ≡ is_private_v4 a b c d
unfolding is_private_ip_addr is_private_ip unmap embedded_v4
is_private_ip_addr-IsForm a b c d ip p q plain = refl
is_private_ip_addr-IsForm a b c d ip p q mapped =
    rw (high a b p, low a b p, high c d q, low c d q) refl
is_private_ip_addr-IsForm a b c d ip p q nat64 =
    rw (high a b p, low a b p, high c d q, low c d q) refl
is_private_ip_addr-IsForm a b c d ip p q (six_to_four s t u v w) =
    rw (high a b p, low a b p, high c d q, low c d q) refl
is_private_ip_addr-IsForm a b c d ip p q (compatible big) =
    carried_private (a * 256 + b) (c * 256 + d) big
    ∙ rw (high a b p, low a b p, high c d q, low c d q) refl
