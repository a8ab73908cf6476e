-- ===== src/Address/Private.antt =====
-- crates/yanuget-pkg/src/address.rs: the addresses that an upstream fetch must not reach.
use yanuget.Prelude.{
  ◌/◌, ◌%◌, ℕ, Bool, not, ◌&&◌, ◌||◌, Option, none, some, List, [], ◌∷◌, any, ltb, leb, ◌==◌,
  if◌then◌else◌,
}
use yanuget.Address.{IpAddr, v4, v6, octets, unmap, prefix_eq}

-- a network: its first octets, or segments, and its bits
abbrev private_v4 : List (IpAddr × ℕ)
private_v4 =
    (v4 0 0 0 0, 8)
    ∷ (v4 100 64 0 0, 10)
    ∷ (v4 192 0 0 0, 24)
    ∷ (v4 198 18 0 0, 15)
    ∷ (v4 224 0 0 0, 4)
    ∷ (v4 240 0 0 0, 4)
    ∷ []

abbrev private_v6 : List (IpAddr × ℕ)
private_v6 =
    (v6 0xfc00 0 0 0 0 0 0 0, 7)
    ∷ (v6 0xfe80 0 0 0 0 0 0 0, 10)
    ∷ (v6 0xfec0 0 0 0 0 0 0 0, 10)
    ∷ (v6 0xff00 0 0 0 0 0 0 0, 8)
    ∷ (v6 0x64 0xff9b 1 0 0 0 0 0, 48)
    ∷ []

-- `in_v4` and `in_v6`
abbrev in_net : IpAddr → IpAddr × ℕ → Bool
in_net ip net = prefix_eq (octets net.0) (octets ip) net.1

-- the standard library's predicates of IPv4 addresses that `is_private_ip` calls
abbrev pub std_private : ℕ → ℕ → ℕ → ℕ → Bool
std_private a b c d =
    a == 127
    || (a == 10 || (a == 172 && (leb 16 b && leb b 31)) || (a == 192 && b == 168))
    || (a == 169 && b == 254)
    || ((a == 0 && b == 0) && (c == 0 && d == 0))
    || ((a == 255 && b == 255) && (c == 255 && d == 255))

-- the first arm of `is_private_ip`
unfoldable pub is_private_v4 : ℕ → ℕ → ℕ → ℕ → Bool
is_private_v4 a b c d = std_private a b c d || any (in_net (v4 a b c d)) private_v4

abbrev no_segments : ℕ → ℕ → ℕ → ℕ → ℕ → ℕ → Bool
no_segments a b c d e f = ((a == 0 && b == 0) && (c == 0 && d == 0)) && (e == 0 && f == 0)

-- the four octets of two segments
abbrev pub Octets : Type 0
Octets = ℕ × ℕ × ℕ × ℕ

abbrev pub octets_of : ℕ → ℕ → Octets
octets_of s t = (s / 256, s % 256, t / 256, t % 256)

-- The IPv4 address that an IPv6 address carries: IPv4-mapped, IPv4-compatible, NAT64 or 6to4.
unfoldable pub embedded_v4 : ℕ → ℕ → ℕ → ℕ → ℕ → ℕ → ℕ → ℕ → Option Octets
embedded_v4 a b c d e f g h =
    if no_segments a b c d e 0 && f == 65535
    then some (octets_of g h)
    else if no_segments a b c d e f && (not (g == 0) || ltb 1 h)
    then some (octets_of g h)
    else if no_segments (if a == 0x64 then 0 else 1) (if b == 0xff9b then 0 else 1) c d e f
    then some (octets_of g h)
    else if a == 0x2002
    then some (octets_of b c)
    else none

abbrev pub is_private_octets : Octets → Bool
is_private_octets (a, b, c, d) = is_private_v4 a b c d

-- loopback, unspecified or in a private network
abbrev is_private_v6 : ℕ → ℕ → ℕ → ℕ → ℕ → ℕ → ℕ → ℕ → Bool
is_private_v6 a b c d e f g h =
    ((no_segments a b c d e f && (g == 0 && h == 1))
      || (no_segments a b c d e f && (g == 0 && h == 0)))
    || any (in_net (v6 a b c d e f g h)) private_v6

unfoldable pub is_private_ip : IpAddr → Bool
is_private_ip (v4 a b c d) = is_private_v4 a b c d
is_private_ip (v6 a b c d e f g h) = elim (embedded_v4 a b c d e f g h) [
  | some os ↦ is_private_octets os
  | none ↦ is_private_v6 a b c d e f g h
]

unfoldable pub is_private_ip_addr : IpAddr → Bool
is_private_ip_addr ip = is_private_ip (unmap ip)
