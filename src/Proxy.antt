-- ===== src/Proxy.antt =====
-- src/proxy.rs: which peers may set forwarding headers.
mod Tests
use yanuget.Prelude.{ℕ, Bool, true, false, ◌||◌, List, [], ◌∷◌, any, ◌≡◌}
use yanuget.Address.{IpAddr, v4, v6, octets, prefix_eq, unmap}

pub record Cidr : Type 0 where
  pub addr : IpAddr
  pub bits : ℕ

abbrev in_block : IpAddr → ℕ → IpAddr → Bool
in_block (v4 a b c d) bits (v4 w x y z) = prefix_eq (octets (v4 a b c d)) (octets (v4 w x y z)) bits
in_block (v6 a b c d e f g h) bits (v6 s t u v w x y z) =
    prefix_eq (octets (v6 a b c d e f g h)) (octets (v6 s t u v w x y z)) bits
in_block (v4 a b c d) bits (v6 s t u v w x y z) = false
in_block (v6 a b c d e f g h) bits (v4 w x y z) = false

unfoldable pub block_contains : Cidr → IpAddr → Bool
block_contains net ip = in_block net.addr net.bits ip

pub record TrustedProxies : Type 0 where
  pub any_peer : Bool
  pub nets : List Cidr

unfoldable pub trusts : TrustedProxies → IpAddr → Bool
trusts proxies ip = proxies.any_peer || any (λ net. block_contains net (unmap ip)) proxies.nets
