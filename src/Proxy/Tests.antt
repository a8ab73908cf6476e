-- ===== src/Proxy/Tests.antt =====
-- Runs on the inputs of the source's own tests.
use yanuget.Prelude.{true, false, not, ◌&&◌, [], ◌∷◌, ◌≡◌, refl}
use yanuget.Address.{v4, v6, unmap, prefix_eq, prefix_from}
use yanuget.Proxy.{TrustedProxies, trusts, block_contains}

abbrev proxies : TrustedProxies
proxies = record {
  any_peer = false;
  nets =
      record { addr = v4 172 16 0 0; bits = 12 }
      ∷ record { addr = v6 0x2001 0xdb8 0 0 0 0 0 1; bits = 128 }
      ∷ [];
}

trusts_blocks :
    ((trusts proxies (v4 172 31 0 9) && not (trusts proxies (v4 172 32 0 9)))
      && (trusts proxies (v6 0x2001 0xdb8 0 0 0 0 0 1)
          && not (trusts proxies (v6 0x2001 0xdb8 0 0 0 0 0 2))))
    ≡ true
unfolding trusts block_contains prefix_eq prefix_from unmap
trusts_blocks = refl

-- an IPv4 peer as a listener on both protocols reports it
trusts_mapped : trusts proxies (v6 0 0 0 0 0 0xffff 0xac10 1) ≡ true
unfolding trusts block_contains prefix_eq prefix_from unmap
trusts_mapped = refl
