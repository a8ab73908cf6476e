-- ===== src/Address/Tests.antt =====
-- Runs on the inputs of the source's own tests, and the theorems at them.
use yanuget.Prelude.{true, not, ◌&&◌, ◌≡◌, refl, arith}
use yanuget.Address.{v6, unmap, prefix_eq, prefix_from}
use yanuget.Address.Private.{is_private_v4, embedded_v4, is_private_ip, is_private_ip_addr}
use yanuget.Address.Ranges.{in_private_range, is_private_v4-in_private_range}
use yanuget.Address.Embedded.{nat64, is_private_ip_addr-IsForm}

-- a metadata service behind a gateway, a unique-local address, and a public one
private_addresses :
    ((is_private_ip_addr (v6 0x64 0xff9b 0 0 0 0 0xa9fe 0xa9fe)
        && is_private_ip_addr (v6 0xfd00 0 0 0 0 0 0 1))
      && not (is_private_ip_addr (v6 0x2606 0x4700 0 0 0 0 0 1)))
    ≡ true
unfolding is_private_ip_addr is_private_ip is_private_v4 embedded_v4 unmap prefix_eq prefix_from
private_addresses = refl

is_private_v4-in_private_range_example : is_private_v4 198 19 0 1 ≡ in_private_range 198 19 0 1
is_private_v4-in_private_range_example =
    is_private_v4-in_private_range 198 19 0 1 (ground arith) (ground arith)

is_private_ip_addr-IsForm_example :
    is_private_ip_addr (v6 0x64 0xff9b 0 0 0 0 0xa9fe 0xa9fe) ≡ is_private_v4 169 254 169 254
is_private_ip_addr-IsForm_example =
    is_private_ip_addr-IsForm 169 254 169 254 (v6 0x64 0xff9b 0 0 0 0 0xa9fe 0xa9fe) (ground arith)
      (ground arith) nat64
