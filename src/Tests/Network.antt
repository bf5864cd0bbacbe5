-- ===== src/Tests/Network.antt =====
-- The addresses of the PC at concrete interfaces.
use mathlib.Core.List.{Memᴰ}
use remote_control.Base.{ℕ, ◌≡◌, refl, ◌↔◌, true, false, List, [], ◌∷◌, some, map}
use remote_control.Base.Text.{codes, starts_with, strip_prefix, to_ascii_lowercase}
use remote_control.Net.{
  any_marker, contains_text, Ipv4Addr, v4, v6, Interface, physical, virtual, unknown,
  DiscoveredAddr, classify_interface, discover_lan_ipv4,
}
use remote_control.Net.Offers.{Offers, Picks}
use remote_control.Net.Sort.{IsSorted, of_rank}
use remote_control.Net.Order.{discover_lan_ipv4_outcome}

abbrev address : ℕ → ℕ → Ipv4Addr
address a b = record { o0 = a; o1 = b; o2 = 0; o3 = 1 }

-- A virtual adapter, one of no known kind, the loopback, a public address, Wi-Fi and an IPv6 address.
abbrev interfaces : List Interface
interfaces =
    record {
      is_loopback = false;
      ip = v4 (address 172 31);
      name = codes "vEthernet (Default Switch)";
    }
    ∷ record { is_loopback = false; ip = v4 (address 10 0); name = codes "eth0" }
    ∷ record { is_loopback = true; ip = v4 (address 127 0); name = codes "lo" }
    ∷ record { is_loopback = false; ip = v4 (address 8 8); name = codes "eth1" }
    ∷ record { is_loopback = false; ip = v4 (address 192 168); name = codes "Wi-Fi" }
    ∷ record { is_loopback = false; ip = v6 []; name = codes "WLAN" }
    ∷ []

discover_lan_ipv4_outcome_example :
    (out : List DiscoveredAddr) × (discover_lan_ipv4 (some interfaces) ≡ some out)
    × ((d : DiscoveredAddr) → Memᴰ d out ↔ ((i : Interface) × Memᴰ i interfaces × Offers i d))
    × IsSorted out
    × ((k : ℕ) → Picks k interfaces (of_rank k out))
discover_lan_ipv4_outcome_example = discover_lan_ipv4_outcome interfaces

kinds :
    map classify_interface (
      codes "Wi-Fi"
      ∷ codes "WLAN"
      ∷ codes "以太网"
      ∷ codes "vEthernet (Default Switch)"
      ∷ codes "VMware Network Adapter VMnet1"
      ∷ codes "eth0"
      ∷ [])
    ≡ physical ∷ physical ∷ physical ∷ virtual ∷ virtual ∷ unknown ∷ []
unfolding classify_interface any_marker contains_text starts_with strip_prefix to_ascii_lowercase
kinds = refl
