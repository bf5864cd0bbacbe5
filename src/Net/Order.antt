-- ===== src/Net/Order.antt =====
-- server-pc/src/net.rs: `discover_lan_ipv4` as a whole.
use mathlib.Core.List.{Memᴰ}
use remote_control.Base.{ℕ, List, some, nat_eq, ◌≡◌, refl, ◌↔◌, sym, subst}
use remote_control.Net.{Interface, DiscoveredAddr, candidates, sort_by_rank, discover_lan_ipv4}
use remote_control.Net.Offers.{Offers, Picks, candidates-Picks, candidates-Found, Found-candidates}
use remote_control.Net.Sort.{IsSorted, of_rank, sort-Mem, sort-IsSorted, sort-of_rank}

-- Whatever interfaces there are, the answer holds the addresses of those that are no loopback and have an
-- address in a private range, each with its name and kind, and no others. It begins with the physical
-- ones and ends with the virtual ones. The addresses of each rank are those of the interfaces with an
-- address of that rank, one for each, in the order of the interfaces.
pub discover_lan_ipv4_outcome :
    (is : List Interface)
    → (out : List DiscoveredAddr) × (discover_lan_ipv4 (some is) ≡ some out)
      × ((d : DiscoveredAddr) → Memᴰ d out ↔ ((i : Interface) × Memᴰ i is × Offers i d))
      × IsSorted out
      × ((k : ℕ) → Picks k is (of_rank k out))
unfolding discover_lan_ipv4
discover_lan_ipv4_outcome is = (
  sort_by_rank (candidates is),
  refl,
  λ d. (
    λ m. candidates-Found is d ((sort-Mem d (candidates is)).0 m),
    λ f. (sort-Mem d (candidates is)).1 (Found-candidates is d f),
  ),
  sort-IsSorted (candidates is),
  λ k. subst (Picks k is) (sym (sort-of_rank k (candidates is))) (candidates-Picks k is),
)
