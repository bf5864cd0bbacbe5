-- ===== src/Net.antt =====
-- server-pc/src/net.rs: which addresses of the PC the page offers, and in which order. The answer of
-- the `if_addrs` crate is an argument.
pub mod Offers
pub mod Sort
pub mod Order
use remote_control.Base.{
  ℕ, Bool, true, false, ◌&&◌, ◌||◌, List, [], ◌∷◌, Option, none, some, leb, if◌then◌else◌, ◌==◌,
  nat_eq,
}
use remote_control.Base.Text.{codes, starts_with, to_ascii_lowercase}

-- The four octets.
pub record Ipv4Addr : Type 0 where
  pub o0 : ℕ
  pub o1 : ℕ
  pub o2 : ℕ
  pub o3 : ℕ

pub data IpAddr : Type 0 where
  v4 : Ipv4Addr → IpAddr
  v6 : List ℕ → IpAddr

-- What `if_addrs` says of an interface: `is_loopback`, `ip` and `name`.
pub record Interface : Type 0 where
  pub is_loopback : Bool
  pub ip : IpAddr
  pub name : List ℕ

pub data InterfaceKind : Type 0 where
  physical : InterfaceKind
  virtual : InterfaceKind
  unknown : InterfaceKind

pub record DiscoveredAddr : Type 0 where
  pub addr : Ipv4Addr
  pub iface_name : List ℕ
  pub kind : InterfaceKind

unfoldable pub is_private : Ipv4Addr → Bool
is_private v =
    v.o0 == 10 || (v.o0 == 172 && (leb 16 v.o1 && leb v.o1 31)) || (v.o0 == 192 && v.o1 == 168)

unfoldable pub is_link_local : Ipv4Addr → Bool
is_link_local v = v.o0 == 169 && v.o1 == 254

unfoldable pub is_unspecified : Ipv4Addr → Bool
is_unspecified v = v.o0 == 0 && v.o1 == 0 && v.o2 == 0 && v.o3 == 0

unfoldable pub is_broadcast : Ipv4Addr → Bool
is_broadcast v = v.o0 == 255 && v.o1 == 255 && v.o2 == 255 && v.o3 == 255

-- `n.contains(m)` on texts.
unfoldable pub contains_text : List ℕ → List ℕ → Bool
contains_text m [] = starts_with m []
contains_text m (c ∷ n) = starts_with m (c ∷ n) || contains_text m n

unfoldable pub any_marker : List (List ℕ) → List ℕ → Bool
any_marker [] n = false
any_marker (m ∷ ms) n = contains_text m n || any_marker ms n

abbrev pub virtual_markers : List (List ℕ)
virtual_markers =
    codes "vethernet"
    ∷ codes "virtualbox"
    ∷ codes "vmware"
    ∷ codes "hyper-v"
    ∷ codes "wsl"
    ∷ codes "loopback pseudo"
    ∷ codes "docker"
    ∷ []

abbrev pub physical_markers : List (List ℕ)
physical_markers =
    codes "wi-fi"
    ∷ codes "wlan"
    ∷ codes "wireless"
    ∷ codes "ethernet"
    ∷ codes "以太网"
    ∷ codes "无线"
    ∷ []

unfoldable pub classify_interface : List ℕ → InterfaceKind
classify_interface name =
    let n = to_ascii_lowercase name in
    if any_marker virtual_markers n
    then virtual
    else if any_marker physical_markers n
    then physical
    else unknown

-- One round of the loop: `none` where it continues.
unfoldable pub candidate : Interface → Option DiscoveredAddr
candidate i = if i.is_loopback then none else (elim i.ip [
  | v6 _ ↦ none
  | v4 v ↦
      if is_link_local v || is_unspecified v || is_broadcast v
      then none
      else if is_private v
      then some (record { addr = v; iface_name = i.name; kind = classify_interface i.name })
      else none
])

unfoldable pub candidates : List Interface → List DiscoveredAddr
candidates [] = []
candidates (i ∷ is) = elim (candidate i) [ none ↦ candidates is | some d ↦ d ∷ candidates is ]

unfoldable pub rank : InterfaceKind → ℕ
rank physical = 0
rank unknown = 1
rank virtual = 2

-- `sort_by_key`, which keeps the order of equal keys.
unfoldable pub put_in : DiscoveredAddr → List DiscoveredAddr → List DiscoveredAddr
put_in d [] = d ∷ []
put_in d (x ∷ xs) = if leb (rank d.kind) (rank x.kind) then d ∷ x ∷ xs else x ∷ put_in d xs

unfoldable pub sort_by_rank : List DiscoveredAddr → List DiscoveredAddr
sort_by_rank [] = []
sort_by_rank (d ∷ ds) = put_in d (sort_by_rank ds)

-- `none` is the error of `get_if_addrs`.
unfoldable pub discover_lan_ipv4 : Option (List Interface) → Option (List DiscoveredAddr)
discover_lan_ipv4 none = none
discover_lan_ipv4 (some is) = some (sort_by_rank (candidates is))
