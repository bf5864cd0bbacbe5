-- ===== src/Net/Offers.antt =====
-- server-pc/src/net.rs: which interfaces `discover_lan_ipv4` takes an address of.
use mathlib.Core.List.{Memᴰ}
use mathlib.Core.List.Memᴰ
use remote_control.Base.{
  ℕ, Bool, true, none, ◌≢◌, ◌==◌, some_injective, false, ◌||◌, List, [], ◌∷◌, some, nat_eq, ◌≡◌,
  refl, ◌≤◌, ◌⊎◌, inl, inr, arith, ap, Option-cases, if_intro, option_intro, sym, subst, ◌∙◌,
}
use remote_control.Net.{
  Ipv4Addr, IpAddr, v4, v6, Interface, DiscoveredAddr, is_private, is_link_local, is_unspecified,
  is_broadcast, candidate, candidates, classify_interface, rank,
}
use remote_control.Net.Sort.{of_rank}

-- The private ranges 10.0.0.0/8, 172.16.0.0/12 and 192.168.0.0/16.
abbrev pub IsPrivate : Ipv4Addr → Type 0
IsPrivate v =
    (v.o0 ≡ 10) ⊎ ((v.o0 ≡ 172) × (16 ≤ v.o1) × (v.o1 ≤ 31)) ⊎ ((v.o0 ≡ 192) × (v.o1 ≡ 168))

-- The address `d` is that of the interface `i`, which the phone may reach.
abbrev pub Offers : Interface → DiscoveredAddr → Type 0
Offers i d =
    (i.is_loopback ≡ false)
    × (i.ip ≡ v4 d.addr)
    × IsPrivate d.addr
    × (d.iface_name ≡ i.name)
    × (d.kind ≡ classify_interface i.name)

is_private-IsPrivate : (v : Ipv4Addr) → is_private v ≡ true → IsPrivate v
unfolding is_private
is_private-IsPrivate v h = ground arith

IsPrivate-is_private : (v : Ipv4Addr) → IsPrivate v → is_private v ≡ true
unfolding is_private
IsPrivate-is_private v h = ground arith

-- The three special tests reject no private address.
IsPrivate-special :
    (v : Ipv4Addr) → IsPrivate v → (is_link_local v || is_unspecified v || is_broadcast v) ≡ false
unfolding is_link_local is_unspecified is_broadcast
IsPrivate-special v h = ground arith

offered :
    (a : Ipv4Addr) (n : List ℕ) (d : DiscoveredAddr)
    → IsPrivate a
    → record { addr = a; iface_name = n; kind = classify_interface n } ≡ d
    → Offers (record { is_loopback = false; ip = v4 a; name = n }) d
offered a n d p e =
    subst (Offers (record { is_loopback = false; ip = v4 a; name = n })) e
      (refl, refl, p, refl, refl)

from_parts :
    (up : Bool) (ip : IpAddr) (n : List ℕ) (d : DiscoveredAddr)
    → candidate (record { is_loopback = up; ip = ip; name = n }) ≡ some d
    → Offers (record { is_loopback = up; ip = ip; name = n }) d
unfolding candidate
from_parts true ip n d h = absurd cc
from_parts false (v6 a) n d h = absurd cc
from_parts false (v4 a) n d h =
    let i : Interface = record { is_loopback = false; ip = v4 a; name = n } in
    if_intro (λ o. o ≡ some d → Offers i d) (is_link_local a || is_unspecified a || is_broadcast a)
      (λ s e. absurd cc)
      (λ s.
        if_intro (λ o. o ≡ some d → Offers i d) (is_private a)
          (λ p e. offered a n d (is_private-IsPrivate a p) cc) (λ p e. absurd cc))
      h

candidate-Offers : (i : Interface) (d : DiscoveredAddr) → candidate i ≡ some d → Offers i d
candidate-Offers i d h = from_parts i.is_loopback i.ip i.name d h

Offers-candidate : (i : Interface) (d : DiscoveredAddr) → Offers i d → candidate i ≡ some d
unfolding candidate
Offers-candidate i d (up, at, private, name, kind) =
    rw (up, candidate)
      (rw (at) (
        rw (IsPrivate-special d.addr private)
          (rw (IsPrivate-is_private d.addr private) (rw (name, kind) refl))))

-- The addresses of the rank `k` that the interfaces have, one for each that has one, in their order.
abbrev pub Picks : ℕ → List Interface → List DiscoveredAddr → Type 0
Picks k [] ds = ds ≡ []
Picks k (i ∷ is) ds =
    ((d : DiscoveredAddr) × (later : List DiscoveredAddr) × (ds ≡ d ∷ later)
      × Offers i d
      × (rank d.kind ≡ k)
      × Picks k is later)
    ⊎ (((d : DiscoveredAddr) → Offers i d → rank d.kind ≢ k) × Picks k is ds)

-- What the candidate of one interface adds.
candidate-Picks :
    (k : ℕ) (i : Interface) (is : List Interface) (d : DiscoveredAddr)
    → candidate i ≡ some d
    → Picks k is (of_rank k (candidates is))
    → Picks k (i ∷ is) (of_rank k (d ∷ candidates is))
candidate-Picks k i is d e ps =
    if_intro (Picks k (i ∷ is)) (rank d.kind == k)
      (λ y. inl (d, of_rank k (candidates is), refl, candidate-Offers i d e, ground arith, ps))
      (λ n. inr (
        λ d' o same.
            let at : d ≡ d' = some_injective (sym e ∙ Offers-candidate i d' o) in
            let rank_d : rank d.kind ≡ k = ap (λ x. rank x.kind) at ∙ same in ground arith,
        ps,
      ))

unoffered {ℓ} :
    {P : Type ℓ} (i : Interface) (d : DiscoveredAddr) → candidate i ≡ none → Offers i d → P
unoffered i d e o = let there = sym e ∙ Offers-candidate i d o in absurd cc

pub candidates-Picks : (k : ℕ) (is : List Interface) → Picks k is (of_rank k (candidates is))
unfolding candidates
candidates-Picks k [] = refl
candidates-Picks k (i ∷ is) = elim (Option-cases (candidate i)) [
  | inl e ↦ rw (e, candidates) (inr ((λ d o same. unoffered i d e o), candidates-Picks k is))
  | inr (d, e) ↦ rw (e, candidates) (candidate-Picks k i is d e (candidates-Picks k is))
]

abbrev pub Found : List Interface → DiscoveredAddr → Type 0
Found is d = (i : Interface) × Memᴰ i is × Offers i d

later : (i : Interface) (is : List Interface) (d : DiscoveredAddr) → Found is d → Found (i ∷ is) d
later i is d (j, m, o) = (j, Memᴰ.tail m, o)

pub candidates-Found :
    (is : List Interface) (d : DiscoveredAddr) → Memᴰ d (candidates is) → Found is d
unfolding candidates
candidates-Found [] d m = elim m [ ]
candidates-Found (i ∷ is) d m =
    option_intro (λ o. Memᴰ d o → Found (i ∷ is) d) (candidate i)
      (λ n. later i is d (candidates-Found is d n))
      (λ d' e n. elim (Memᴰ.cases_cons n) [
        | inl p ↦ (i, Memᴰ.head refl, candidate-Offers i d (e ∙ ap some (sym p)))
        | inr t ↦ later i is d (candidates-Found is d t)
      ])
      m

pub Found-candidates :
    (is : List Interface) (d : DiscoveredAddr) → Found is d → Memᴰ d (candidates is)
unfolding candidates
Found-candidates [] d (j, m, o) = elim m [ ]
Found-candidates (i ∷ is) d (j, Memᴰ.head p, o) =
    rw (sym p, Offers-candidate j d o, candidates) (Memᴰ.head refl)
Found-candidates (i ∷ is) d (j, Memᴰ.tail m, o) = elim (Option-cases (candidate i)) [
  | inl e ↦ rw (e, candidates) (Found-candidates is d (j, m, o))
  | inr (d', e) ↦ rw (e, candidates) (Memᴰ.tail (Found-candidates is d (j, m, o)))
]
