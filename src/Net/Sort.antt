-- ===== src/Net/Sort.antt =====
-- server-pc/src/net.rs: the order of the addresses, `sort_by_key`.
use mathlib.Core.List.{Memᴰ}
use mathlib.Core.List.Memᴰ
use remote_control.Base.{
  ℕ, List, [], ◌∷◌, leb, if◌then◌else◌, ◌==◌, nat_eq, ◌≡◌, refl, ◌≤◌, ◌⊎◌, inl, inr, ◌↔◌, arith, ap,
  if_intro, All, ◌∙◌,
}
use remote_control.Net.{DiscoveredAddr, rank, put_in, sort_by_rank}

-- The ranks do not fall.
abbrev pub IsSorted : List DiscoveredAddr → Type 0
IsSorted [] = Unit
IsSorted (d ∷ ds) = All (λ e. rank d.kind ≤ rank e.kind) ds × IsSorted ds

abbrev pub of_rank : ℕ → List DiscoveredAddr → List DiscoveredAddr
of_rank k [] = []
of_rank k (d ∷ ds) = if rank d.kind == k then d ∷ of_rank k ds else of_rank k ds

put_in-Mem :
    (d x : DiscoveredAddr) (xs : List DiscoveredAddr) → Memᴰ d (put_in x xs) → (d ≡ x) ⊎ Memᴰ d xs
unfolding put_in
put_in-Mem d x [] m = Memᴰ.cases_cons m
put_in-Mem d x (y ∷ ys) m =
    if_intro (λ o. Memᴰ d o → (d ≡ x) ⊎ Memᴰ d (y ∷ ys)) (leb (rank x.kind) (rank y.kind))
      (λ h n. Memᴰ.cases_cons n)
      (λ h n. elim (Memᴰ.cases_cons n) [
        | inl e ↦ inr (Memᴰ.head e)
        | inr t ↦ elim (put_in-Mem d x ys t) [ inl e ↦ inl e | inr t' ↦ inr (Memᴰ.tail t') ]
      ])
      m

Mem-put_in :
    (d x : DiscoveredAddr) (xs : List DiscoveredAddr) → (d ≡ x) ⊎ Memᴰ d xs → Memᴰ d (put_in x xs)
unfolding put_in
Mem-put_in d x [] (inl e) = Memᴰ.head e
Mem-put_in d x [] (inr t) = elim t [ ]
Mem-put_in d x (y ∷ ys) o =
    if_intro (Memᴰ d) (leb (rank x.kind) (rank y.kind))
      (λ h. elim o [ inl e ↦ Memᴰ.head e | inr t ↦ Memᴰ.tail t ])
      (λ h. elim o [
        | inl e ↦ Memᴰ.tail (Mem-put_in d x ys (inl e))
        | inr t ↦ elim (Memᴰ.cases_cons t) [
          | inl e ↦ Memᴰ.head e
          | inr t' ↦ Memᴰ.tail (Mem-put_in d x ys (inr t'))
        ]
      ])

pub sort-Mem :
    (d : DiscoveredAddr) (ds : List DiscoveredAddr) → Memᴰ d (sort_by_rank ds) ↔ Memᴰ d ds
unfolding sort_by_rank
sort-Mem d [] = (λ m. m, λ m. m)
sort-Mem d (x ∷ xs) = (
  λ m. elim (put_in-Mem d x (sort_by_rank xs) m) [
    | inl e ↦ Memᴰ.head e
    | inr t ↦ Memᴰ.tail ((sort-Mem d xs).0 t)
  ],
  λ m.
      Mem-put_in d x (sort_by_rank xs)
        (elim (Memᴰ.cases_cons m) [ inl e ↦ inl e | inr t ↦ inr ((sort-Mem d xs).1 t) ]),
)

All-put_in :
    (k : ℕ) (d : DiscoveredAddr) (xs : List DiscoveredAddr)
    → k ≤ rank d.kind
    → All (λ e. k ≤ rank e.kind) xs
    → All (λ e. k ≤ rank e.kind) (put_in d xs)
unfolding put_in
All-put_in k d [] h a = (h, tt)
All-put_in k d (x ∷ xs) h a =
    if_intro (All (λ e. k ≤ rank e.kind)) (leb (rank d.kind) (rank x.kind)) (λ _. (h, a))
      (λ _. (a.0, All-put_in k d xs h a.1))

All-weaken :
    (k j : ℕ) (xs : List DiscoveredAddr)
    → k ≤ j
    → All (λ e. j ≤ rank e.kind) xs
    → All (λ e. k ≤ rank e.kind) xs
All-weaken k j [] h a = tt
All-weaken k j (x ∷ xs) h a = (omega arith, All-weaken k j xs h a.1)

put_in-IsSorted :
    (d : DiscoveredAddr) (xs : List DiscoveredAddr) → IsSorted xs → IsSorted (put_in d xs)
unfolding put_in
put_in-IsSorted d [] s = (tt, tt)
put_in-IsSorted d (x ∷ xs) s =
    if_intro IsSorted (leb (rank d.kind) (rank x.kind))
      (λ h.
        let le : rank d.kind ≤ rank x.kind = ground arith in
        ((le, All-weaken (rank d.kind) (rank x.kind) xs le s.0), s))
      (λ h. (All-put_in (rank x.kind) d xs (ground arith) s.0, put_in-IsSorted d xs s.1))

pub sort-IsSorted : (ds : List DiscoveredAddr) → IsSorted (sort_by_rank ds)
unfolding sort_by_rank
sort-IsSorted [] = tt
sort-IsSorted (d ∷ ds) = put_in-IsSorted d (sort_by_rank ds) (sort-IsSorted ds)

put_in-of_rank :
    (k : ℕ) (d : DiscoveredAddr) (xs : List DiscoveredAddr)
    → of_rank k (put_in d xs) ≡ of_rank k (d ∷ xs)
unfolding put_in
put_in-of_rank k d [] = refl
put_in-of_rank k d (x ∷ xs) =
    if_intro (λ o. of_rank k o ≡ of_rank k (d ∷ x ∷ xs)) (leb (rank d.kind) (rank x.kind))
      (λ h. refl) (λ h. ground (arith, put_in-of_rank k d xs))

pub sort-of_rank : (k : ℕ) (ds : List DiscoveredAddr) → of_rank k (sort_by_rank ds) ≡ of_rank k ds
unfolding sort_by_rank
sort-of_rank k [] = refl
sort-of_rank k (d ∷ ds) =
    put_in-of_rank k d (sort_by_rank ds)
    ∙ ap (λ r. if rank d.kind == k then d ∷ r else r) (sort-of_rank k ds)
