-- ===== src/FileSend/Ids.antt =====
-- server-pc/src/file_send.rs: the transfer ids.
use remote_control.Base.{
  ℕ, zero, suc, leb, ◌+◌, ◌-◌, ◌^◌, ◌<◌, ◌≤◌, ◌≡◌, ◌≢◌, List, [], ◌∷◌, ◌==◌, nat_eq, if◌then◌else◌,
  arith, All,
}
use remote_control.FileSend.{FileSendBridge, allocate_transfer_id}

-- The ids that the next `n` allocations return.
unfoldable pub allocations : ℕ → FileSendBridge → List ℕ
allocations zero b = []
allocations (suc n) b = (allocate_transfer_id b).1 ∷ allocations n (allocate_transfer_id b).0

-- The counter as the next id: 0 is skipped.
abbrev next_id : FileSendBridge → ℕ
next_id b = if b.next_transfer_id == 0 then 1 else b.next_transfer_id

-- How far `i` is ahead of `s`, in the cycle of the 2^32 - 1 ids.
abbrev ahead : ℕ → ℕ → ℕ
ahead s i = if leb s i then i - s else i + (2 ^ 32 - 1) - s

allocate_lem :
    (b : FileSendBridge)
    → b.next_transfer_id < 2 ^ 32
    → ((allocate_transfer_id b).1 ≡ next_id b)
      × (next_id (allocate_transfer_id b).0
          ≡ (if next_id b == 2 ^ 32 - 1 then 1 else next_id b + 1))
      × ((allocate_transfer_id b).0.next_transfer_id < 2 ^ 32)
unfolding allocate_transfer_id
allocate_lem b h = ground arith

-- The ids that follow are at least as far ahead of `s` as the counter is.
allocations-ahead :
    (n : ℕ) (b : FileSendBridge) (s k : ℕ)
    → b.next_transfer_id < 2 ^ 32
    → 1 ≤ s
    → s < 2 ^ 32
    → ahead s (next_id b) ≡ k
    → k + n < 2 ^ 32 - 1
    → All (λ i. k ≤ ahead s i) (allocations n b)
unfolding allocations
allocations-ahead zero b s k h s0 s1 e room = tt
allocations-ahead (suc n) b s k h s0 s1 e room =
    let b' : FileSendBridge = (allocate_transfer_id b).0 in
    let (first, next, small) = allocate_lem b h in
    (
      rw first (omega arith),
      All-weaken _ (allocations-ahead n b' s (k + 1) small s0 s1 (ground arith) (omega arith)),
    )
  where
    All-weaken : (is : List ℕ) → All (λ i. k + 1 ≤ ahead s i) is → All (λ i. k ≤ ahead s i) is
    All-weaken [] a = tt
    All-weaken (i ∷ is) a = (ground arith, All-weaken is a.1)

abbrev pub Distinct : List ℕ → Type 0
Distinct [] = Unit
Distinct (x ∷ xs) = All (λ y. y ≢ x) xs × Distinct xs

allocations_valid :
    (n : ℕ) (b : FileSendBridge)
    → b.next_transfer_id < 2 ^ 32
    → All (λ i. (1 ≤ i) × (i < 2 ^ 32)) (allocations n b)
unfolding allocations
allocations_valid zero b h = tt
allocations_valid (suc n) b h =
    let (first, next, small) = allocate_lem b h in
    (rw first (ground arith), allocations_valid n (allocate_transfer_id b).0 small)

apart : (s : ℕ) (is : List ℕ) → All (λ i. 1 ≤ ahead s i) is → All (λ i. i ≢ s) is
apart s [] a = tt
apart s (i ∷ is) a = (λ e. ground arith, apart s is a.1)

allocations-Distinct :
    (n : ℕ) (b : FileSendBridge)
    → b.next_transfer_id < 2 ^ 32
    → n < 2 ^ 32 - 1
    → Distinct (allocations n b)
unfolding allocations
allocations-Distinct zero b h room = tt
allocations-Distinct (suc n) b h room =
    let b' : FileSendBridge = (allocate_transfer_id b).0 in
    let i : ℕ = (allocate_transfer_id b).1 in
    let (first, next, small) = allocate_lem b h in
    (
      apart i (allocations n b') (
          allocations-ahead n b' i 1 small (rw first (ground arith)) (rw first (ground arith))
            (rw first (ground arith)) (omega arith)),
      allocations-Distinct n b' small (omega arith),
    )

-- The ids of fewer than 2^32 - 1 transfers in a row are different `u32` numbers, and none is 0, wherever the counter
-- stands.
pub allocated_ids :
    (n : ℕ) (b : FileSendBridge)
    → b.next_transfer_id < 2 ^ 32
    → n < 2 ^ 32 - 1
    → All (λ i. (1 ≤ i) × (i < 2 ^ 32)) (allocations n b) × Distinct (allocations n b)
allocated_ids n b h room = (allocations_valid n b h, allocations-Distinct n b h room)
