-- ===== src/Connection/Names/Unique.antt =====
-- server-pc/src/connection.rs, `unique_dest_path`: an upload never overwrites a file.
use remote_control.Base.{
  ℕ, zero, suc, ◌+◌, ◌≤◌, ◌<◌, ◌≡◌, refl, ◌⊎◌, inl, inr, Bool, true, false, List, Option, none,
  some, arith, Bool-cases, ℕ_discrete,
}
use remote_control.Files.{Disk, FilePath, join, exists_file}
use remote_control.Connection.Names.{candidate, first_free, unique_dest_path}

-- What a search of the numbers from `n` on, `left` of them, returns: the first candidate that is not
-- taken.
abbrev pub FirstFree : ℕ → ℕ → Disk → FilePath → List ℕ → Option FilePath → Type 0
FirstFree left n disk dir name r =
    ((r ≡ none) × ((m : ℕ) → n ≤ m → m < n + left → exists_file disk (candidate dir name m) ≡ true))
    ⊎ ((m : ℕ) × (n ≤ m)
        × (m < n + left)
        × (r ≡ some (candidate dir name m))
        × (exists_file disk (candidate dir name m) ≡ false)
        × ((j : ℕ) → n ≤ j → j < m → exists_file disk (candidate dir name j) ≡ true))

still_taken :
    (P : ℕ → Bool) (n m : ℕ)
    → P n ≡ true
    → ((j : ℕ) → n + 1 ≤ j → j < m → P j ≡ true)
    → (j : ℕ) → n ≤ j
    → j < m
    → P j ≡ true
still_taken P n m here later j lo hi = elim (ℕ_discrete n j) [
  | yes e ↦ rw (e) at here
  | no ne ↦ later j (omega arith) hi
]

first_free_cases :
    (left n : ℕ) (disk : Disk) (dir : FilePath) (name : List ℕ)
    → FirstFree left n disk dir name (first_free left n disk dir name)
unfolding first_free
first_free_cases zero n disk dir name = inl (refl, λ m lo hi. absurd (omega arith))
first_free_cases (suc left) n disk dir name =
    split (Bool-cases (exists_file disk (candidate dir name n)))
      (first_free_cases left (n + 1) disk dir name)
  where
    taken : ℕ → Bool
    taken m = exists_file disk (candidate dir name m)

    split :
        (taken n ≡ true) ⊎ (taken n ≡ false)
        → FirstFree left (n + 1) disk dir name (first_free left (n + 1) disk dir name)
        → FirstFree (suc left) n disk dir name (first_free (suc left) n disk dir name)
    split (inr free) later = inr (
      n,
      omega arith,
      omega arith,
      rw (free, first_free) refl,
      free,
      λ j lo hi. absurd (omega arith),
    )
    split (inl t) (inl (r, all)) = inl (
      rw (t, first_free) r,
      λ m lo hi. still_taken taken n (n + suc left) t (λ j a b. all j a (omega arith)) m lo hi,
    )
    split (inl t) (inr (m, lo, hi, r, free, before)) =
        inr
          (m, omega arith, omega arith, rw (t, first_free) r, free, still_taken taken n m t before)

-- The destination of an upload is the plain name in the folder if that is not taken, else the name
-- with the first number of 1 to 999 that is not; there is none exactly if all of these are taken. So
-- it is never a file that is there.
pub unique_dest_path_outcome :
    (disk : Disk) (dir : FilePath) (name : List ℕ)
    → ((exists_file disk (join dir name) ≡ false)
        × (unique_dest_path disk dir name ≡ some (join dir name)))
      ⊎ ((exists_file disk (join dir name) ≡ true)
          × FirstFree 999 1 disk dir name (unique_dest_path disk dir name))
unfolding unique_dest_path
unique_dest_path_outcome disk dir name = elim (Bool-cases (exists_file disk (join dir name))) [
  | inr free ↦ inl (free, rw (free, unique_dest_path) refl)
  | inl t ↦ inr (t, rw (t, unique_dest_path) (first_free_cases 999 1 disk dir name))
]

-- What it returns is not on the disk.
pub unique_dest_path_free :
    (disk : Disk) (dir : FilePath) (name : List ℕ) (p : FilePath)
    → unique_dest_path disk dir name ≡ some p
    → exists_file disk p ≡ false
unique_dest_path_free disk dir name p e = elim (unique_dest_path_outcome disk dir name) [
  | inl (free, r) ↦ ground (arith)
  | inr (t, inl (r, all)) ↦ cc
  | inr (t, inr (m, lo, hi, r, free, before)) ↦ ground arith
]
