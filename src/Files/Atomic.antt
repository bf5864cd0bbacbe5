-- ===== src/Files/Atomic.antt =====
-- Writing to a temporary file and renaming it onto the target.
use remote_control.Base.{
  ℕ, ◌≡◌, refl, ◌≢◌, ◌⊎◌, inl, inr, List, [], ◌∷◌, some, get, insert, remove, list_eq,
  get-insert_self, get-insert_ne, take,
}
use remote_control.Files.{FilePath, Disk, write, sync, move, apply, Stops, here, cut, next, rename}

-- After the rename the target has what the temporary file had.
pub rename_target :
    (disk : Disk) (from to : FilePath) (bytes : List ℕ)
    → get from disk ≡ some bytes
    → get to (rename disk from to) ≡ some bytes
unfolding rename
rename_target disk from to bytes e = rw (e, rename) (get-insert_self to bytes (remove from disk))

moved :
    (disk : Disk) (tmp path : FilePath) (bytes : List ℕ) {disk' : Disk}
    → get tmp disk ≡ some bytes
    → Stops (move tmp path ∷ []) disk disk'
    → (get path disk' ≡ get path disk) ⊎ (get path disk' ≡ some bytes)
unfolding apply
moved disk tmp path bytes e (here ops d) = inl refl
moved disk tmp path bytes e (next (here ops d)) = inr (rename_target disk tmp path bytes e)

synced :
    (disk : Disk) (tmp path : FilePath) (bytes : List ℕ) {disk' : Disk}
    → get tmp disk ≡ some bytes
    → Stops (sync tmp ∷ move tmp path ∷ []) disk disk'
    → (get path disk' ≡ get path disk) ⊎ (get path disk' ≡ some bytes)
unfolding apply
synced disk tmp path bytes e (here ops d) = inl refl
synced disk tmp path bytes e (next s) = moved disk tmp path bytes e s

-- Wherever the sequence stops, the target has its old content or the whole new one.
pub tmp_rename_atomic :
    (tmp path : FilePath) (bytes : List ℕ) (disk : Disk) {disk' : Disk}
    → tmp ≢ path
    → Stops (write tmp bytes ∷ sync tmp ∷ move tmp path ∷ []) disk disk'
    → (get path disk' ≡ get path disk) ⊎ (get path disk' ≡ some bytes)
unfolding apply
tmp_rename_atomic tmp path bytes disk ne (here ops d) = inl refl
tmp_rename_atomic tmp path bytes disk ne (cut p b ops d n) =
    inl (get-insert_ne tmp path (take n bytes) disk ne)
tmp_rename_atomic tmp path bytes disk ne (next s) =
    rw (← get-insert_ne tmp path bytes disk ne)
      (synced (insert tmp bytes disk) tmp path bytes (get-insert_self tmp bytes disk) s)

-- The same without the `sync`.
pub tmp_rename_atomic_unsynced :
    (tmp path : FilePath) (bytes : List ℕ) (disk : Disk) {disk' : Disk}
    → tmp ≢ path
    → Stops (write tmp bytes ∷ move tmp path ∷ []) disk disk'
    → (get path disk' ≡ get path disk) ⊎ (get path disk' ≡ some bytes)
unfolding apply
tmp_rename_atomic_unsynced tmp path bytes disk ne (here ops d) = inl refl
tmp_rename_atomic_unsynced tmp path bytes disk ne (cut p b ops d n) =
    inl (get-insert_ne tmp path (take n bytes) disk ne)
tmp_rename_atomic_unsynced tmp path bytes disk ne (next s) =
    rw (← get-insert_ne tmp path bytes disk ne)
      (moved (insert tmp bytes disk) tmp path bytes (get-insert_self tmp bytes disk) s)
