-- ===== src/Files.antt =====
-- The file system as the program uses it: a map from paths to contents, and the sequences of
-- operations that the program runs on it, each of which a crash may cut short.
pub mod Atomic
use remote_control.Base.{
  ℕ, ◌≤◌, ◌≡◌, Bool, true, false, List, [], ◌∷◌, ◌++◌, Option, none, some, Map, get, insert, remove,
  list_eq, Eq, take, length,
}

-- A path is the text of its components.
abbrev pub FilePath : Type 0
FilePath = List ℕ

abbrev pub Disk : Type 0
Disk = Map FilePath (List ℕ)

-- `PathBuf::join` with a file name, on Windows.
unfoldable pub join : FilePath → List ℕ → FilePath
join dir name = dir ++ (b'\\' ∷ name)

unfoldable pub exists_file : Disk → FilePath → Bool
exists_file disk path = elim (get path disk) [ none ↦ false | some c ↦ true ]

-- `File::create` truncates.
unfoldable pub create : Disk → FilePath → Disk
create disk path = insert path [] disk

-- `write_all` to an open file, at its end.
unfoldable pub append : Disk → FilePath → List ℕ → Disk
append disk path bytes = elim (get path disk) [
  | none ↦ disk
  | some old ↦ insert path (old ++ bytes) disk
]

unfoldable pub rename : Disk → FilePath → FilePath → Disk
rename disk from to = elim (get from disk) [
  | none ↦ disk
  | some content ↦ insert to content (remove from disk)
]

-- `fs::write` creates the file and fills it; `sync_all` changes no content.
pub data Op : Type 0 where
  write : FilePath → List ℕ → Op
  sync : FilePath → Op
  move : FilePath → FilePath → Op

unfoldable pub apply : Op → Disk → Disk
apply (write path bytes) disk = insert path bytes disk
apply (sync path) disk = disk
apply (move from to) disk = rename disk from to

unfoldable pub run_ops : List Op → Disk → Disk
run_ops [] disk = disk
run_ops (op ∷ ops) disk = run_ops ops (apply op disk)

-- What a crash, or an error that stops the sequence, can leave: any number of whole operations,
-- then possibly a part of a write. A rename is whole or not done, as the file systems promise.
pub data Stops : List Op → Disk → Disk → Type 0 where
  here : (ops : List Op) (disk : Disk) → Stops ops disk disk
  cut :
      (path : FilePath) (bytes : List ℕ) (ops : List Op) (disk : Disk) (n : ℕ)
      → Stops (write path bytes ∷ ops) disk (insert path (take n bytes) disk)
  next :
      {op : Op} {ops : List Op} {disk disk' : Disk}
      → Stops ops (apply op disk) disk'
      → Stops (op ∷ ops) disk disk'
