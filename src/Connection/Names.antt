-- ===== src/Connection/Names.antt =====
-- server-pc/src/connection.rs: the names of received files. Texts are lists of scalar values.
pub mod Safe
pub mod Unique
use remote_control.Base.{
  ℕ, zero, suc, ◌+◌, ◌-◌, ◌*◌, ◌/◌, ◌%◌, Bool, true, false, List, [], ◌∷◌, ◌++◌, Option, none, some,
  not, ◌&&◌, ◌||◌, ltb, leb, nat_beq, ◌==◌, list_eq, if◌then◌else◌, length, take,
}
use remote_control.Base.Text.{codes, rsplit_once, as_bytes}
use remote_control.Files.{Disk, FilePath, join, exists_file}

unfoldable pub is_forbidden : ℕ → Bool
is_forbidden c =
    nat_beq c b'/'
    || nat_beq c b'\\'
    || nat_beq c 0
    || nat_beq c b':'
    || nat_beq c b'*'
    || nat_beq c b'?'
    || nat_beq c b'"'
    || nat_beq c b'<'
    || nat_beq c b'>'
    || nat_beq c b'|'

-- `char::is_whitespace`.
unfoldable pub is_whitespace : ℕ → Bool
is_whitespace c =
    (leb 9 c && leb c 13)
    || nat_beq c 0x20
    || nat_beq c 0x85
    || nat_beq c 0xa0
    || nat_beq c 0x1680
    || (leb 0x2000 c && leb c 0x200a)
    || nat_beq c 0x2028
    || nat_beq c 0x2029
    || nat_beq c 0x202f
    || nat_beq c 0x205f
    || nat_beq c 0x3000

-- `chars().filter(…).collect()`.
unfoldable pub without_forbidden : List ℕ → List ℕ
without_forbidden [] = []
without_forbidden (c ∷ s) = if is_forbidden c then without_forbidden s else c ∷ without_forbidden s

unfoldable pub trim_start : List ℕ → List ℕ
trim_start [] = []
trim_start (c ∷ s) = if is_whitespace c then trim_start s else c ∷ s

unfoldable pub trim_end : List ℕ → List ℕ
trim_end [] = []
trim_end (c ∷ s) = let rest = trim_end s in if rest == [] && is_whitespace c then [] else c ∷ rest

unfoldable pub trim : List ℕ → List ℕ
trim s = trim_end (trim_start s)

abbrev pub max_name_chars : ℕ
max_name_chars = 200

-- The stem and the extension with its dot: an extension of 32 bytes or more is no extension.
unfoldable pub split_extension : List ℕ → List ℕ × List ℕ
split_extension s = elim (rsplit_once b'.' s) [
  | none ↦ (s, [])
  | some (stem, ext) ↦ if ltb (length (as_bytes ext)) 32 then (stem, b'.' ∷ ext) else (s, [])
]

-- Cut to 200 characters, with the extension kept.
unfoldable pub shorten : List ℕ → List ℕ
shorten trimmed =
    let (stem, ext) = split_extension trimmed in take (max_name_chars - length ext) stem ++ ext

unfoldable pub sanitize_filename : List ℕ → List ℕ
sanitize_filename raw =
    let trimmed = trim (without_forbidden raw) in
    if trimmed == [] || trimmed == codes "." || trimmed == codes ".."
    then codes "received.bin"
    else if ltb max_name_chars (length trimmed)
    then shorten trimmed
    else trimmed

-- `{n}` for a number of at most three digits, which is all that is printed.
unfoldable pub decimal : ℕ → List ℕ
decimal n =
    if ltb n 10
    then (b'0' + n) ∷ []
    else if ltb n 100
    then (b'0' + n / 10) ∷ (b'0' + n % 10) ∷ []
    else (b'0' + n / 100) ∷ (b'0' + n / 10 % 10) ∷ (b'0' + n % 10) ∷ []

-- The stem and the extension for numbering: a leading dot starts no extension.
unfoldable pub split_name : List ℕ → List ℕ × List ℕ
split_name name = elim (rsplit_once b'.' name) [
  | none ↦ (name, [])
  | some (stem, ext) ↦ if stem == [] then (name, []) else (stem, b'.' ∷ ext)
]

-- `{stem} ({n}){ext}` in the folder.
unfoldable pub candidate : FilePath → List ℕ → ℕ → FilePath
candidate dir name n =
    let (stem, ext) = split_name name in
    join dir (stem ++ (codes " (" ++ (decimal n ++ (codes ")" ++ ext))))

-- `for n in 1..=999`, on the rounds left.
unfoldable pub first_free : ℕ → ℕ → Disk → FilePath → List ℕ → Option FilePath
first_free zero n disk dir name = none
first_free (suc left) n disk dir name =
    let rest = first_free left (n + 1) disk dir name in
    if exists_file disk (candidate dir name n) then rest else some (candidate dir name n)

-- `tokio::fs::metadata` fails exactly on a path that is not there.
unfoldable pub unique_dest_path : Disk → FilePath → List ℕ → Option FilePath
unique_dest_path disk dir name =
    if exists_file disk (join dir name)
    then first_free 999 1 disk dir name
    else some (join dir name)
