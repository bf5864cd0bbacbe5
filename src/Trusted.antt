-- ===== src/Trusted.antt =====
-- server-pc/src/trusted_devices.rs: the store of trusted devices, in memory and on disk. SHA-256,
-- base64 and JSON are parameters; a fresh UUID, random bytes, the clock and the outcome of each file
-- operation are arguments.
pub mod Verify
pub mod Persist
use remote_control.Base.{
  ℕ, ◌≡◌, Bool, true, false, List, [], ◌∷◌, ◌++◌, Option, none, some, not, ◌==◌, nat_eq, list_eq,
  Eq, get, if◌then◌else◌, reverse, take, insert,
}
use remote_control.Base.Text.{as_bytes, codes, rsplit_once}
use remote_control.Crypto.{Crypto}
use remote_control.Files.{FilePath, Disk, join, rename, Op, write, move, sync, run_ops}
use remote_control.Hex.{hex_encode}

pub record TrustedDevice : Type 0 where
  pub device_id : List ℕ
  pub token_hash : List ℕ
  pub device_name : List ℕ
  pub created_unix_ms : ℕ
  pub last_seen_unix_ms : ℕ

pub record DevicesFile : Type 0 where
  pub schema : ℕ
  pub devices : List TrustedDevice

abbrev pub current_schema : ℕ
current_schema = 1

-- serde_json on this type: what is serialized is parsed back.
pub record Json : Type 0 where
  pub to_vec : DevicesFile → Option (List ℕ)
  pub from_slice : List ℕ → Option DevicesFile
  pub parse_back :
      (f : DevicesFile) (bytes : List ℕ) → to_vec f ≡ some bytes → from_slice bytes ≡ some f

-- The path is kept as its folder and its file name.
pub record TrustedDevicesStore : Type 0 where
  pub dir : FilePath
  pub file_name : List ℕ
  pub inner : DevicesFile

abbrev pub path : TrustedDevicesStore → FilePath
path store = join store.dir store.file_name

-- `Path::with_extension`: the file stem is the name up to its last dot, if that is not the first
-- character.
unfoldable pub with_extension : List ℕ → List ℕ → List ℕ
with_extension name ext = elim (rsplit_once b'.' name) [
  | none ↦ name ++ (b'.' ∷ ext)
  | some (stem, _) ↦ if stem == [] then name ++ (b'.' ∷ ext) else stem ++ (b'.' ∷ ext)
]

abbrev pub tmp_path : TrustedDevicesStore → FilePath
tmp_path store = join store.dir (with_extension store.file_name (codes "json.tmp"))

unfoldable pub default_file : DevicesFile
default_file = record { schema = 0; devices = [] }

-- What `fs::read` met: no error, or one that is not `NotFound`.
pub data ReadOutcome : Type 0 where
  reads read_fails : ReadOutcome

-- The file's devices if it is there, can be read and parsed, and has the current schema.
unfoldable pub load_file : Json → Disk → FilePath → ReadOutcome → DevicesFile
load_file json disk p read_fails = default_file
load_file json disk p reads = elim (get p disk) [
  | none ↦ default_file
  | some bytes ↦ elim (json.from_slice bytes) [
    | none ↦ default_file
    | some f ↦ if f.schema == current_schema then f else default_file
  ]
]

-- `none` where the folder cannot be made.
unfoldable pub open_store :
    Json → Disk → FilePath → List ℕ → Bool → ReadOutcome → Option TrustedDevicesStore
open_store json disk dir file_name dir_made outcome =
    if dir_made
    then some (record {
      dir = dir;
      file_name = file_name;
      inner = record {
        schema = current_schema;
        devices = (load_file json disk (join dir file_name) outcome).devices;
      };
    })
    else none

unfoldable pub sha256_hex : Crypto → List ℕ → List ℕ
sha256_hex crypto input = hex_encode (crypto.sha256 input)

-- How a save went: both operations done, the write cut after some bytes, or the rename refused.
pub data SaveOutcome : Type 0 where
  saves : SaveOutcome
  write_fails : ℕ → SaveOutcome
  rename_fails : SaveOutcome

abbrev pub save_ops : TrustedDevicesStore → List ℕ → List Op
save_ops store bytes = write (tmp_path store) bytes ∷ move (tmp_path store) (path store) ∷ []

-- The disk after `save`, and whether it returned `Ok`.
unfoldable pub save : Json → TrustedDevicesStore → SaveOutcome → Disk → Disk × Bool
save json store outcome disk = elim (json.to_vec store.inner) [
  | none ↦ (disk, false)
  | some bytes ↦ elim outcome [
    | saves ↦ (run_ops (save_ops store bytes) disk, true)
    | write_fails n ↦ (insert (tmp_path store) (take n bytes) disk, false)
    | rename_fails ↦ (run_ops (write (tmp_path store) bytes ∷ []) disk, false)
  ]
]

-- The store, the disk, and the id and token that `mint` returned, or `none` for `Err`.
abbrev pub Minted : Type 0
Minted = TrustedDevicesStore × Disk × Option (List ℕ × List ℕ)

-- What `mint` draws: 32 random bytes, a fresh UUID and the time.
pub record MintDraws : Type 0 where
  pub token_bytes : List ℕ
  pub device_id : List ℕ
  pub now_ms : ℕ

abbrev pub push_device : TrustedDevicesStore → TrustedDevice → TrustedDevicesStore
push_device store dev = record store {
  inner = record { schema = store.inner.schema; devices = store.inner.devices ++ (dev ∷ []) };
}

abbrev pub minted_device : Crypto → MintDraws → List ℕ → TrustedDevice
minted_device crypto draws device_name = record {
  device_id = draws.device_id;
  token_hash = sha256_hex crypto (as_bytes (crypto.base64_encode draws.token_bytes));
  device_name = device_name;
  created_unix_ms = draws.now_ms;
  last_seen_unix_ms = draws.now_ms;
}

unfoldable pub mint :
    Crypto → Json → TrustedDevicesStore → Disk → List ℕ → MintDraws → SaveOutcome → Minted
mint crypto json store disk device_name draws outcome =
    let store' = push_device store (minted_device crypto draws device_name) in
    let saved = save json store' outcome disk in
    (
      store',
      saved.0,
      (if saved.1 then some (draws.device_id, crypto.base64_encode draws.token_bytes) else none),
    )

pub data VerifyOutcome : Type 0 where
  accepted : List ℕ → VerifyOutcome
  unknown_device bad_token : VerifyOutcome

-- `devices.iter_mut().find(…)`.
unfoldable pub find_device : List ℕ → List TrustedDevice → Option TrustedDevice
find_device id [] = none
find_device id (d ∷ ds) = if d.device_id == id then some d else find_device id ds

-- The device that was found, with the time of this visit.
unfoldable pub touch : List ℕ → ℕ → List TrustedDevice → List TrustedDevice
touch id now_ms [] = []
touch id now_ms (d ∷ ds) =
    if d.device_id == id
    then record d { last_seen_unix_ms = now_ms } ∷ ds
    else d ∷ touch id now_ms ds

abbrev pub touch_store : TrustedDevicesStore → List ℕ → ℕ → TrustedDevicesStore
touch_store store id now_ms = record store {
  inner = record { schema = store.inner.schema; devices = touch id now_ms store.inner.devices };
}

-- A save that fails is only logged.
unfoldable pub verify :
    Crypto
    → Json
    → TrustedDevicesStore
    → Disk
    → List ℕ
    → List ℕ
    → ℕ
    → SaveOutcome
    → TrustedDevicesStore × Disk × VerifyOutcome
verify crypto json store disk device_id token now_ms outcome =
    elim (find_device device_id store.inner.devices) [
      | none ↦ (store, disk, unknown_device)
      | some dev ↦
          if not (dev.token_hash == sha256_hex crypto (as_bytes token))
          then (store, disk, bad_token)
          else (
            touch_store store device_id now_ms,
            (save json (touch_store store device_id now_ms) outcome disk).0,
            accepted dev.device_name,
          )
    ]
