-- ===== src/Relay/Registry.antt =====
-- relay/src/main.rs: the registry of PCs, in memory and on disk. The name of the hosts file is kept as
-- its folder, with the separator, and the file's own name.
pub mod Restart
use remote_control.Base.{
  ℕ, suc, remove, nat_eq, ◌≡◌, Bool, true, false, List, [], ◌∷◌, ◌++◌, Option, none, some, ◌==◌,
  list_eq, Map, get, insert, take,
}
use remote_control.Base.Text.{as_bytes, codes}
use remote_control.Crypto.{Crypto}
use remote_control.Files.{FilePath, Disk, Op, write, move, sync, run_ops}
use remote_control.Hex.{hex_encode}
use remote_control.Trusted.{
  ReadOutcome, reads, read_fails, SaveOutcome, saves, write_fails, rename_fails,
}

pub record HostRecord : Type 0 where
  pub token_hash : List ℕ
  pub name : List ℕ

abbrev pub Hosts : Type 0
Hosts = Map (List ℕ) HostRecord

-- serde_json on the map. A `HashMap` is written in no particular order, so what is read back has the
-- same entries, and not more.
pub record HostsJson : Type 0 where
  pub to_vec_pretty : Hosts → Option (List ℕ)
  pub from_slice : List ℕ → Option Hosts
  pub parse_back :
      (m : Hosts) (bytes : List ℕ)
      → to_vec_pretty m ≡ some bytes
      → (m' : Hosts) × (from_slice bytes ≡ some m') × ((id : List ℕ) → get id m' ≡ get id m)

pub record HostsFile : Type 0 where
  pub dir : FilePath
  pub file_name : List ℕ

abbrev pub hosts_path : HostsFile → FilePath
hosts_path f = f.dir ++ f.file_name

-- `.{name}.tmp` in the same folder.
unfoldable pub hosts_tmp : HostsFile → FilePath
hosts_tmp f = f.dir ++ (b'.' ∷ (f.file_name ++ codes ".tmp"))

-- Empty where the file is missing, cannot be read, or does not parse.
unfoldable pub load_hosts_from_disk : HostsJson → Disk → HostsFile → ReadOutcome → Hosts
load_hosts_from_disk json disk f read_fails = []
load_hosts_from_disk json disk f reads = elim (get (hosts_path f) disk) [
  | none ↦ []
  | some bytes ↦ elim (json.from_slice bytes) [ none ↦ [] | some m ↦ m ]
]

abbrev pub persist_ops : HostsFile → List ℕ → List Op
persist_ops f bytes =
    write (hosts_tmp f) bytes ∷ sync (hosts_tmp f) ∷ move (hosts_tmp f) (hosts_path f) ∷ []

-- Errors are only logged; the `sync` is tried and its result ignored.
unfoldable pub persist_hosts_to_disk : HostsJson → HostsFile → Hosts → SaveOutcome → Disk → Disk
persist_hosts_to_disk json f snapshot outcome disk = elim (json.to_vec_pretty snapshot) [
  | none ↦ disk
  | some bytes ↦ elim outcome [
    | saves ↦ run_ops (persist_ops f bytes) disk
    | write_fails n ↦ insert (hosts_tmp f) (take n bytes) disk
    | rename_fails ↦ run_ops (write (hosts_tmp f) bytes ∷ sync (hosts_tmp f) ∷ []) disk
  ]
]

unfoldable pub sha256_hex : Crypto → List ℕ → List ℕ
sha256_hex crypto input = hex_encode (crypto.sha256 input)

-- What `host_register` draws: 32 random bytes and a fresh UUID.
pub record RegisterDraws : Type 0 where
  pub token_bytes : List ℕ
  pub host_id : List ℕ

abbrev pub host_token : Crypto → RegisterDraws → List ℕ
host_token crypto draws = crypto.base64_encode draws.token_bytes

-- The part of `host_register` under the lock: the map after it, which is also the snapshot.
unfoldable pub add_host : Crypto → RegisterDraws → List ℕ → Hosts → Hosts
add_host crypto draws name hosts =
    insert draws.host_id
      (record { token_hash = sha256_hex crypto (as_bytes (host_token crypto draws)); name = name })
      hosts

pub record RegisterResp : Type 0 where
  pub host_id : List ℕ
  pub host_token : List ℕ

-- The answer, which does not depend on how the file was written.
unfoldable pub register_resp : Crypto → RegisterDraws → RegisterResp
register_resp crypto draws = record {
  host_id = draws.host_id;
  host_token = host_token crypto draws;
}

-- The map, the disk, and the snapshots that were taken under the lock and are not written yet, each under
-- the number in which it was taken.
pub record Registry : Type 0 where
  pub hosts : Hosts
  pub disk : Disk
  pub snapshots : Map ℕ Hosts
  pub taken : ℕ

-- The start of the relay.
abbrev pub start_registry : HostsJson → HostsFile → Disk → Registry
start_registry json f disk = record {
  hosts = load_hosts_from_disk json disk f reads;
  disk = disk;
  snapshots = [];
  taken = 0;
}

-- `host_register` while it holds the lock.
unfoldable pub register_locked : Crypto → RegisterDraws → List ℕ → Registry → Registry
register_locked crypto draws name r =
    let snapshot = add_host crypto draws name r.hosts in
    record r {
      hosts = snapshot;
      snapshots = insert r.taken snapshot r.snapshots;
      taken = suc r.taken;
    }

-- `host_register` after it, when other registrations may have come between. The write of one snapshot is
-- one step.
unfoldable pub register_persists : HostsJson → HostsFile → ℕ → SaveOutcome → Registry → Registry
register_persists json f n outcome r = elim (get n r.snapshots) [
  | none ↦ r
  | some snapshot ↦ record r {
    disk = persist_hosts_to_disk json f snapshot outcome r.disk;
    snapshots = remove n r.snapshots;
  }
]

pub data RegistryEvent : Type 0 where
  registers : RegisterDraws → List ℕ → RegistryEvent
  persists : ℕ → SaveOutcome → RegistryEvent

unfoldable pub registry_step : Crypto → HostsJson → HostsFile → RegistryEvent → Registry → Registry
registry_step crypto json f (registers draws name) r = register_locked crypto draws name r
registry_step crypto json f (persists n outcome) r = register_persists json f n outcome r

unfoldable pub run_registry :
    Crypto → HostsJson → HostsFile → List RegistryEvent → Registry → Registry
run_registry crypto json f [] r = r
run_registry crypto json f (e ∷ es) r =
    run_registry crypto json f es (registry_step crypto json f e r)

-- The test of `host_ws` before the upgrade; 401 where it fails.
unfoldable pub host_ws_allowed : Crypto → Hosts → List ℕ → List ℕ → Bool
host_ws_allowed crypto hosts host_id token = elim (get host_id hosts) [
  | none ↦ false
  | some rec ↦ rec.token_hash == sha256_hex crypto (as_bytes token)
]
