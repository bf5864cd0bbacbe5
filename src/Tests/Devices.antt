-- ===== src/Tests/Devices.antt =====
-- The trusted devices at concrete inputs, with a plain format in the place of serde_json.
use remote_control.Base.{
  ℕ, zero, suc, ◌≡◌, refl, ◌⊎◌, true, List, [], ◌∷◌, ◌++◌, Option, some, none, length, take, drop,
  take-append, drop-append, get, list_eq, subst, insert, remove,
}
use remote_control.Crypto.{plain_crypto}
use remote_control.Files.{cut, Disk}
use remote_control.Trusted.{
  TrustedDevice, DevicesFile, Json, TrustedDevicesStore, saves, save, mint, MintDraws, open_store,
  reads, SaveOutcome, path, tmp_path, verify, accepted, find_device,
}
use remote_control.Trusted.Persist.{save_crash_safe, verify-open_store-mint}

abbrev pub write_devices : List TrustedDevice → List ℕ
write_devices [] = []
write_devices (d ∷ ds) =
    d.created_unix_ms
    ∷ d.last_seen_unix_ms
    ∷ length d.device_id
    ∷ length d.token_hash
    ∷ length d.device_name
    ∷ (d.device_id ++ (d.token_hash ++ (d.device_name ++ write_devices ds)))

abbrev pub read_devices : ℕ → List ℕ → List TrustedDevice
read_devices zero s = []
read_devices (suc n) (c ∷ l ∷ i ∷ h ∷ m ∷ s) =
    record {
      device_id = take i s;
      token_hash = take h (drop i s);
      device_name = take m (drop h (drop i s));
      created_unix_ms = c;
      last_seen_unix_ms = l;
    }
    ∷ read_devices n (drop m (drop h (drop i s)))
read_devices (suc n) _ = []

abbrev pub read_file : List ℕ → Option DevicesFile
read_file (schema ∷ n ∷ s) = some (record { schema = schema; devices = read_devices n s })
read_file _ = none

read_devices-write_devices :
    (ds : List TrustedDevice) → read_devices (length ds) (write_devices ds) ≡ ds
read_devices-write_devices [] = refl
read_devices-write_devices (d ∷ ds) =
    let names : List ℕ = d.device_name ++ write_devices ds in
    rw
      (
        take-append d.device_id (d.token_hash ++ names) (length d.device_id) refl,
        drop-append d.device_id (d.token_hash ++ names) (length d.device_id) refl,
        take-append d.token_hash names (length d.token_hash) refl,
        drop-append d.token_hash names (length d.token_hash) refl,
        take-append d.device_name (write_devices ds) (length d.device_name) refl,
        drop-append d.device_name (write_devices ds) (length d.device_name) refl,
        read_devices-write_devices ds,
      )
      refl

unfoldable pub written : DevicesFile → List ℕ
written f = f.schema ∷ length f.devices ∷ write_devices f.devices

pub read_file-written :
    (f : DevicesFile) (bytes : List ℕ) → some (written f) ≡ some bytes → read_file bytes ≡ some f
unfolding written
read_file-written f bytes e =
    let same : written f ≡ bytes = cc in
    subst (λ b. read_file b ≡ some f) same (rw (read_devices-write_devices f.devices) refl)

abbrev pub plain_json : Json
plain_json = record {
  to_vec = λ f. some (written f);
  from_slice = read_file;
  parse_back = read_file-written;
}

abbrev pub empty_store : TrustedDevicesStore
empty_store = record {
  dir = b'd' ∷ [];
  file_name = b't' ∷ [];
  inner = record { schema = 1; devices = [] };
}

abbrev pub draws : MintDraws
draws = record { token_bytes = 1 ∷ 2 ∷ []; device_id = 7 ∷ []; now_ms = 5 }

abbrev phone : List ℕ
phone = b'p' ∷ []

verify-open_store-mint_example :
    (store' : TrustedDevicesStore) × (open_store plain_json
        (mint plain_crypto plain_json empty_store [] phone draws saves).1
        empty_store.dir
        empty_store.file_name
        true
        reads
      ≡ some store')
    × ((disk' : Disk) (now : ℕ) (o' : SaveOutcome)
        → (verify plain_crypto plain_json store' disk' (7 ∷ []) (1 ∷ 2 ∷ []) now o').2
          ≡ accepted phone)
unfolding find_device mint save
verify-open_store-mint_example =
    verify-open_store-mint plain_json plain_crypto empty_store [] phone draws saves refl refl refl

abbrev no_files : Disk
no_files = []

abbrev half_written : Disk
half_written = (tmp_path empty_store, 1 ∷ []) ∷ []

save_crash_safe_example :
    (get (path empty_store) half_written ≡ get (path empty_store) no_files)
    ⊎ (get (path empty_store) half_written ≡ some (1 ∷ 2 ∷ 3 ∷ []))
unfolding insert remove
save_crash_safe_example =
    save_crash_safe plain_json empty_store (1 ∷ 2 ∷ 3 ∷ []) no_files
      (cut (tmp_path empty_store) (1 ∷ 2 ∷ 3 ∷ []) _ no_files 1)
