-- ===== src/Trusted/Persist.antt =====
-- server-pc/src/trusted_devices.rs: what the file holds, across restarts and crashes.
use remote_control.Base.{
  ℕ, ◌≡◌, ◌≢◌, ◌⊎◌, inl, inr, true, false, List, [], ◌∷◌, ◌++◌, none, some, ◌==◌, list_eq,
  if◌then◌else◌, arith, Option-cases, Bool-cases, get, get-insert_self, length, length-append, ap,
  sym, ◌∙◌,
}
use remote_control.Base.Text.{codes, rsplit_once_cases, contains}
use remote_control.Crypto.{Crypto}
use remote_control.Files.{Disk, join, apply, run_ops, Stops}
use remote_control.Files.Atomic.{tmp_rename_atomic_unsynced, rename_target}
use remote_control.Trusted.{
  Json, TrustedDevicesStore, SaveOutcome, saves, save, save_ops, mint, MintDraws, with_extension,
  path, tmp_path, current_schema, load_file, reads, open_store, verify, accepted, find_device,
  push_device, minted_device,
}
use remote_control.Trusted.Verify.{verify-mint}

-- Appending on the left is injective.
append_cancel : (xs : List ℕ) {ys zs : List ℕ} → xs ++ ys ≡ xs ++ zs → ys ≡ zs
append_cancel [] e = e
append_cancel (x ∷ xs) e = append_cancel xs (cc)

longer : (xs : List ℕ) (y : ℕ) (ys : List ℕ) → xs ++ (y ∷ ys) ≢ xs
longer xs y ys e = omega (arith, ap length e, length-append xs (y ∷ ys))

with_extension_ne : (name : List ℕ) → with_extension name (codes "json.tmp") ≢ name
unfolding with_extension contains
with_extension_ne name e = elim (rsplit_once_cases b'.' name) [
  | inl (none_there, _) ↦ longer name b'.' (codes "json.tmp") (rw (none_there, with_extension) at e)
  | inr (a, b, split, whole, last) ↦
      by_stem a b whole last (Bool-cases (a == [])) (rw (split, with_extension) at e)
]
  where
    by_stem :
        (a b : List ℕ)
        → name ≡ a ++ (b'.' ∷ b)
        → contains b'.' b ≡ false
        → ((a == []) ≡ true) ⊎ ((a == []) ≡ false)
        → (if a == [] then name ++ (b'.' ∷ codes "json.tmp") else a ++ (b'.' ∷ codes "json.tmp"))
          ≡ name
        → ⊥
    by_stem a b whole last (inl y) p = longer name b'.' (codes "json.tmp") (rw y at p)
    by_stem a b whole last (inr n) p =
        let same : b ≡ codes "json.tmp" =
          ground (arith, append_cancel a (sym whole ∙ sym (rw n at p))) in
        cc (rw same at last)

-- The temporary file is never the file itself.
tmp_path-ne-path : (store : TrustedDevicesStore) → tmp_path store ≢ path store
unfolding join
tmp_path-ne-path store e =
    with_extension_ne store.file_name (ground (arith, append_cancel store.dir e))

module _ (json : Json) where
  -- Wherever a save is stopped, by a crash or an error, the file holds what it held before or the
  -- whole of the new contents.
  pub save_crash_safe :
      (store : TrustedDevicesStore) (bytes : List ℕ) (disk : Disk) {disk' : Disk}
      → Stops (save_ops store bytes) disk disk'
      → (get (path store) disk' ≡ get (path store) disk) ⊎ (get (path store) disk' ≡ some bytes)
  save_crash_safe store bytes disk s =
      tmp_rename_atomic_unsynced (tmp_path store) (path store) bytes disk (tmp_path-ne-path store) s

  -- A save that returns `Ok` has put the store's contents into the file.
  pub save_writes :
      (store : TrustedDevicesStore) (o : SaveOutcome) (disk : Disk)
      → (save json store o disk).1 ≡ true
      → (bytes : List ℕ) × (json.to_vec store.inner ≡ some bytes)
        × (get (path store) (save json store o disk).0 ≡ some bytes)
  unfolding save run_ops apply
  save_writes store o disk h = elim (Option-cases (json.to_vec store.inner)) [
    | inl e ↦ cc (rw (e, save) at h)
    | inr (bytes, e) ↦ (bytes, e, by_outcome bytes e o h)
  ]
    where
      by_outcome :
          (bytes : List ℕ)
          → json.to_vec store.inner ≡ some bytes
          → (o : SaveOutcome) → (save json store o disk).1 ≡ true
          → get (path store) (save json store o disk).0 ≡ some bytes
      by_outcome bytes e saves k =
          rw (e, save)
            (rename_target _ (tmp_path store) (path store) bytes
              (get-insert_self (tmp_path store) bytes disk))
      by_outcome bytes e _ k = ground (arith, e)

  -- A store that is opened after a save that returned `Ok` holds the devices that were saved.
  pub open_store-save :
      (store : TrustedDevicesStore) (o : SaveOutcome) (disk : Disk)
      → store.inner.schema ≡ current_schema
      → (save json store o disk).1 ≡ true
      → open_store json (save json store o disk).0 store.dir store.file_name true reads ≡ some store
  unfolding open_store load_file
  open_store-save store o disk current h =
      let (bytes, e, written) = save_writes store o disk h in
      rw (written, load_file) (rw (json.parse_back store.inner bytes e, load_file) (ground arith))

  -- `mint` returns an id and a token only after the file is written.
  mint_returns :
      (crypto : Crypto) (store : TrustedDevicesStore) (disk : Disk) (name : List ℕ)
      (draws : MintDraws) (o : SaveOutcome) {id token : List ℕ}
      → (mint crypto json store disk name draws o).2 ≡ some (id, token)
      → ((save json (push_device store (minted_device crypto draws name)) o disk).1 ≡ true)
        × (id ≡ draws.device_id)
        × (token ≡ crypto.base64_encode draws.token_bytes)
  unfolding mint
  mint_returns crypto store disk name draws o e = ground arith

  -- A phone that pairs under a fresh id with a store of the current schema, and is handed its id and
  -- token, is let in with these after a restart of the server: by the store that is then opened from
  -- the file, if its folder and the file can be read.
  pub verify-open_store-mint :
      (crypto : Crypto) (store : TrustedDevicesStore) (disk : Disk) (name : List ℕ)
      (draws : MintDraws) (o : SaveOutcome) {id token : List ℕ}
      → store.inner.schema ≡ current_schema
      → find_device draws.device_id store.inner.devices ≡ none
      → (mint crypto json store disk name draws o).2 ≡ some (id, token)
      → (store' : TrustedDevicesStore) × (open_store json
            (mint crypto json store disk name draws o).1
            store.dir
            store.file_name
            true
            reads
          ≡ some store')
        × ((disk' : Disk) (now : ℕ) (o' : SaveOutcome)
            → (verify crypto json store' disk' id token now o').2 ≡ accepted name)
  unfolding mint
  verify-open_store-mint crypto store disk name draws o {id} {token} current fresh minted =
      let store' : TrustedDevicesStore = push_device store (minted_device crypto draws name) in
      let (done, same_id, same_token) = mint_returns crypto store disk name draws o minted in
      (
        store',
        open_store-save store' o disk current done,
        λ disk' now o'.
            rw (same_id, same_token)
              (verify-mint crypto json store disk name draws o disk' now o' fresh).0,
      )
