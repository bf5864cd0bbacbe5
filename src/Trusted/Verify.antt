-- ===== src/Trusted/Verify.antt =====
-- server-pc/src/trusted_devices.rs: who is let in by `verify`.
use mathlib.Core.Option
use remote_control.Base.{
  ℕ, ◌≡◌, refl, ◌≢◌, ◌⊎◌, inl, inr, List, [], ◌∷◌, ◌++◌, none, some, ◌==◌, list_eq, list_beq_iff,
  if◌then◌else◌, arith, Option-cases, Bool-cases, sym, ==-refl, ==_false, ==_ne,
}
use remote_control.Base.Text.{as_bytes}
use remote_control.Crypto.{Crypto}
use remote_control.Files.{Disk}
use remote_control.Trusted.{
  TrustedDevice, Json, TrustedDevicesStore, sha256_hex, SaveOutcome, mint, MintDraws, accepted,
  unknown_device, bad_token, find_device, touch, verify, minted_device,
}

-- What a lookup finds after the time of a visit is written: the same device, with that time.
find_device-touch :
    (i j : List ℕ) (now : ℕ) (ds : List TrustedDevice)
    → find_device j (touch i now ds) ≡ elim (find_device j ds) [
      | none ↦ none
      | some d ↦ some (if i == j then record d { last_seen_unix_ms = now } else d)
    ]
unfolding find_device touch
find_device-touch i j now [] = refl
find_device-touch i j now (d ∷ ds) = ground (
  arith,
  list_beq_iff d.device_id i,
  list_beq_iff d.device_id j,
  list_beq_iff i j,
  find_device-touch i j now ds,
)

find_device-push :
    (j : List ℕ) (dev : TrustedDevice) (ds : List TrustedDevice)
    → find_device j (ds ++ (dev ∷ [])) ≡ elim (find_device j ds) [
      | some d ↦ some d
      | none ↦ if dev.device_id == j then some dev else none
    ]
unfolding find_device
find_device-push j dev [] = refl
find_device-push j dev (d ∷ ds) =
    ground
      (arith, list_beq_iff d.device_id j, list_beq_iff dev.device_id j, find_device-push j dev ds)

-- What decides whether a device is let in, and as whom.
unfoldable credentials : TrustedDevice → List ℕ × List ℕ
credentials d = (d.token_hash, d.device_name)

module _ (crypto : Crypto) (json : Json) where
  -- The three outcomes, each exactly under its condition: the device is found and its stored hash is
  -- that of the token; it is found and the hash differs; it is not found.
  pub verify_outcome :
      (store : TrustedDevicesStore) (disk : Disk) (id token : List ℕ) (now : ℕ) (o : SaveOutcome)
      → ((find_device id store.inner.devices ≡ none)
          × ((verify crypto json store disk id token now o).2 ≡ unknown_device))
        ⊎ ((dev : TrustedDevice) × (find_device id store.inner.devices ≡ some dev)
            × (dev.token_hash ≡ sha256_hex crypto (as_bytes token))
            × ((verify crypto json store disk id token now o).2 ≡ accepted dev.device_name))
        ⊎ ((dev : TrustedDevice) × (find_device id store.inner.devices ≡ some dev)
            × (dev.token_hash ≢ sha256_hex crypto (as_bytes token))
            × ((verify crypto json store disk id token now o).2 ≡ bad_token))
  unfolding verify
  verify_outcome store disk id token now o =
      elim (Option-cases (find_device id store.inner.devices)) [
        | inl e ↦ inl (e, rw (e, verify))
        | inr (dev, e) ↦ elim (Bool-cases (dev.token_hash == sha256_hex crypto (as_bytes token))) [
          | inl h ↦ inr (inl (dev, e, (list_beq_iff _ _).0 h, rw (e, verify) (rw h)))
          | inr h ↦ inr (inr (dev, e, ==_false _ _ h, rw (e, verify) (rw h)))
        ]
      ]

  -- An attempt that is turned away leaves the store and the disk as they were.
  pub verify_refusal_unchanged :
      (store : TrustedDevicesStore) (disk : Disk) (id token : List ℕ) (now : ℕ) (o : SaveOutcome)
      → ((name : List ℕ) → (verify crypto json store disk id token now o).2 ≢ accepted name)
      → ((verify crypto json store disk id token now o).0 ≡ store)
        × ((verify crypto json store disk id token now o).1 ≡ disk)
  unfolding verify
  verify_refusal_unchanged store disk id token now o ne =
      elim (verify_outcome store disk id token now o) [
        | inl (e, r) ↦ (rw (e, verify), rw (e, verify))
        | inr (inl (dev, e, h, r)) ↦ absurd (ne dev.device_name r)
        | inr (inr (dev, e, h, r)) ↦
            (rw (e, verify) (rw (==_ne _ _ h)), rw (e, verify) (rw (==_ne _ _ h)))
      ]

  -- The devices after `verify`, whatever it answers: every lookup finds the device it found before,
  -- with the same name and token hash, or nothing if it found nothing.
  verify_keeps_credentials :
      (store : TrustedDevicesStore) (disk : Disk) (id token : List ℕ) (now : ℕ) (o : SaveOutcome)
      (j : List ℕ)
      → Option.map credentials
          (find_device j (verify crypto json store disk id token now o).0.inner.devices)
        ≡ Option.map credentials (find_device j store.inner.devices)
  unfolding verify credentials
  verify_keeps_credentials store disk id token now o j =
      ground (arith, find_device-touch id j now store.inner.devices)

  -- A device that `mint` adds under a fresh id is let in with the token that `mint` returned, by the
  -- name it was added with, whether or not the file could be written; every other token whose hash
  -- differs is refused, and the other devices are found as before.
  pub verify-mint :
      (store : TrustedDevicesStore) (disk : Disk) (name : List ℕ) (draws : MintDraws)
      (o : SaveOutcome) (disk' : Disk) (now : ℕ) (o' : SaveOutcome)
      → find_device draws.device_id store.inner.devices ≡ none
      → let store' = (mint crypto json store disk name draws o).0 in
        ((verify crypto json store' disk' draws.device_id
            (crypto.base64_encode draws.token_bytes)
            now
            o').2
          ≡ accepted name)
        × ((token : List ℕ)
            → sha256_hex crypto (as_bytes token)
              ≢ sha256_hex crypto (as_bytes (crypto.base64_encode draws.token_bytes))
            → (verify crypto json store' disk' draws.device_id token now o').2 ≡ bad_token)
        × ((j : List ℕ)
            → j ≢ draws.device_id
            → find_device j store'.inner.devices ≡ find_device j store.inner.devices)
  unfolding mint verify
  verify-mint store disk name draws o disk' now o' fresh = (
    rw (found, verify) (rw (==-refl hash)),
    (λ token ne.
        rw (found, verify)
          (rw (==_ne hash (sha256_hex crypto (as_bytes token)) (λ e. ne (sym e))))),
    (λ j ne.
        ground (arith, find_device-push j dev store.inner.devices, list_beq_iff draws.device_id j)),
  )
    where
      hash : List ℕ
      hash = sha256_hex crypto (as_bytes (crypto.base64_encode draws.token_bytes))

      dev : TrustedDevice
      dev = minted_device crypto draws name

      found : find_device draws.device_id (store.inner.devices ++ (dev ∷ [])) ≡ some dev
      found = rw (find_device-push, fresh) (rw (==-refl draws.device_id))
