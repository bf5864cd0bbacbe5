-- ===== src/Relay/Registry/Restart.antt =====
-- relay/src/main.rs: what the registry holds across restarts and crashes of the relay.
use remote_control.Base.{
  ℕ, [], nat_eq, All, ◌≤◌, get-insert, get-remove, option_intro, ◌≡◌, refl, ◌≢◌, ◌⊎◌, inl, inr,
  true, false, List, ◌∷◌, ◌++◌, none, some, ◌==◌, list_eq, get, get-insert_self, get-insert_ne,
  length, length-append, ap, sym, ◌∙◌, ==-refl, arith,
}
use remote_control.Base.Text.{as_bytes, codes}
use remote_control.Crypto.{Crypto}
use remote_control.Files.{Disk, apply, run_ops, Stops}
use remote_control.Files.Atomic.{tmp_rename_atomic, rename_target}
use remote_control.Relay.Registry.{
  HostRecord, Hosts, HostsJson, HostsFile, hosts_path, hosts_tmp, load_hosts_from_disk, persist_ops,
  persist_hosts_to_disk, sha256_hex, RegisterDraws, host_token, add_host, register_resp, Registry,
  start_registry, register_locked, register_persists, RegistryEvent, registers, persists,
  registry_step, run_registry, host_ws_allowed,
}
use remote_control.Trusted.{reads, saves}

hosts_tmp_ne : (f : HostsFile) → hosts_tmp f ≢ hosts_path f
unfolding hosts_tmp
hosts_tmp_ne f e = omega (
  arith,
  ap length e,
  length-append f.dir (b'.' ∷ (f.file_name ++ codes ".tmp")),
  length-append f.dir f.file_name,
  length-append f.file_name (codes ".tmp"),
)

module _ (crypto : Crypto) (json : HostsJson) where
  -- A whole persist leaves the new contents in the file.
  persisted :
      (f : HostsFile) (m : Hosts) (disk : Disk) (bytes : List ℕ)
      → json.to_vec_pretty m ≡ some bytes
      → get (hosts_path f) (persist_hosts_to_disk json f m saves disk) ≡ some bytes
  unfolding persist_hosts_to_disk run_ops apply
  persisted f m disk bytes e =
      rw (e, persist_hosts_to_disk)
        (rename_target _ (hosts_tmp f) (hosts_path f) bytes
          (get-insert_self (hosts_tmp f) bytes disk))

  -- Reading a file that holds the print of a map gives the entries of that map.
  loads_entries :
      (f : HostsFile) (m : Hosts) (disk : Disk) (bytes : List ℕ)
      → json.to_vec_pretty m ≡ some bytes
      → get (hosts_path f) disk ≡ some bytes
      → (id : List ℕ) → get id (load_hosts_from_disk json disk f reads) ≡ get id m
  unfolding load_hosts_from_disk
  loads_entries f m disk bytes e there id =
      let (m', parses, same) = json.parse_back m bytes e in
      rw (there, load_hosts_from_disk) (rw (parses) (same id))

  same_entries :
      (m m' : Hosts) (id token : List ℕ)
      → get id m ≡ get id m'
      → host_ws_allowed crypto m id token ≡ host_ws_allowed crypto m' id token
  unfolding host_ws_allowed
  same_entries m m' id token e = rw (e, host_ws_allowed) refl

  allowed_known :
      (m : Hosts) (id token : List ℕ) (rec : HostRecord)
      → get id m ≡ some rec
      → host_ws_allowed crypto m id token ≡ (rec.token_hash == sha256_hex crypto (as_bytes token))
  unfolding host_ws_allowed
  allowed_known m id token rec e = rw (e, host_ws_allowed) refl

  allowed_unknown :
      (m : Hosts) (id token : List ℕ) → get id m ≡ none → host_ws_allowed crypto m id token ≡ false
  unfolding host_ws_allowed
  allowed_unknown m id token e = rw (e, host_ws_allowed) refl

  abbrev new_record : RegisterDraws → List ℕ → HostRecord
  new_record draws name = record {
    token_hash = sha256_hex crypto (as_bytes (host_token crypto draws));
    name = name;
  }

  -- Who is let in after a registration.
  pub allowed-add_host :
      (draws : RegisterDraws) (name : List ℕ) (hosts : Hosts) (id token : List ℕ)
      → (host_ws_allowed crypto (add_host crypto draws name hosts) draws.host_id token ≡ (
          sha256_hex crypto (as_bytes (host_token crypto draws))
          == sha256_hex crypto (as_bytes token)))
        × (id ≢ draws.host_id
            → host_ws_allowed crypto (add_host crypto draws name hosts) id token
              ≡ host_ws_allowed crypto hosts id token)
  unfolding add_host
  allowed-add_host draws name hosts id token = (
    allowed_known (add_host crypto draws name hosts) draws.host_id token (new_record draws name)
        (get-insert_self draws.host_id (new_record draws name) hosts),
    λ ne.
        same_entries (add_host crypto draws name hosts) hosts id token
          (get-insert_ne draws.host_id id _ hosts (λ e. ne (sym e))),
  )

  abbrev pub registry_run : HostsFile → List RegistryEvent → Registry → Registry
  registry_run f es r = run_registry crypto json f es r

  -- The snapshots are numbered in order.
  abbrev Numbered : Registry → Type 0
  Numbered r = (k : ℕ) → r.taken ≤ k → get k r.snapshots ≡ none

  step-Numbered :
      (f : HostsFile) (e : RegistryEvent) (r : Registry)
      → Numbered r
      → Numbered (registry_step crypto json f e r)
  unfolding registry_step register_locked register_persists
  step-Numbered f (registers draws name) r v = λ k h.
      ground (arith, get-insert r.taken k (add_host crypto draws name r.hosts) r.snapshots, v k)
  step-Numbered f (persists n outcome) r v =
      option_intro Numbered (get n r.snapshots) v
        (λ m e k h. ground (arith, get-remove n k r.snapshots, v k))

  run-Numbered :
      (f : HostsFile) (es : List RegistryEvent) (r : Registry)
      → Numbered r
      → Numbered (registry_run f es r)
  unfolding run_registry
  run-Numbered f [] r v = v
  run-Numbered f (e ∷ es) r v =
      run-Numbered f es (registry_step crypto json f e r) (step-Numbered f e r v)

  -- No registration but its own has the id.
  abbrev pub Other : List ℕ → RegistryEvent → Type 0
  Other id (registers draws name) = draws.host_id ≢ id
  Other id (persists n outcome) = Unit

  -- The map has the entry, and so has every snapshot from number `t` on.
  abbrev Known : List ℕ → HostRecord → ℕ → Registry → Type 0
  Known id rec t r =
      (get id r.hosts ≡ some rec)
      × ((k : ℕ) (m : Hosts) → t ≤ k → get k r.snapshots ≡ some m → get id m ≡ some rec)

  step-Known :
      (f : HostsFile) (id : List ℕ) (rec : HostRecord) (t : ℕ) (e : RegistryEvent) (r : Registry)
      → Other id e
      → Known id rec t r
      → Known id rec t (registry_step crypto json f e r)
  unfolding registry_step register_locked register_persists add_host
  step-Known f id rec t (registers draws name) r o v =
      let there : get id (add_host crypto draws name r.hosts) ≡ some rec =
        get-insert_ne draws.host_id id (new_record draws name) r.hosts o ∙ v.0 in
      (
        there,
        λ k m h e. ground (
          arith,
          there,
          get-insert r.taken k (add_host crypto draws name r.hosts) r.snapshots,
          v.1 k m,
        ),
      )
  step-Known f id rec t (persists n outcome) r o v =
      option_intro (Known id rec t) (get n r.snapshots) v
        (λ s e. (v.0, λ k m h g. v.1 k m h (ground (arith, get-remove n k r.snapshots))))

  run-Known :
      (f : HostsFile) (id : List ℕ) (rec : HostRecord) (t : ℕ) (es : List RegistryEvent)
      (r : Registry)
      → All (Other id) es
      → Known id rec t r
      → Known id rec t (registry_run f es r)
  unfolding run_registry
  run-Known f id rec t [] r o v = v
  run-Known f id rec t (e ∷ es) r o v =
      run-Known f id rec t es (registry_step crypto json f e r) o.1
        (step-Known f id rec t e r o.0 v)

  locked-Known :
      (draws : RegisterDraws) (name : List ℕ) (r : Registry)
      → Numbered r
      → Known draws.host_id (new_record draws name) r.taken (register_locked crypto draws name r)
  unfolding register_locked add_host
  locked-Known draws name r v =
      let there : get draws.host_id (add_host crypto draws name r.hosts)
          ≡ some (new_record draws name) =
        get-insert_self draws.host_id (new_record draws name) r.hosts in
      (
        there,
        λ k m h e. ground (
          arith,
          there,
          get-insert r.taken k (add_host crypto draws name r.hosts) r.snapshots,
          v k h,
        ),
      )

  -- The registry when a registration has taken the lock after one history and another has followed.
  abbrev pub after :
      HostsFile → Disk → List RegistryEvent → RegistryEvent → List RegistryEvent → Registry
  after f disk before e es =
      registry_run f es
        (registry_step crypto json f e (registry_run f before (start_registry json f disk)))

  abbrev pub reloaded : HostsFile → Registry → Hosts
  reloaded f r = load_hosts_from_disk json r.disk f reads

  -- A PC registers after any history of registrations and writes, and any others follow, in any order
  -- and with writes that fail, none of which draws its id. If then a snapshot is written whole that was
  -- taken by this registration or a later one, a relay that restarts from that file lets the PC in with
  -- the id and token of the answer, and decides at every id and token as the map of that snapshot does.
  -- A write is one step here: two writes do not run at the same time.
  pub register_survives_restart :
      (f : HostsFile) (disk : Disk) (before : List RegistryEvent) (draws : RegisterDraws)
      (name : List ℕ) (es : List RegistryEvent) (n : ℕ) (m : Hosts) (bytes : List ℕ)
      → All (Other draws.host_id) es
      → (registry_run f before (start_registry json f disk)).taken ≤ n
      → get n (after f disk before (registers draws name) es).snapshots ≡ some m
      → json.to_vec_pretty m ≡ some bytes
      → (host_ws_allowed crypto
            (reloaded f
              (register_persists json f n saves (after f disk before (registers draws name) es)))
            (register_resp crypto draws).host_id
            (register_resp crypto draws).host_token
          ≡ true)
        × ((id token : List ℕ)
            → host_ws_allowed crypto
                (reloaded f (
                  register_persists json f n saves (after f disk before (registers draws name) es)))
                id
                token
              ≡ host_ws_allowed crypto m id token)
  unfolding register_persists register_resp registry_step get
  register_survives_restart f disk before draws name es n m bytes others later waits e =
      let start = registry_run f before (start_registry json f disk) in
      let numbered : Numbered start = run-Numbered f before _ (λ k h. refl) in
      let known =
        run-Known f draws.host_id (new_record draws name) start.taken es
          (register_locked crypto draws name start) others
          (locked-Known draws name start numbered) in
      let final = after f disk before (registers draws name) es in
      let same : (id token : List ℕ)
          → host_ws_allowed crypto (reloaded f (register_persists json f n saves final)) id token
            ≡ host_ws_allowed crypto m id token =
        λ id token. same_entries _ m id token (
          rw (waits, register_persists)
            (loads_entries f m _ bytes e (persisted f m final.disk bytes e) id)) in
      (
        same draws.host_id (host_token crypto draws)
            ∙ allowed_known m draws.host_id (host_token crypto draws) (new_record draws name)
                (known.1 n m later waits)
            ∙ ==-refl (sha256_hex crypto (as_bytes (host_token crypto draws))),
        same,
      )

  -- Wherever a persist is stopped, the relay that starts next has either the entries that it would have
  -- had without it or those of the new map.
  pub persist_crash_safe :
      (f : HostsFile) (m : Hosts) (disk : Disk) (bytes : List ℕ) {disk' : Disk}
      → json.to_vec_pretty m ≡ some bytes
      → Stops (persist_ops f bytes) disk disk'
      → (load_hosts_from_disk json disk' f reads ≡ load_hosts_from_disk json disk f reads)
        ⊎ ((id : List ℕ) → get id (load_hosts_from_disk json disk' f reads) ≡ get id m)
  unfolding load_hosts_from_disk
  persist_crash_safe f m disk bytes e stops =
      elim (tmp_rename_atomic (hosts_tmp f) (hosts_path f) bytes disk (hosts_tmp_ne f) stops) [
        | inl old ↦ inl (rw (old, load_hosts_from_disk) refl)
        | inr new ↦ inr (loads_entries f m _ bytes e new)
      ]

  -- Two registrations that run at once: the second adds its PC while the first has its snapshot but has
  -- not written it yet, and the first writes last. Then the second PC, which is let in, is not let in
  -- after a restart, by any token, if its id was not known before and the snapshot can be printed.
  pub overtaken_register_lost :
      (f : HostsFile) (first second : RegisterDraws) (name1 name2 : List ℕ) (hosts : Hosts)
      (disk : Disk) (bytes : List ℕ)
      → first.host_id ≢ second.host_id
      → get second.host_id hosts ≡ none
      → json.to_vec_pretty (add_host crypto first name1 hosts) ≡ some bytes
      → (host_ws_allowed crypto
            (add_host crypto second name2 (add_host crypto first name1 hosts))
            second.host_id
            (host_token crypto second)
          ≡ true)
        × ((token : List ℕ)
            → host_ws_allowed crypto
                (load_hosts_from_disk json
                  (persist_hosts_to_disk json f (add_host crypto first name1 hosts) saves (
                    persist_hosts_to_disk json f
                      (add_host crypto second name2 (add_host crypto first name1 hosts))
                      saves
                      disk))
                  f
                  reads)
                second.host_id
                token
              ≡ false)
  unfolding add_host
  overtaken_register_lost f first second name1 name2 hosts disk bytes ne fresh e =
      let m : Hosts = add_host crypto first name1 hosts in
      let late : Disk = persist_hosts_to_disk json f (add_host crypto second name2 m) saves disk in
      (
        (allowed-add_host second name2 m second.host_id (host_token crypto second)).0
            ∙ ==-refl (sha256_hex crypto (as_bytes (host_token crypto second))),
        λ token. allowed_unknown _ second.host_id token (
            loads_entries f m _ bytes e (persisted f m late bytes e) second.host_id
            ∙ get-insert_ne first.host_id second.host_id (new_record first name1) hosts ne
            ∙ fresh),
      )
