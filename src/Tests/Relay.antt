-- ===== src/Tests/Relay.antt =====
-- The relay's state at concrete inputs, with a plain format in the place of serde_json.
use remote_control.Base.{
  ℕ, zero, suc, ◌≡◌, refl, true, false, List, [], ◌∷◌, ◌++◌, some, none, length, take, drop,
  take-append, drop-append, get, list_eq, nat_eq, insert, remove, list_beq, ==_false, subst, Option,
  ◌↔◌, arith,
}
use remote_control.Base.Text.{codes, contains}
use remote_control.Crypto.{plain_crypto}
use remote_control.Relay.Hub.{new_hub, Phone, new_loop, serving, with_loop, with_phone}
use remote_control.Relay.Hub.Client.{new_phone, in_phase, phone_enters, phone_opens, open_client}
use remote_control.Trusted.{saves, reads}
use remote_control.Relay.Hub.History.{
  Event, draws, displaces, enters, leaves, message, client_enters, client_opens, run, step, task,
  host_task, client_task,
}
use remote_control.Relay.Hub.Host.{
  binary, host_end, host_draws, host_enters, host_leaves, clean_up, still_ours, host_message,
  at_select, on_host_msg, end_reader, displace, host_displaces, without,
}
use remote_control.Relay.Hub.Isolation.{isolation}
use remote_control.Relay.Hub.Newest.{Newest}
use remote_control.Relay.Hub.Online.{online_iff_newest}
use remote_control.Relay.Pipe.{PhoneOut, new_pipe}
use remote_control.Relay.Pipe.History.{routes, pings, writes, kept, shown, accepted}
use remote_control.Relay.Pipe.History.{Event as PipeEvent, run as run_pipe}
use remote_control.Relay.Pipe.Order.{bulk_in_order}
use remote_control.Relay.Registry.{
  Hosts, HostsJson, HostsFile, RegisterDraws, add_host, host_ws_allowed, load_hosts_from_disk,
  persist_hosts_to_disk, register_resp, register_persists, register_locked, registry_step,
  run_registry, RegistryEvent, Registry, registers, persists,
}
use remote_control.Relay.Registry.Restart.{
  after, reloaded, register_survives_restart, overtaken_register_lost,
}

abbrev hello_frame : PhoneOut
hello_frame = record { bytes = codes "{}"; text = true }

abbrev video_frame : PhoneOut
video_frame = record { bytes = 1 ∷ 9 ∷ []; text = false }

abbrev chunk_frame : PhoneOut
chunk_frame = record { bytes = 3 ∷ 7 ∷ []; text = false }

abbrev busy : List PipeEvent
busy =
    routes hello_frame
    ∷ routes chunk_frame
    ∷ routes video_frame
    ∷ writes true
    ∷ pings (1 ∷ [])
    ∷ writes true
    ∷ writes true
    ∷ []

bulk_in_order_example :
    kept (run_pipe busy new_pipe).wire ++ shown (run_pipe busy new_pipe).bulk
    ≡ shown (accepted busy new_pipe)
bulk_in_order_example = bulk_in_order busy (tt, (tt, (tt, (tt, (tt, (tt, (tt, tt)))))))

abbrev write_hosts : Hosts → List ℕ
write_hosts [] = []
write_hosts ((id, rec) ∷ m) =
    length id
    ∷ length rec.token_hash
    ∷ length rec.name
    ∷ (id ++ (rec.token_hash ++ (rec.name ++ write_hosts m)))

abbrev read_hosts : ℕ → List ℕ → Hosts
read_hosts zero s = []
read_hosts (suc n) (i ∷ h ∷ m ∷ s) =
    (take i s, record { token_hash = take h (drop i s); name = take m (drop h (drop i s)) })
    ∷ read_hosts n (drop m (drop h (drop i s)))
read_hosts (suc n) _ = []

read_hosts-write_hosts : (m : Hosts) → read_hosts (length m) (write_hosts m) ≡ m
read_hosts-write_hosts [] = refl
read_hosts-write_hosts ((id, rec) ∷ m) =
    let names : List ℕ = rec.name ++ write_hosts m in
    rw
      (
        take-append id (rec.token_hash ++ names) (length id) refl,
        drop-append id (rec.token_hash ++ names) (length id) refl,
        take-append rec.token_hash names (length rec.token_hash) refl,
        drop-append rec.token_hash names (length rec.token_hash) refl,
        take-append rec.name (write_hosts m) (length rec.name) refl,
        drop-append rec.name (write_hosts m) (length rec.name) refl,
        read_hosts-write_hosts m,
      )
      refl

unfoldable print_hosts : Hosts → List ℕ
print_hosts m = length m ∷ write_hosts m

abbrev parse_hosts : List ℕ → Option Hosts
parse_hosts [] = none
parse_hosts (n ∷ s) = some (read_hosts n s)

parse_hosts-print_hosts :
    (m : Hosts) (bytes : List ℕ)
    → some (print_hosts m) ≡ some bytes
    → (m' : Hosts) × (parse_hosts bytes ≡ some m') × ((id : List ℕ) → get id m' ≡ get id m)
unfolding print_hosts
parse_hosts-print_hosts m bytes e =
    let same : print_hosts m ≡ bytes = cc in
    (m, subst (λ b. parse_hosts b ≡ some m) same (rw (read_hosts-write_hosts m) refl), λ id. refl)

abbrev plain_hosts_json : HostsJson
plain_hosts_json = record {
  to_vec_pretty = λ m. some (print_hosts m);
  from_slice = parse_hosts;
  parse_back = parse_hosts-print_hosts;
}

abbrev hosts_file : HostsFile
hosts_file = record { dir = codes "/var/"; file_name = codes "hosts.json" }

abbrev first_draws : RegisterDraws
first_draws = record { token_bytes = 1 ∷ 2 ∷ []; host_id = codes "a" }

abbrev second_draws : RegisterDraws
second_draws = record { token_bytes = 3 ∷ 4 ∷ []; host_id = codes "b" }

-- Another PC registers, and its snapshot is written first.
abbrev between : List RegistryEvent
between = registers second_draws (codes "q") ∷ persists 1 saves ∷ []

abbrev first_snapshot : Hosts
first_snapshot = add_host plain_crypto first_draws (codes "pc") []

abbrev both_registered : Registry
both_registered =
    after plain_crypto plain_hosts_json hosts_file [] [] (registers first_draws (codes "pc"))
      between

abbrev after_restart : Hosts
after_restart =
    reloaded plain_crypto plain_hosts_json hosts_file
      (register_persists plain_hosts_json hosts_file 0 saves both_registered)

register_survives_restart_example :
    (host_ws_allowed plain_crypto after_restart
        (register_resp plain_crypto first_draws).host_id
        (register_resp plain_crypto first_draws).host_token
      ≡ true)
    × ((id token : List ℕ)
        → host_ws_allowed plain_crypto after_restart id token
          ≡ host_ws_allowed plain_crypto first_snapshot id token)
unfolding run_registry registry_step register_locked register_persists get insert remove list_beq
    load_hosts_from_disk
register_survives_restart_example =
    register_survives_restart plain_crypto plain_hosts_json hosts_file [] [] first_draws
      (codes "pc") between 0 first_snapshot (print_hosts first_snapshot)
      (==_false (codes "b") (codes "a") refl, (tt, tt)) (omega arith) refl refl

abbrev two_hosts : Hosts
two_hosts =
    add_host plain_crypto second_draws (codes "q")
      (add_host plain_crypto first_draws (codes "p") [])

overtaken_register_lost_example :
    (host_ws_allowed plain_crypto two_hosts (codes "b") (3 ∷ 4 ∷ []) ≡ true)
    × ((token : List ℕ)
        → host_ws_allowed plain_crypto
            (load_hosts_from_disk plain_hosts_json
              (persist_hosts_to_disk plain_hosts_json hosts_file
                (add_host plain_crypto first_draws (codes "p") [])
                saves
                (persist_hosts_to_disk plain_hosts_json hosts_file two_hosts saves []))
              hosts_file
              reads)
            (codes "b")
            token
          ≡ false)
unfolding get list_beq
overtaken_register_lost_example =
    overtaken_register_lost plain_crypto plain_hosts_json hosts_file first_draws second_draws
      (codes "p") (codes "q") [] [] (print_hosts (add_host plain_crypto first_draws (codes "p") []))
      (==_false (codes "a") (codes "b") refl) refl refl

-- Two PCs, the second of which comes back, and a phone of the first.
-- The second PC connects twice, and the connection that drew its instance first comes in last.
abbrev two_pcs : List Event
two_pcs =
    draws (codes "a")
    ∷ enters 0
    ∷ draws (codes "b")
    ∷ draws (codes "b")
    ∷ enters 2
    ∷ client_enters (codes "a") (codes "c")
    ∷ client_opens 0
    ∷ enters 1
    ∷ displaces 1
    ∷ message 1 host_end
    ∷ leaves 1
    ∷ []

abbrev phone_of_a : Phone
phone_of_a = in_phase serving (new_phone (codes "a") (codes "c") 0)

isolation_example :
    (task (message 2 (binary [])) ≡ host_task 2
      → get 0 (step (message 2 (binary [])) (run two_pcs new_hub)).phones ≡ some phone_of_a)
    × (task (message 2 (binary [])) ≡ client_task 0
        → get 2 (step (message 2 (binary [])) (run two_pcs new_hub)).loops
          ≡ some (new_loop 1 (codes "b")))
unfolding run step host_draws host_enters host_leaves clean_up still_ours host_message at_select
    on_host_msg end_reader host_displaces displace without contains with_loop with_phone get insert
    remove phone_enters phone_opens open_client list_beq
isolation_example =
    isolation two_pcs 2 (new_loop 1 (codes "b")) 0 phone_of_a refl refl
      (==_false (codes "b") (codes "a") refl) (message 2 (binary []))

online_iff_newest_example :
    (get (codes "b") (run two_pcs new_hub).online ≡ some 2)
    ↔ Newest (run two_pcs new_hub).loops (codes "b") 2
online_iff_newest_example = online_iff_newest two_pcs (omega arith) (codes "b") 2

-- The second PC's later entry counts, also after the displaced connection has cleaned up.
online_at_two_pcs : get (codes "b") (run two_pcs new_hub).online ≡ some 2
unfolding run step host_draws host_enters host_leaves clean_up still_ours host_message at_select
    on_host_msg end_reader host_displaces displace without contains with_loop with_phone get insert
    remove phone_enters phone_opens open_client list_beq
online_at_two_pcs = refl
