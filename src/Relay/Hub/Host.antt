-- ===== src/Relay/Hub/Host.antt =====
-- relay/src/main.rs: `host_loop`, with its writer task.
use remote_control.Base.{
  suc, ℕ, ◌+◌, ◌%◌, ◌^◌, Bool, true, false, not, ◌&&◌, ◌||◌, List, [], ◌∷◌, ◌++◌, Option, none,
  some, ◌==◌, nat_eq, list_eq, Map, get, insert, remove, if◌then◌else◌,
}
use remote_control.Base.Text.{contains}
use remote_control.Relay.Frame.{TunnelFrame, client_open, client_close, data_frame, encode, decode}
use remote_control.Relay.Hub.{
  HostLoop, new_loop, Phase, done, Phone, Hub, set_loop, set_pipe, with_loop, with_phone,
}
use remote_control.Relay.Pipe.{PhoneOut, must_deliver, try_send_fast, send_bulk}

-- The start of `host_loop`, up to the lock of `online`: `next_instance.fetch_add`.
unfoldable pub host_draws : List ℕ → Hub → Hub
host_draws host_id s = record s {
  next_instance = (s.next_instance + 1) % 2 ^ 64;
  drawn = insert s.next_instance host_id s.drawn;
}

-- The new entry of `online`, for a run that has drawn its instance.
abbrev pub enter : ℕ → List ℕ → Hub → Hub
enter instance host_id s = record s {
  drawn = remove instance s.drawn;
  next_loop = suc s.next_loop;
  displaced = elim (get host_id s.online) [ none ↦ s.displaced | some old ↦ old ∷ s.displaced ];
  online = insert host_id s.next_loop s.online;
  loops = insert s.next_loop (new_loop instance host_id) s.loops;
}

-- `host_loop` under the lock of `online`, for the run with that instance.
unfoldable pub host_enters : ℕ → Hub → Hub
host_enters instance s = elim (get instance s.drawn) [
  | none ↦ s
  | some host_id ↦ enter instance host_id s
]

unfoldable pub without : ℕ → List ℕ → List ℕ
without j [] = []
without j (k ∷ ks) = if k == j then without j ks else k ∷ without j ks

-- A loop that was displaced is cancelled, and its map of clients cleared.
unfoldable pub displace : ℕ → Hub → Hub
displace j s = with_loop j s (λ old. set_loop j (record old { cancelled = true; clients = [] }) s)

-- This happens when the lock has been released.
unfoldable pub host_displaces : ℕ → Hub → Hub
host_displaces j s =
    if contains j s.displaced
    then displace j (record s { displaced = without j s.displaced })
    else s

-- What the PC's WebSocket yields: a binary message, its end, or a message of another kind.
pub data HostMsg : Type 0 where
  binary : List ℕ → HostMsg
  host_end host_other : HostMsg

-- The break of the reader.
unfoldable pub end_reader : ℕ → HostLoop → Hub → Hub
end_reader i l s = set_loop i (record l { reading = false }) s

-- `still_ours`: the instance of the entry, if there is one, is `my_instance`.
unfoldable pub still_ours : ℕ → Option ℕ → Map ℕ HostLoop → Bool
still_ours my_instance none loops = false
still_ours my_instance (some j) loops = elim (get j loops) [
  | none ↦ false
  | some h ↦ h.instance == my_instance
]

-- The clean-up of `online`, which takes the lock again.
unfoldable pub clean_up : ℕ → HostLoop → Hub → Hub
clean_up i l s = record s {
  loops = insert i (record l { entered = false }) s.loops;
  online =
      if still_ours l.instance (get l.host_id s.online) s.loops
      then remove l.host_id s.online
      else s.online;
}

unfoldable pub host_leaves : ℕ → Hub → Hub
host_leaves i s = with_loop i s (λ l. if not l.reading && l.entered then clean_up i l s else s)

-- Text and file chunks wait for room in the bulk queue; all else is tried on the fast queue.
unfoldable pub to_client : ℕ → HostLoop → Option ℕ → PhoneOut → Hub → Hub
to_client i l none out s = s
to_client i l (some h) out s =
    if must_deliver out
    then set_loop i (record l { pending = some (h, out) }) s
    else with_phone h s (λ p. set_pipe h p (try_send_fast out p.pipe) s)

unfoldable pub on_frame : ℕ → HostLoop → TunnelFrame → Hub → Hub
on_frame i l (data_frame client_id text payload) s =
    to_client i l (get client_id l.clients) (record { bytes = payload; text = text }) s
on_frame i l (client_open client_id) s = s
on_frame i l (client_close client_id) s = s

unfoldable pub on_host_msg : ℕ → HostLoop → HostMsg → Hub → Hub
on_host_msg i l (binary bytes) s = elim (decode bytes) [
  | none ↦ s
  | some frame ↦ on_frame i l frame s
]
on_host_msg i l host_end s = end_reader i l s
on_host_msg i l host_other s = s

-- The reader is at its `select!`.
unfoldable pub at_select : HostLoop → Bool
at_select l = elim l.pending [ none ↦ l.reading | some sending ↦ false ]

unfoldable pub host_message : ℕ → HostMsg → Hub → Hub
host_message i msg s = with_loop i s (λ l. if at_select l then on_host_msg i l msg s else s)

unfoldable pub host_cancelled : ℕ → Hub → Hub
host_cancelled i s =
    with_loop i s (λ l.
      if at_select l && l.cancelled then end_reader i (record l { cancelled = false }) s else s)

abbrev pub deliver : ℕ → HostLoop → Option (ℕ × PhoneOut) → Hub → Hub
deliver i l none s = s
deliver i l (some (h, out)) s = with_phone h s (λ p. elim (send_bulk out p.pipe) [
  | none ↦ s
  | some pipe ↦ set_loop i (record l { pending = none }) (set_pipe h p pipe s)
])

-- `chans.bulk.send(out).await` comes to its end, if it can.
unfoldable pub host_delivers : ℕ → Hub → Hub
host_delivers i s = with_loop i s (λ l. deliver i l l.pending s)

abbrev is_done : Phase → Bool
is_done done = true
is_done _ = false

abbrev in_online : ℕ → Map (List ℕ) ℕ → Bool
in_online i [] = false
in_online i ((x, j) ∷ m) = j == i || in_online i m

abbrev in_phones : ℕ → Map ℕ Phone → Bool
in_phones i [] = false
in_phones i ((h, p) ∷ m) = (p.link == i && not (is_done p.phase)) || in_phones i m

-- Who still holds a sender of the queue: the loop itself until its clean-up is done, `online`, and phones.
unfoldable pub has_sender : ℕ → HostLoop → Hub → Bool
has_sender i l s = l.entered || in_online i s.online || in_phones i s.phones

abbrev pub write_one : ℕ → Bool → HostLoop → List TunnelFrame → Hub → Hub
write_one i sent l (frame ∷ rest) s =
    if sent
    then set_loop i (record l { to_host = rest; wire = l.wire ++ (encode frame ∷ []) }) s
    else set_loop i (record l { to_host = []; writing = false }) s
write_one i sent l [] s =
    if has_sender i l s then s else set_loop i (record l { writing = false }) s

-- A round of the writer, and how its send went. It ends too when the queue is closed and empty.
unfoldable pub host_writes : ℕ → Bool → Hub → Hub
host_writes i sent s = with_loop i s (λ l. if l.writing then write_one i sent l l.to_host s else s)

-- The end of `host_loop`, after its writer is done.
unfoldable pub host_clears : ℕ → Hub → Hub
host_clears i s =
    with_loop i s
      (λ l. if not l.entered && not l.writing then set_loop i (record l { clients = [] }) s else s)
