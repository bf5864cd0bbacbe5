-- ===== src/Relay/Hub/Client.antt =====
-- relay/src/main.rs: `client_loop`, with its writer task.
use remote_control.Base.{
  ℕ, suc, Bool, true, false, ◌&&◌, List, [], ◌∷◌, ◌++◌, none, some, ltb, length, nat_eq, list_eq,
  get, insert, remove, if◌then◌else◌,
}
use remote_control.Relay.Frame.{TunnelFrame, client_open, client_close, data_frame}
use remote_control.Relay.Hub.{
  HostLoop, Phase, opening, serving, closing, done, Phone, Hub, set_loop, set_phone, set_pipe,
  with_loop, with_phone, to_host_queue_cap,
}
use remote_control.Relay.Pipe.{new_pipe, queue_pong, write_round}

abbrev pub new_phone : List ℕ → List ℕ → ℕ → Phone
new_phone host_id client_id i = record {
  client_id = client_id;
  host_id = host_id;
  link = i;
  phase = opening;
  pipe = new_pipe;
}

-- The start of `client_loop`: nothing if the host has gone offline, else the queues are put under the
-- client's id, which is fresh.
unfoldable pub phone_enters : List ℕ → List ℕ → Hub → Hub
phone_enters host_id client_id s = elim (get host_id s.online) [
  | none ↦ s
  | some i ↦ with_loop i s (λ l. record s {
    loops = insert i (record l { clients = insert client_id s.next_phone l.clients }) s.loops;
    phones = insert s.next_phone (new_phone host_id client_id i) s.phones;
    next_phone = suc s.next_phone;
  })
]

-- The test of `client_ws` before the upgrade; 503 where it fails.
unfoldable pub client_ws_allowed : List ℕ → Hub → Bool
client_ws_allowed host s = elim (get host s.online) [ none ↦ false | some i ↦ true ]

abbrev pub push : TunnelFrame → HostLoop → HostLoop
push frame l = record l { to_host = l.to_host ++ (frame ∷ []) }

abbrev pub has_room : HostLoop → Bool
has_room l = ltb (length l.to_host) to_host_queue_cap

abbrev pub detach : Phone → HostLoop → HostLoop
detach p l = record l { clients = remove p.client_id l.clients }

abbrev pub in_phase : Phase → Phone → Phone
in_phase phase p = record p { phase = phase }

-- `client_loop` returns before its writer is there, and its queues are closed.
abbrev pub give_up : Phone → Phone
give_up p = record p { phase = done; pipe = record p.pipe { writing = false } }

-- `ClientOpen` is sent when there is room; if the PC's writer has ended, the client leaves.
unfoldable pub open_client : ℕ → Phone → Phase → Hub → Hub
open_client h p opening s = with_loop p.link s (λ l.
    if l.writing
    then (if has_room l
        then set_loop p.link (push (client_open p.client_id) l) (set_phone h (in_phase serving p) s)
        else s)
    else set_loop p.link (detach p l) (set_phone h (give_up p) s))
open_client h p _ s = s

unfoldable pub phone_opens : ℕ → Hub → Hub
phone_opens h s = with_phone h s (λ p. open_client h p p.phase s)

-- What the phone's WebSocket yields.
pub data PhoneMsg : Type 0 where
  text_msg binary_msg ping_msg : List ℕ → PhoneMsg
  phone_end phone_other : PhoneMsg

-- The reader leaves its loop and drops `pong_tx`.
abbrev pub stop_reading : Phone → Phone
stop_reading p = record p { phase = closing; pipe = record p.pipe { pong_open = false } }

unfoldable pub forward : ℕ → Phone → Bool → List ℕ → Hub → Hub
forward h p text bytes s = with_loop p.link s (λ l.
    if l.writing
    then (if has_room l then set_loop p.link (push (data_frame p.client_id text bytes) l) s else s)
    else set_phone h (stop_reading p) s)

unfoldable pub on_phone_msg : ℕ → Phone → PhoneMsg → Hub → Hub
on_phone_msg h p (text_msg bytes) s = forward h p true bytes s
on_phone_msg h p (binary_msg bytes) s = forward h p false bytes s
on_phone_msg h p (ping_msg payload) s = set_pipe h p (queue_pong payload p.pipe) s
on_phone_msg h p phone_end s = set_phone h (stop_reading p) s
on_phone_msg h p phone_other s = s

unfoldable pub when_serving : Phase → Hub → Hub → Hub
when_serving serving t s = t
when_serving _ t s = s

unfoldable pub phone_message : ℕ → PhoneMsg → Hub → Hub
phone_message h msg s = with_phone h s (λ p. when_serving p.phase (on_phone_msg h p msg s) s)

-- `ClientClose` is sent, unless the PC's writer has ended, and the client is taken out of the map.
unfoldable pub close_client : ℕ → Phone → Phase → Hub → Hub
close_client h p closing s = with_loop p.link s (λ l.
    if l.writing
    then (if has_room l
        then set_loop p.link (detach p (push (client_close p.client_id) l))
            (set_phone h (in_phase done p) s)
        else s)
    else set_loop p.link (detach p l) (set_phone h (in_phase done p) s))
close_client h p _ s = s

unfoldable pub phone_closes : ℕ → Hub → Hub
phone_closes h s = with_phone h s (λ p. close_client h p p.phase s)

-- The writer is there after `ClientOpen`.
abbrev pub is_spawned : Phase → Bool
is_spawned opening = false
is_spawned _ = true

abbrev pub is_writing : Phone → Bool
is_writing p = is_spawned p.phase && p.pipe.writing

-- A round of the phone's writer.
unfoldable pub phone_writes : ℕ → Bool → Hub → Hub
phone_writes h sent s = with_phone h s (λ p.
    if is_writing p
    then elim (write_round sent p.pipe) [ none ↦ s | some pipe ↦ set_pipe h p pipe s ]
    else s)
