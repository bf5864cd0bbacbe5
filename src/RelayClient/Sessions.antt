-- ===== src/RelayClient/Sessions.antt =====
-- server-pc/src/relay_client.rs: the phone sessions behind one tunnel to the relay. A session is known by
-- the number in which it was opened; `inbox` is all that was sent to its `run_connection`.
pub mod Reachable
pub mod Happens
pub mod Hears
use remote_control.Base.{
  ℕ, suc, ◌+◌, ◌-◌, Bool, true, false, List, [], ◌∷◌, ◌++◌, Option, none, some, Map, get, insert,
  remove, nat_eq, list_eq, if◌then◌else◌,
}
use remote_control.Base.Text.{codes}
use remote_control.Base.Utf8.{is_utf8}
use remote_control.RelayClient.Frame.{
  TunnelFrame, client_open, client_close, data_frame, encode, decode,
}

-- A WebSocket message, of a phone session or of the tunnel.
pub data Message : Type 0 where
  text_message : List ℕ → Message
  binary_message : List ℕ → Message
  close_message : Message
  other_message : Message

-- `control`, `video` and `bulk` are the three queues that the session fills and its pump empties;
-- `ended` is set when `run_connection` returns and drops their senders.
pub record PhoneSession : Type 0 where
  pub label : List ℕ
  pub client_id : List ℕ
  pub inbox : List Message
  pub control : List Message
  pub video : List Message
  pub bulk : List Message
  pub ended : Bool
  pub pumping : Bool

pub record Tunnel : Type 0 where
  pub sessions : Map (List ℕ) ℕ
  pub tasks : Map ℕ PhoneSession
  pub next : ℕ
  pub host_out : List TunnelFrame
  pub peer_count : ℕ
  pub reading : Bool

abbrev pub new_tunnel : Tunnel
new_tunnel = record {
  sessions = [];
  tasks = [];
  next = 0;
  host_out = [];
  peer_count = 0;
  reading = true;
}

abbrev pub new_session : List ℕ → PhoneSession
new_session client_id = record {
  label = codes "relay/" ++ client_id;
  client_id = client_id;
  inbox = [];
  control = [];
  video = [];
  bulk = [];
  ended = false;
  pumping = true;
}

abbrev pub receive : Message → PhoneSession → PhoneSession
receive msg t = record t { inbox = t.inbox ++ (msg ∷ []) }

-- `sess.inbox_tx.send(msg)`, for the session that the map has.
unfoldable pub to_session : List ℕ → Message → Tunnel → Tunnel
to_session client_id msg s = elim (get client_id s.sessions) [
  | none ↦ s
  | some h ↦ elim (get h s.tasks) [
    | none ↦ s
    | some t ↦ record s { tasks = insert h (receive msg t) s.tasks }
  ]
]

-- A text that is not UTF-8 is dropped.
unfoldable pub on_tunnel_frame : TunnelFrame → Tunnel → Tunnel
on_tunnel_frame (client_open client_id) s = record s {
  sessions = insert client_id s.next s.sessions;
  tasks = insert s.next (new_session client_id) s.tasks;
  next = suc s.next;
  peer_count = s.peer_count + 1;
}
on_tunnel_frame (client_close client_id) s = record s { sessions = remove client_id s.sessions }
on_tunnel_frame (data_frame client_id text payload) s =
    if text
    then (if is_utf8 payload then to_session client_id (text_message payload) s else s)
    else to_session client_id (binary_message payload) s

-- An item of the tunnel's WebSocket. A frame that is malformed is passed over.
unfoldable pub on_item : Message → Tunnel → Tunnel
on_item (binary_message bytes) s = elim (decode bytes) [
  | none ↦ s
  | some frame ↦ on_tunnel_frame frame s
]
on_item close_message s = record s { reading = false }
on_item (text_message bytes) s = s
on_item other_message s = s

unfoldable pub read_items : List Message → Tunnel → Tunnel
read_items [] s = s
read_items (item ∷ items) s = read_items items (if s.reading then on_item item s else s)

pub data Pumped : Type 0 where
  frame : TunnelFrame → Pumped
  skip stop : Pumped

unfoldable pub pump_one : List ℕ → Message → Pumped
pump_one client_id (text_message s) = frame (data_frame client_id true s)
pump_one client_id (binary_message b) = frame (data_frame client_id false b)
pump_one client_id close_message = stop
pump_one client_id other_message = skip

-- The end of the pump takes the client out of the map.
unfoldable pub end_pump : ℕ → PhoneSession → Tunnel → Tunnel
end_pump h t s = record s {
  tasks = insert h (record t { pumping = false }) s.tasks;
  sessions = remove t.client_id s.sessions;
}

unfoldable pub on_pumped : ℕ → PhoneSession → Pumped → Tunnel → Tunnel
on_pumped h t (frame f) s = record s {
  tasks = insert h t s.tasks;
  host_out = s.host_out ++ (f ∷ []);
}
on_pumped h t skip s = record s { tasks = insert h t s.tasks }
on_pumped h t stop s = end_pump h t s

-- The pump's biased `select!`: the control queue first, then video, then bulk. A queue that is closed
-- and empty ends it, and all are closed together.
unfoldable pub pump_round : ℕ → PhoneSession → Tunnel → Tunnel
pump_round h t s = elim t.control [
  | m ∷ control ↦ on_pumped h (record t { control = control }) (pump_one t.client_id m) s
  | [] ↦ if t.ended then end_pump h t s else elim t.video [
    | m ∷ video ↦ on_pumped h (record t { video = video }) (pump_one t.client_id m) s
    | [] ↦ elim t.bulk [
      | m ∷ bulk ↦ on_pumped h (record t { bulk = bulk }) (pump_one t.client_id m) s
      | [] ↦ s
    ]
  ]
]

-- `run_connection` returns.
unfoldable pub session_ends : ℕ → PhoneSession → Tunnel → Tunnel
session_ends h t s = record s {
  tasks = insert h (record t { ended = true }) s.tasks;
  peer_count = s.peer_count - 1;
}
