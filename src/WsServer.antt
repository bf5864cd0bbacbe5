-- ===== src/WsServer.antt =====
-- server-pc/src/ws_server.rs: the reader and the writer of a phone on the local network. The three queues
-- to the writer are channels of tokio: a message is put in while its channel has room and a receiver.
pub mod Order
pub mod Backlog
use remote_control.Base.{
  ℕ, ◌+◌, Bool, true, false, ◌&&◌, List, [], ◌∷◌, ◌++◌, Option, none, some, length, ltb,
  if◌then◌else◌,
}
use remote_control.RelayClient.Sessions.{Message}

pub data Lane : Type 0 where
  control_lane video_lane bulk_lane : Lane

unfoldable pub outbound_video_cap : ℕ
outbound_video_cap = 2

unfoldable pub outbound_bulk_cap : ℕ
outbound_bulk_cap = 8

-- `inbox` is all that was sent to `run_connection`, `wire` all that the sink took. A channel is open
-- while it has a sender.
pub record LanPeer : Type 0 where
  pub inbox : List Message
  pub inbox_open : Bool
  pub reading : Bool
  pub control : List Message
  pub control_open : Bool
  pub video : List Message
  pub video_open : Bool
  pub bulk : List Message
  pub bulk_open : Bool
  pub wire : List (Lane × Message)
  pub writing : Bool

unfoldable pub new_lan_peer : LanPeer
new_lan_peer = record {
  inbox = [];
  inbox_open = true;
  reading = true;
  control = [];
  control_open = true;
  video = [];
  video_open = true;
  bulk = [];
  bulk_open = true;
  wire = [];
  writing = true;
}

-- A round of the reader; `none` is an error or the end.
unfoldable pub read_item : Option Message → LanPeer → LanPeer
read_item none p = record p { reading = false }
read_item (some m) p =
    if p.inbox_open then record p { inbox = p.inbox ++ (m ∷ []) } else record p { reading = false }

unfoldable pub has_room : Lane → LanPeer → Bool
has_room control_lane p = true
has_room video_lane p = ltb (length p.video) outbound_video_cap
has_room bulk_lane p = ltb (length p.bulk) outbound_bulk_cap

unfoldable pub takes : Lane → LanPeer → Bool
takes lane p = p.writing && has_room lane p

unfoldable pub enqueue : Lane → Message → LanPeer → LanPeer
enqueue control_lane m p = record p { control = p.control ++ (m ∷ []) }
enqueue video_lane m p = record p { video = p.video ++ (m ∷ []) }
enqueue bulk_lane m p = record p { bulk = p.bulk ++ (m ∷ []) }

-- Without room a video frame is dropped; a file frame waits, that is, it can be put in again.
unfoldable pub put : Lane → Message → LanPeer → LanPeer
put lane m p = if takes lane p then enqueue lane m p else p

-- The last sender of a channel is gone.
unfoldable pub close_lane : Lane → LanPeer → LanPeer
close_lane control_lane p = record p { control_open = false }
close_lane video_lane p = record p { video_open = false }
close_lane bulk_lane p = record p { bulk_open = false }

-- `sink.send`.
unfoldable pub send_out : Lane → Message → Bool → LanPeer → LanPeer
send_out lane m true p = record p { wire = p.wire ++ ((lane, m) ∷ []) }
send_out lane m false p = record p { writing = false }

-- A branch of the `select!`: a message, or the end of a channel that is closed and empty; else the next.
unfoldable pub receive_bulk : Bool → LanPeer → Option LanPeer
receive_bulk sent p = elim p.bulk [
  | m ∷ ms ↦ some (send_out bulk_lane m sent (record p { bulk = ms }))
  | [] ↦ if p.bulk_open then none else some (record p { writing = false })
]

unfoldable pub receive_video : Bool → LanPeer → Option LanPeer
receive_video sent p = elim p.video [
  | m ∷ ms ↦ some (send_out video_lane m sent (record p { video = ms }))
  | [] ↦ if p.video_open then receive_bulk sent p else some (record p { writing = false })
]

unfoldable pub receive_control : Bool → LanPeer → Option LanPeer
receive_control sent p = elim p.control [
  | m ∷ ms ↦ some (send_out control_lane m sent (record p { control = ms }))
  | [] ↦ if p.control_open then receive_video sent p else some (record p { writing = false })
]

-- A round of the writer, which polls in this order; `none` while it waits or when it has ended.
unfoldable pub write_lane : Bool → LanPeer → Option LanPeer
write_lane sent p = if p.writing then receive_control sent p else none

-- What the session, the reader and the writer do; a session that returns drops its end of the inbox.
pub data LanEvent : Type 0 where
  puts : Lane → Message → LanEvent
  closes : Lane → LanEvent
  writes : Bool → LanEvent
  reads : Option Message → LanEvent
  session_returns : LanEvent

unfoldable pub lan_step : LanEvent → LanPeer → LanPeer
lan_step (puts lane m) p = put lane m p
lan_step (closes lane) p = close_lane lane p
lan_step (writes sent) p = elim (write_lane sent p) [ none ↦ p | some q ↦ q ]
lan_step (reads item) p = if p.reading then read_item item p else p
lan_step session_returns p = record p { inbox_open = false }

unfoldable pub lan_run : List LanEvent → LanPeer → LanPeer
lan_run [] p = p
lan_run (e ∷ es) p = lan_run es (lan_step e p)
