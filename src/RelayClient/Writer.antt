-- ===== src/RelayClient/Writer.antt =====
-- server-pc/src/relay_client.rs: the writer of the tunnel in `RelayClient::run`, with its keepalive.
pub mod Arrives
use remote_control.Base.{
  Bool, true, false, List, [], ◌∷◌, ◌++◌, ℕ, Option, none, some, if◌then◌else◌,
}
use remote_control.RelayClient.Frame.{TunnelFrame, encode}

-- A binary message or a ping.
pub data TunnelOut : Type 0 where
  frame_out : List ℕ → TunnelOut
  ping_out : TunnelOut

-- `host_out` is the unbounded queue, which is open while it has a sender; `wire` is all that was sent.
pub record TunnelWriter : Type 0 where
  pub host_out : List TunnelFrame
  pub host_open : Bool
  pub wire : List TunnelOut
  pub writing : Bool

abbrev pub new_writer : TunnelWriter
new_writer = record { host_out = []; host_open = true; wire = []; writing = true }

-- `host_out_tx.send`, which fails without a receiver.
unfoldable pub host_send : TunnelFrame → TunnelWriter → TunnelWriter
host_send f w = if w.writing then record w { host_out = w.host_out ++ (f ∷ []) } else w

-- `ws_sink.send`; the writer ends where it fails.
unfoldable pub sink_send : TunnelOut → Bool → TunnelWriter → TunnelWriter
sink_send out true w = record w { wire = w.wire ++ (out ∷ []) }
sink_send out false w = record w { writing = false }

-- The first branch of the `select!`; without a frame it waits while there is a sender.
unfoldable pub on_frame_turn : Bool → TunnelWriter → TunnelWriter
on_frame_turn sent w = elim w.host_out [
  | f ∷ fs ↦ sink_send (frame_out (encode f)) sent (record w { host_out = fs })
  | [] ↦ if w.host_open then w else record w { writing = false }
]

-- The second branch, every 30 seconds.
unfoldable pub on_tick : Bool → TunnelWriter → TunnelWriter
on_tick sent w = sink_send ping_out sent w

pub data WriterEvent : Type 0 where
  host_sends : TunnelFrame → WriterEvent
  senders_gone : WriterEvent
  frame_turn : Bool → WriterEvent
  tick : Bool → WriterEvent

unfoldable pub writer_step : WriterEvent → TunnelWriter → TunnelWriter
writer_step (host_sends f) w = host_send f w
writer_step senders_gone w = record w { host_open = false }
writer_step (frame_turn sent) w = if w.writing then on_frame_turn sent w else w
writer_step (tick sent) w = if w.writing then on_tick sent w else w

unfoldable pub writer_run : List WriterEvent → TunnelWriter → TunnelWriter
writer_run [] w = w
writer_run (e ∷ es) w = writer_run es (writer_step e w)
