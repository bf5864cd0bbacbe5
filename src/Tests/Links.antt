-- ===== src/Tests/Links.antt =====
-- The connections of the PC, to a phone on the local network and to the relay, at concrete inputs.
use remote_control.Base.{
  ℕ, ◌≡◌, refl, ◌⊎◌, true, false, List, [], ◌∷◌, ◌++◌, some, map, replicate, arith, nat_eq,
}
use remote_control.Base.Utf8.{is_utf8}
use remote_control.Relay.Frame.{decode}
use remote_control.RelayClient.Frame.{TunnelFrame, client_close, data_frame}
use remote_control.RelayClient.Reconnect.{reconnect_backoff, reconnect}
use remote_control.RelayClient.Sessions.{Message, text_message, binary_message}
use remote_control.RelayClient.Writer.Arrives.Traffic.{queued, binaries}
use remote_control.RelayClient.Writer.Arrives.{tunnel_wire_decodes, to_relay}
use remote_control.RelayClient.Writer.{
  WriterEvent, host_sends, senders_gone, frame_turn, tick, new_writer, writer_run, host_send,
  writer_step, on_tick, sink_send, on_frame_turn,
}
use remote_control.WsServer.Backlog.{backlog_by_priority, rounds}
use remote_control.WsServer.Order.Lanes.{accepted, of_lane, queue}
use remote_control.WsServer.Order.{lan_in_order}
use remote_control.WsServer.{
  LanEvent, LanPeer, puts, writes, reads, control_lane, video_lane, bulk_lane, new_lan_peer,
  lan_run,
}

abbrev frame : Message
frame = binary_message (1 ∷ [])

-- The third video frame finds the channel full, and the second write fails.
abbrev traffic : List LanEvent
traffic =
    puts video_lane frame
    ∷ puts bulk_lane frame
    ∷ puts video_lane frame
    ∷ puts video_lane frame
    ∷ writes true
    ∷ reads (some frame)
    ∷ writes false
    ∷ puts control_lane (text_message [])
    ∷ []

lan_in_order_example :
    let p = lan_run traffic new_lan_peer in
    (rest : List Message) × (accepted video_lane traffic new_lan_peer
      ≡ of_lane video_lane p.wire ++ rest)
    × ((p.writing ≡ false) ⊎ (rest ≡ queue video_lane p))
lan_in_order_example = lan_in_order video_lane traffic

abbrev busy : LanPeer
busy = record new_lan_peer {
  control = text_message [] ∷ [];
  video = frame ∷ frame ∷ [];
  bulk = frame ∷ [];
}

backlog_by_priority_example :
    (lan_run (rounds 2) busy).wire ≡ (control_lane, text_message []) ∷ (video_lane, frame) ∷ []
unfolding new_lan_peer
backlog_by_priority_example = backlog_by_priority 2 busy (refl, refl, refl, refl)

reconnect_backoff_example :
    (reconnect 1 (3 ∷ 4 ∷ []) ≡ 1 ∷ 2 ∷ [])
    × (reconnect 1 ((5 ∷ []) ++ (90 ∷ 3 ∷ 4 ∷ [])) ≡ reconnect 1 (5 ∷ []) ++ (1 ∷ 2 ∷ 4 ∷ []))
reconnect_backoff_example = reconnect_backoff (3 ∷ 4 ∷ []) (5 ∷ []) 90 (omega arith) (omega arith)

abbrev uuid : List ℕ
uuid = replicate 36 b'a'

abbrev history : List WriterEvent
history =
    host_sends (data_frame uuid true (1 ∷ []))
    ∷ tick true
    ∷ host_sends (client_close uuid)
    ∷ frame_turn true
    ∷ senders_gone
    ∷ frame_turn true
    ∷ frame_turn true
    ∷ []

tunnel_wire_decodes_example :
    let w = writer_run history new_writer in
    (done : List TunnelFrame) × (rest : List TunnelFrame) × (map decode (binaries w.wire)
      ≡ map (λ f. some (to_relay f)) done)
    × (queued history new_writer ≡ done ++ rest)
    × ((w.writing ≡ false) ⊎ (rest ≡ w.host_out))
unfolding is_utf8 writer_step host_send on_tick sink_send on_frame_turn
tunnel_wire_decodes_example = tunnel_wire_decodes history ((refl, refl), ((refl, refl), tt))
