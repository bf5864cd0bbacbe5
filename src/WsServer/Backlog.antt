-- ===== src/WsServer/Backlog.antt =====
-- server-pc/src/ws_server.rs: the priority of the writer.
use remote_control.Base.{
  ℕ, zero, suc, true, false, List, [], ◌∷◌, ◌++◌, length, take, ◌≡◌, refl, ap, sym, ◌∙◌,
  append_assoc, append-nil, arith, map,
}
use remote_control.RelayClient.Sessions.{Message}
use remote_control.WsServer.{
  Lane, control_lane, video_lane, bulk_lane, LanPeer, LanEvent, writes, send_out, receive_bulk,
  receive_video, receive_control, write_lane, lan_step, lan_run,
}

abbrev tagged : Lane → List Message → List (Lane × Message)
tagged lane ms = map (λ m. (lane, m)) ms

-- What waits, by priority.
abbrev pub backlog : LanPeer → List (Lane × Message)
backlog p = tagged control_lane p.control ++ (tagged video_lane p.video ++ tagged bulk_lane p.bulk)

abbrev pub rounds : ℕ → List LanEvent
rounds zero = []
rounds (suc n) = writes true ∷ rounds n

-- All channels have a sender, and the writer runs.
abbrev pub IsOpen : LanPeer → Type 0
IsOpen p =
    (p.writing ≡ true) × (p.control_open ≡ true) × (p.video_open ≡ true) × (p.bulk_open ≡ true)

sends_control :
    (m : Message) (ms : List Message) (p : LanPeer)
    → p.writing ≡ true
    → p.control ≡ m ∷ ms
    → lan_step (writes true) p
      ≡ record p { control = ms; wire = p.wire ++ ((control_lane, m) ∷ []) }
unfolding lan_step write_lane receive_control send_out
sends_control m ms p on e = ground arith

sends_video :
    (m : Message) (ms : List Message) (p : LanPeer)
    → IsOpen p
    → p.control ≡ []
    → p.video ≡ m ∷ ms
    → lan_step (writes true) p ≡ record p { video = ms; wire = p.wire ++ ((video_lane, m) ∷ []) }
unfolding lan_step write_lane receive_control receive_video send_out
sends_video m ms p o ec e = ground arith

sends_bulk :
    (m : Message) (ms : List Message) (p : LanPeer)
    → IsOpen p
    → p.control ≡ []
    → p.video ≡ []
    → p.bulk ≡ m ∷ ms
    → lan_step (writes true) p ≡ record p { bulk = ms; wire = p.wire ++ ((bulk_lane, m) ∷ []) }
unfolding lan_step write_lane receive_control receive_video receive_bulk send_out
sends_bulk m ms p o ec ev e = ground arith

waits :
    (p : LanPeer)
    → IsOpen p
    → p.control ≡ []
    → p.video ≡ []
    → p.bulk ≡ []
    → lan_step (writes true) p ≡ p
unfolding lan_step write_lane receive_control receive_video receive_bulk
waits p o ec ev eb = ground arith

-- A step that sends one message, and the rest.
then_sends :
    (n : ℕ) (p p' : LanPeer) (out : Lane × Message) (outs : List (Lane × Message))
    → lan_step (writes true) p ≡ p'
    → p'.wire ≡ p.wire ++ (out ∷ [])
    → (lan_run (rounds n) p').wire ≡ p'.wire ++ take n outs
    → (lan_run (rounds (suc n)) p).wire ≡ p.wire ++ take (suc n) (out ∷ outs)
unfolding lan_run
then_sends n p p' out outs s w later =
    ap (λ q. (lan_run (rounds n) q).wire) s
    ∙ later
    ∙ ap (λ sent. sent ++ take n outs) w
    ∙ append_assoc p.wire (out ∷ []) (take n outs)

take-nil : (n : ℕ) → take n (tagged control_lane []) ≡ []
take-nil zero = refl
take-nil (suc n) = refl

ends :
    (p : LanPeer)
    → p.control ≡ []
    → p.writing ≡ true
    → p.control_open ≡ false
    → lan_step (writes true) p ≡ record p { writing = false }
unfolding lan_step write_lane receive_control
ends p e on off = ground arith

run-rounds :
    (n : ℕ) (c v b : List Message) (p : LanPeer)
    → IsOpen p
    → p.control ≡ c
    → p.video ≡ v
    → p.bulk ≡ b
    → (lan_run (rounds n) p).wire
      ≡ p.wire ++ take n (tagged control_lane c ++ (tagged video_lane v ++ tagged bulk_lane b))
unfolding lan_run
run-rounds zero c v b p o ec ev eb = sym (append-nil p.wire)
run-rounds (suc n) (m ∷ c) v b p o ec ev eb =
    let p' : LanPeer = record p { control = c; wire = p.wire ++ ((control_lane, m) ∷ []) } in
    then_sends n p p' (control_lane, m)
      (tagged control_lane c ++ (tagged video_lane v ++ tagged bulk_lane b))
      (sends_control m c p o.0 ec) refl (run-rounds n c v b p' o refl ev eb)
run-rounds (suc n) [] (m ∷ v) b p o ec ev eb =
    let p' : LanPeer = record p { video = v; wire = p.wire ++ ((video_lane, m) ∷ []) } in
    then_sends n p p' (video_lane, m) (tagged video_lane v ++ tagged bulk_lane b)
      (sends_video m v p o ec ev) refl (run-rounds n [] v b p' o ec refl eb)
run-rounds (suc n) [] [] (m ∷ b) p o ec ev eb =
    let p' : LanPeer = record p { bulk = b; wire = p.wire ++ ((bulk_lane, m) ∷ []) } in
    then_sends n p p' (bulk_lane, m) (tagged bulk_lane b) (sends_bulk m b p o ec ev eb) refl
      (run-rounds n [] [] b p' o ec ev refl)
run-rounds (suc n) [] [] [] p o ec ev eb =
    ap (λ q. (lan_run (rounds n) q).wire) (waits p o ec ev eb)
    ∙ run-rounds n [] [] [] p o ec ev eb
    ∙ ap (◌++◌ p.wire) (take-nil n)

-- While the session keeps its channels open and the sink takes every message: `n` rounds of the writer send
-- the first `n` messages of the backlog, which is all of the control messages, then all of the video
-- frames and then all of the file frames, each in order; more rounds send nothing else.
pub backlog_by_priority :
    (n : ℕ) (p : LanPeer) → IsOpen p → (lan_run (rounds n) p).wire ≡ p.wire ++ take n (backlog p)
backlog_by_priority n p o = run-rounds n p.control p.video p.bulk p o refl refl refl

-- After the session has dropped its sender of control messages, the writer still sends all of those that
-- wait, in order, and then ends, whatever is left in the other queues.
pub last_words_sent :
    (c : List Message) (p : LanPeer)
    → p.control ≡ c
    → p.writing ≡ true
    → p.control_open ≡ false
    → let p' = lan_run (rounds (suc (length c))) p in
      (p'.wire ≡ p.wire ++ map (λ m. (control_lane, m)) c) × (p'.writing ≡ false)
unfolding lan_run
last_words_sent [] p e on off = (
  ap (λ q. q.wire) (ends p e on off) ∙ sym (append-nil p.wire),
  ap (λ q. q.writing) (ends p e on off),
)
last_words_sent (m ∷ c) p e on off =
    let p' : LanPeer = record p { control = c; wire = p.wire ++ ((control_lane, m) ∷ []) } in
    let (sent, over) = last_words_sent c p' refl on off in
    let step = sends_control m c p on e in
    (
      ap (λ q. (lan_run (rounds (suc (length c))) q).wire) step
          ∙ sent
          ∙ append_assoc p.wire ((control_lane, m) ∷ []) (tagged control_lane c),
      ap (λ q. (lan_run (rounds (suc (length c))) q).writing) step ∙ over,
    )
