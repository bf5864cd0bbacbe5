-- ===== src/WsServer/Order/Ended.antt =====
-- server-pc/src/ws_server.rs: after the end of the writer.
use remote_control.Base.{
  false, List, [], ◌∷◌, ◌++◌, none, some, ◌≡◌, refl, inl, inr, ap, ◌∙◌, if_intro, Bool-cases,
}
use remote_control.RelayClient.Sessions.{Message}
use remote_control.WsServer.{
  Lane, control_lane, video_lane, bulk_lane, LanPeer, LanEvent, puts, closes, writes, reads,
  session_returns, takes, put, close_lane, write_lane, lan_step, lan_run, read_item,
}
use remote_control.WsServer.Order.Lanes.{same_lane, newly, accepted, after}

-- Nothing is written or taken any more once the writer has ended.
abbrev pub IsIdle : LanPeer → List Message → LanPeer → Type 0
IsIdle p new p' = (p'.wire ≡ p.wire) × (new ≡ []) × (p'.writing ≡ false)

step-IsIdle :
    (l : Lane) (e : LanEvent) (p : LanPeer)
    → p.writing ≡ false
    → IsIdle p (newly l e p) (lan_step e p)
unfolding lan_step close_lane put takes write_lane read_item
step-IsIdle l (puts k m) p off =
    let never : takes k p ≡ false = rw (off, takes) refl in
    rw (never) (elim (Bool-cases (same_lane l k)) [
      | inl e ↦ rw (e) (refl, refl, off)
      | inr e ↦ rw (e) (refl, refl, off)
    ])
step-IsIdle l (closes control_lane) p off = (refl, refl, off)
step-IsIdle l (closes video_lane) p off = (refl, refl, off)
step-IsIdle l (closes bulk_lane) p off = (refl, refl, off)
step-IsIdle l (writes sent) p off =
    if_intro (λ o. IsIdle p [] (after p o)) p.writing (λ on. cc) (λ _. (refl, refl, off))
step-IsIdle l session_returns p off = (refl, refl, off)
step-IsIdle l (reads none) p off =
    if_intro (IsIdle p []) p.reading (λ _. (refl, refl, off)) (λ _. (refl, refl, off))
step-IsIdle l (reads (some m)) p off =
    if_intro (IsIdle p []) p.reading
      (λ _. if_intro (IsIdle p []) p.inbox_open (λ _. (refl, refl, off)) (λ _. (refl, refl, off)))
      (λ _. (refl, refl, off))

pub run-IsIdle :
    (l : Lane) (es : List LanEvent) (p : LanPeer)
    → p.writing ≡ false
    → IsIdle p (accepted l es p) (lan_run es p)
unfolding lan_run
run-IsIdle l [] p off = (refl, refl, off)
run-IsIdle l (e ∷ es) p off =
    let (wire, new, off') = step-IsIdle l e p off in
    let (wires, news, off'') = run-IsIdle l es (lan_step e p) off' in
    (wires ∙ wire, ap (λ ms. ms ++ accepted l es (lan_step e p)) new ∙ news, off'')
