-- ===== src/WsServer/Order.antt =====
-- server-pc/src/ws_server.rs: each queue comes out in the order in which it was filled.
pub mod Lanes
pub mod Ended
use remote_control.Base.{
  Bool, true, false, ◌&&◌, List, [], ◌∷◌, ◌++◌, Option, none, some, if◌then◌else◌, ◌≡◌, refl, ◌⊎◌,
  inl, inr, ap, sym, ◌∙◌, append_assoc, append-nil, subst, if_intro, Bool-cases, list_intro,
}
use remote_control.RelayClient.Sessions.{Message}
use remote_control.WsServer.{
  Lane, control_lane, video_lane, bulk_lane, LanPeer, LanEvent, puts, closes, writes, reads,
  session_returns, takes, enqueue, put, close_lane, send_out, receive_bulk, receive_video,
  receive_control, write_lane, lan_step, lan_run, read_item, new_lan_peer,
}
use remote_control.WsServer.Order.Lanes.{
  queue, same_lane, of_lane, newly, accepted, Keeps, unchanged, stopped, send_out-Keeps, after,
}
use remote_control.WsServer.Order.Ended.{IsIdle, run-IsIdle}

receive_bulk-Keeps :
    (l : Lane) (sent : Bool) (p : LanPeer) → Keeps l p [] (after p (receive_bulk sent p))
unfolding receive_bulk
receive_bulk-Keeps l sent p =
    let P : Option LanPeer → Type 0 = λ o. Keeps l p [] (after p o) in
    list_intro P p.bulk
      (λ _. if_intro P p.bulk_open (λ _. unchanged l p p refl refl) (λ _. stopped l p))
      (λ m ms e. send_out-Keeps l bulk_lane m ms sent p e)

receive_video-Keeps :
    (l : Lane) (sent : Bool) (p : LanPeer) → Keeps l p [] (after p (receive_video sent p))
unfolding receive_video
receive_video-Keeps l sent p =
    let P : Option LanPeer → Type 0 = λ o. Keeps l p [] (after p o) in
    list_intro P p.video
      (λ _. if_intro P p.video_open (λ _. receive_bulk-Keeps l sent p) (λ _. stopped l p))
      (λ m ms e. send_out-Keeps l video_lane m ms sent p e)

write_lane-Keeps :
    (l : Lane) (sent : Bool) (p : LanPeer) → Keeps l p [] (after p (write_lane sent p))
unfolding write_lane receive_control
write_lane-Keeps l sent p =
    let P : Option LanPeer → Type 0 = λ o. Keeps l p [] (after p o) in
    if_intro P p.writing
      (λ _.
        list_intro P p.control
          (λ _. if_intro P p.control_open (λ _. receive_video-Keeps l sent p) (λ _. stopped l p))
          (λ m ms e. send_out-Keeps l control_lane m ms sent p e))
      (λ _. unchanged l p p refl refl)

enqueue-Keeps :
    (l k : Lane) (m : Message) (p : LanPeer)
    → Keeps l p (if same_lane l k then m ∷ [] else []) (enqueue k m p)
unfolding enqueue
enqueue-Keeps control_lane control_lane m p = (
  p.control ++ (m ∷ []),
  sym (append_assoc (of_lane control_lane p.wire) p.control (m ∷ [])),
  inr refl,
)
enqueue-Keeps video_lane control_lane m p =
    unchanged video_lane p (enqueue control_lane m p) refl refl
enqueue-Keeps bulk_lane control_lane m p =
    unchanged bulk_lane p (enqueue control_lane m p) refl refl
enqueue-Keeps control_lane video_lane m p =
    unchanged control_lane p (enqueue video_lane m p) refl refl
enqueue-Keeps video_lane video_lane m p =
    (p.video ++ (m ∷ []), sym (append_assoc (of_lane video_lane p.wire) p.video (m ∷ [])), inr refl)
enqueue-Keeps bulk_lane video_lane m p = unchanged bulk_lane p (enqueue video_lane m p) refl refl
enqueue-Keeps control_lane bulk_lane m p =
    unchanged control_lane p (enqueue bulk_lane m p) refl refl
enqueue-Keeps video_lane bulk_lane m p = unchanged video_lane p (enqueue bulk_lane m p) refl refl
enqueue-Keeps bulk_lane bulk_lane m p =
    (p.bulk ++ (m ∷ []), sym (append_assoc (of_lane bulk_lane p.wire) p.bulk (m ∷ [])), inr refl)

-- The new message, or none.
put-Keeps :
    (l k : Lane) (m : Message) (p : LanPeer)
    → Keeps l p (if same_lane l k && takes k p then m ∷ [] else []) (put k m p)
unfolding put
put-Keeps l k m p = elim (Bool-cases (takes k p)) [
  | inl t ↦ elim (Bool-cases (same_lane l k)) [
    | inl e ↦ rw (t) (
        rw (e) (
          subst (λ b. Keeps l p (if b then m ∷ [] else []) (enqueue k m p)) e
            (enqueue-Keeps l k m p)))
    | inr e ↦ rw (t) (
        rw (e) (
          subst (λ b. Keeps l p (if b then m ∷ [] else []) (enqueue k m p)) e
            (enqueue-Keeps l k m p)))
  ]
  | inr f ↦ elim (Bool-cases (same_lane l k)) [
    | inl e ↦ rw (f) (rw (e) (unchanged l p p refl refl))
    | inr e ↦ rw (f) (rw (e) (unchanged l p p refl refl))
  ]
]

quiet :
    (l : Lane) (p p' : LanPeer)
    → p'.wire ≡ p.wire
    → p'.control ≡ p.control
    → p'.video ≡ p.video
    → p'.bulk ≡ p.bulk
    → Keeps l p [] p'
quiet control_lane p p' w c v b = unchanged control_lane p p' w c
quiet video_lane p p' w c v b = unchanged video_lane p p' w v
quiet bulk_lane p p' w c v b = unchanged bulk_lane p p' w b

step-Keeps : (l : Lane) (e : LanEvent) (p : LanPeer) → Keeps l p (newly l e p) (lan_step e p)
unfolding lan_step close_lane read_item
step-Keeps l (puts k m) p = put-Keeps l k m p
step-Keeps l (closes control_lane) p = quiet l p (close_lane control_lane p) refl refl refl refl
step-Keeps l (closes video_lane) p = quiet l p (close_lane video_lane p) refl refl refl refl
step-Keeps l (closes bulk_lane) p = quiet l p (close_lane bulk_lane p) refl refl refl refl
step-Keeps l (writes sent) p = write_lane-Keeps l sent p
step-Keeps l session_returns p = quiet l p (record p { inbox_open = false }) refl refl refl refl
step-Keeps l (reads none) p =
    if_intro (Keeps l p []) p.reading
      (λ _. quiet l p (record p { reading = false }) refl refl refl refl)
      (λ _. quiet l p p refl refl refl refl)
step-Keeps l (reads (some m)) p =
    if_intro (Keeps l p []) p.reading
      (λ _.
        if_intro (Keeps l p []) p.inbox_open
          (λ _. quiet l p (record p { inbox = p.inbox ++ (m ∷ []) }) refl refl refl refl)
          (λ _. quiet l p (record p { reading = false }) refl refl refl refl))
      (λ _. quiet l p p refl refl refl refl)

-- A step, and what follows while the writer goes on.
Keeps-append :
    (l : Lane) (p q r : LanPeer) (new later : List Message)
    → Keeps l p new q
    → Keeps l q later r
    → (q.writing ≡ false → IsIdle q later r)
    → Keeps l p (new ++ later) r
Keeps-append l p q r new later (rest, e, inr go) (rest', e', on) idle = (
  rest',
  e'
      ∙ ap (λ ms. (of_lane l q.wire ++ ms) ++ later) (sym go)
      ∙ ap (λ ms. ms ++ later) e
      ∙ append_assoc (of_lane l p.wire ++ queue l p) new later,
  on,
)
Keeps-append l p q r new later (rest, e, inl off) (rest', e', on) idle =
    let (wire, none_new, off') = idle off in
    (
      rest,
      ap (λ out. of_lane l out ++ rest) wire
          ∙ e
          ∙ ap (◌++◌ (of_lane l p.wire ++ queue l p))
              (sym (append-nil new) ∙ ap (◌++◌ new) (sym none_new)),
      inl off',
    )

run-Keeps :
    (l : Lane) (es : List LanEvent) (p : LanPeer) → Keeps l p (accepted l es p) (lan_run es p)
unfolding lan_run
run-Keeps l [] p = unchanged l p p refl refl
run-Keeps l (e ∷ es) p =
    Keeps-append l p (lan_step e p) (lan_run es (lan_step e p)) (newly l e p)
      (accepted l es (lan_step e p)) (step-Keeps l e p) (run-Keeps l es (lan_step e p))
      (run-IsIdle l es (lan_step e p))

-- For every history of a connection on the local network, and for each of its queues: the messages that
-- the sink took are those that the queue accepted, in the same order, up to some that are left; these
-- still wait in the queue unless the writer has ended.
pub lan_in_order :
    (l : Lane) (es : List LanEvent)
    → let p = lan_run es new_lan_peer in
      (rest : List Message) × (accepted l es new_lan_peer ≡ of_lane l p.wire ++ rest)
      × ((p.writing ≡ false) ⊎ (rest ≡ queue l p))
unfolding new_lan_peer
lan_in_order control_lane es =
    let (rest, e, on) = run-Keeps control_lane es new_lan_peer in (rest, sym e, on)
lan_in_order video_lane es =
    let (rest, e, on) = run-Keeps video_lane es new_lan_peer in (rest, sym e, on)
lan_in_order bulk_lane es =
    let (rest, e, on) = run-Keeps bulk_lane es new_lan_peer in (rest, sym e, on)
