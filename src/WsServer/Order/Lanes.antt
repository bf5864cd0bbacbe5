-- ===== src/WsServer/Order/Lanes.antt =====
-- server-pc/src/ws_server.rs: what becomes of the messages of each queue in a round of the writer.
use remote_control.Base.{
  Bool, true, false, ◌&&◌, List, [], ◌∷◌, ◌++◌, Option, none, some, if◌then◌else◌, ◌≡◌, refl, ◌⊎◌,
  inl, inr, ap, sym, ◌∙◌, append_assoc, append-nil, Bool-cases,
}
use remote_control.RelayClient.Sessions.{Message}
use remote_control.WsServer.{
  Lane, control_lane, video_lane, bulk_lane, LanPeer, LanEvent, puts, closes, writes, reads,
  session_returns, takes, send_out, lan_step,
}

abbrev pub queue : Lane → LanPeer → List Message
queue control_lane p = p.control
queue video_lane p = p.video
queue bulk_lane p = p.bulk

abbrev pub same_lane : Lane → Lane → Bool
same_lane control_lane control_lane = true
same_lane video_lane video_lane = true
same_lane bulk_lane bulk_lane = true
same_lane _ _ = false

-- The messages of a lane.
abbrev pub of_lane : Lane → List (Lane × Message) → List Message
of_lane l [] = []
of_lane l ((k, m) ∷ out) = if same_lane l k then m ∷ of_lane l out else of_lane l out

-- What an event, and a history, puts into a lane while it has room.
abbrev pub newly : Lane → LanEvent → LanPeer → List Message
newly l (puts k m) p = if same_lane l k && takes k p then m ∷ [] else []
newly l (closes k) p = []
newly l (writes sent) p = []
newly l (reads item) p = []
newly l session_returns p = []

abbrev pub accepted : Lane → List LanEvent → LanPeer → List Message
accepted l [] p = []
accepted l (e ∷ es) p = newly l e p ++ accepted l es (lan_step e p)

of_lane-append :
    (l : Lane) (xs ys : List (Lane × Message)) → of_lane l (xs ++ ys) ≡ of_lane l xs ++ of_lane l ys
of_lane-append l [] ys = refl
of_lane-append l ((k, m) ∷ xs) ys = elim (Bool-cases (same_lane l k)) [
  | inl e ↦ rw (e) (ap (◌∷◌ m) (of_lane-append l xs ys))
  | inr e ↦ rw (e) (of_lane-append l xs ys)
]

-- What was on the wire and in the queue, with what is new, is on the wire and in the queue; once the
-- writer has ended, some of it may be lost.
abbrev pub Keeps : Lane → LanPeer → List Message → LanPeer → Type 0
Keeps l p new p' =
    (rest : List Message) × (of_lane l p'.wire ++ rest ≡ (of_lane l p.wire ++ queue l p) ++ new)
    × ((p'.writing ≡ false) ⊎ (rest ≡ queue l p'))

pub unchanged :
    (l : Lane) (p p' : LanPeer) → p'.wire ≡ p.wire → queue l p' ≡ queue l p → Keeps l p [] p'
unchanged l p p' w q = (
  queue l p',
  ap (λ out. of_lane l out ++ queue l p') w
      ∙ ap (◌++◌ (of_lane l p.wire)) q
      ∙ sym (append-nil (of_lane l p.wire ++ queue l p)),
  inr refl,
)

pub stopped : (l : Lane) (p : LanPeer) → Keeps l p [] (record p { writing = false })
stopped l p = (queue l p, sym (append-nil (of_lane l p.wire ++ queue l p)), inl refl)

-- The first message of a queue is sent, or lost.
abbrev without_first : Lane → List Message → LanPeer → LanPeer
without_first control_lane ms p = record p { control = ms }
without_first video_lane ms p = record p { video = ms }
without_first bulk_lane ms p = record p { bulk = ms }

sent_same :
    (l k : Lane) (m : Message) (wire : List (Lane × Message)) (ms : List Message)
    → same_lane l k ≡ true
    → of_lane l (wire ++ ((k, m) ∷ [])) ++ ms ≡ (of_lane l wire ++ (m ∷ ms)) ++ []
sent_same l k m wire ms e =
    let one : of_lane l ((k, m) ∷ []) ≡ m ∷ [] = rw (e) refl in
    ap (λ out. out ++ ms) (of_lane-append l wire ((k, m) ∷ []) ∙ ap (◌++◌ (of_lane l wire)) one)
    ∙ append_assoc (of_lane l wire) (m ∷ []) ms
    ∙ sym (append-nil (of_lane l wire ++ (m ∷ ms)))

sent_other :
    (l k : Lane) (m : Message) (wire : List (Lane × Message)) (ms : List Message)
    → same_lane l k ≡ false
    → of_lane l (wire ++ ((k, m) ∷ [])) ++ ms ≡ (of_lane l wire ++ ms) ++ []
sent_other l k m wire ms e =
    let none_of_it : of_lane l ((k, m) ∷ []) ≡ [] = rw (e) refl in
    ap (λ out. out ++ ms)
      (of_lane-append l wire ((k, m) ∷ [])
        ∙ ap (◌++◌ (of_lane l wire)) none_of_it
        ∙ append-nil (of_lane l wire))
    ∙ sym (append-nil (of_lane l wire ++ ms))

pub send_out-Keeps :
    (l k : Lane) (m : Message) (ms : List Message) (sent : Bool) (p : LanPeer)
    → queue k p ≡ m ∷ ms
    → Keeps l p [] (send_out k m sent (without_first k ms p))
unfolding send_out
send_out-Keeps control_lane control_lane m ms true p q = (
  ms,
  sent_same control_lane control_lane m p.wire ms refl
      ∙ ap (λ qs. (of_lane control_lane p.wire ++ qs) ++ []) (sym q),
  inr refl,
)
send_out-Keeps video_lane control_lane m ms true p q =
    (p.video, sent_other video_lane control_lane m p.wire p.video refl, inr refl)
send_out-Keeps bulk_lane control_lane m ms true p q =
    (p.bulk, sent_other bulk_lane control_lane m p.wire p.bulk refl, inr refl)
send_out-Keeps control_lane video_lane m ms true p q =
    (p.control, sent_other control_lane video_lane m p.wire p.control refl, inr refl)
send_out-Keeps video_lane video_lane m ms true p q = (
  ms,
  sent_same video_lane video_lane m p.wire ms refl
      ∙ ap (λ qs. (of_lane video_lane p.wire ++ qs) ++ []) (sym q),
  inr refl,
)
send_out-Keeps bulk_lane video_lane m ms true p q =
    (p.bulk, sent_other bulk_lane video_lane m p.wire p.bulk refl, inr refl)
send_out-Keeps control_lane bulk_lane m ms true p q =
    (p.control, sent_other control_lane bulk_lane m p.wire p.control refl, inr refl)
send_out-Keeps video_lane bulk_lane m ms true p q =
    (p.video, sent_other video_lane bulk_lane m p.wire p.video refl, inr refl)
send_out-Keeps bulk_lane bulk_lane m ms true p q = (
  ms,
  sent_same bulk_lane bulk_lane m p.wire ms refl
      ∙ ap (λ qs. (of_lane bulk_lane p.wire ++ qs) ++ []) (sym q),
  inr refl,
)
send_out-Keeps l control_lane m ms false p q =
    (queue l p, sym (append-nil (of_lane l p.wire ++ queue l p)), inl refl)
send_out-Keeps l video_lane m ms false p q =
    (queue l p, sym (append-nil (of_lane l p.wire ++ queue l p)), inl refl)
send_out-Keeps l bulk_lane m ms false p q =
    (queue l p, sym (append-nil (of_lane l p.wire ++ queue l p)), inl refl)

-- What a round of the writer comes to; without one nothing changes.
abbrev pub after : LanPeer → Option LanPeer → LanPeer
after p o = elim o [ none ↦ p | some q ↦ q ]
