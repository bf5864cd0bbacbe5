-- ===== src/RelayClient/Sessions/Reachable.antt =====
-- server-pc/src/relay_client.rs: the states that a tunnel comes to.
use remote_control.Base.{
  ℕ, ◌<◌, ◌≡◌, true, false, List, [], ◌∷◌, some, get, insert, get-insert, get-remove, nat_eq,
  list_eq, if◌then◌else◌, if_intro, option_intro, arith,
}
use remote_control.Base.Utf8.{is_utf8}
use remote_control.RelayClient.Frame.{TunnelFrame, client_open, client_close, data_frame, decode}
use remote_control.RelayClient.Sessions.{
  Message, text_message, binary_message, close_message, other_message, PhoneSession, Tunnel,
  new_tunnel, to_session, on_tunnel_frame, on_item, Pumped, frame, skip, stop, pump_one, end_pump,
  on_pumped, pump_round, session_ends,
}

-- The states of a tunnel: what the relay sends, what sessions put into their queues, rounds of the
-- pumps, and sessions that end, in any order.
pub data Reaches : Tunnel → Type 0 where
  started : Reaches new_tunnel
  reads : (item : Message) (s : Tunnel) → Reaches s → Reaches (on_item item s)
  fills :
      (h : ℕ) (t : PhoneSession) (control video bulk : List Message) (s : Tunnel)
      → Reaches s
      → Reaches (record s {
        tasks = insert h (record t { control = control; video = video; bulk = bulk }) s.tasks;
      })
  pumps : (h : ℕ) (t : PhoneSession) (s : Tunnel) → Reaches s → Reaches (pump_round h t s)
  ends : (h : ℕ) (t : PhoneSession) (s : Tunnel) → Reaches s → Reaches (session_ends h t s)

-- The sessions that the map leads to are older than the next one.
abbrev pub Below : Tunnel → Type 0
Below s = (d : List ℕ) (h : ℕ) → get d s.sessions ≡ some h → h < s.next

to_session-Below : (c : List ℕ) (msg : Message) (s : Tunnel) → Below s → Below (to_session c msg s)
unfolding to_session
to_session-Below c msg s v =
    option_intro Below (get c s.sessions) v (λ h e. option_intro Below (get h s.tasks) v (λ t f. v))

frame-Below : (f : TunnelFrame) (s : Tunnel) → Below s → Below (on_tunnel_frame f s)
unfolding on_tunnel_frame
frame-Below (client_open c) s v = λ d h e. ground (arith, get-insert c d s.next s.sessions, v d h)
frame-Below (client_close c) s v = λ d h e. v d h (ground (arith, get-remove c d s.sessions))
frame-Below (data_frame c true payload) s v =
    if_intro Below (is_utf8 payload) (λ b. to_session-Below c (text_message payload) s v) (λ b. v)
frame-Below (data_frame c false payload) s v = to_session-Below c (binary_message payload) s v

item-Below : (m : Message) (s : Tunnel) → Below s → Below (on_item m s)
unfolding on_item
item-Below (binary_message bytes) s v =
    option_intro Below (decode bytes) v (λ f e. frame-Below f s v)
item-Below close_message s v = v
item-Below (text_message bytes) s v = v
item-Below other_message s v = v

end_pump-Below : (h : ℕ) (t : PhoneSession) (s : Tunnel) → Below s → Below (end_pump h t s)
unfolding end_pump
end_pump-Below h t s v d g e = v d g (ground (arith, get-remove t.client_id d s.sessions))

pumped-Below :
    (h : ℕ) (t : PhoneSession) (p : Pumped) (s : Tunnel) → Below s → Below (on_pumped h t p s)
unfolding on_pumped
pumped-Below h t (frame f) s v = v
pumped-Below h t skip s v = v
pumped-Below h t stop s v = end_pump-Below h t s v

pump-Below : (h : ℕ) (t : PhoneSession) (s : Tunnel) → Below s → Below (pump_round h t s)
unfolding pump_round
pump-Below h t s v = by_control t.control
  where
    by_bulk :
        (l : List Message)
        → Below (elim l [
          | m ∷ bulk ↦ on_pumped h (record t { bulk = bulk }) (pump_one t.client_id m) s
          | [] ↦ s
        ])
    by_bulk [] = v
    by_bulk (m ∷ bulk) = pumped-Below h (record t { bulk = bulk }) (pump_one t.client_id m) s v

    by_video :
        (l : List Message)
        → Below (elim l [
          | m ∷ video ↦ on_pumped h (record t { video = video }) (pump_one t.client_id m) s
          | [] ↦ elim t.bulk [
            | m ∷ bulk ↦ on_pumped h (record t { bulk = bulk }) (pump_one t.client_id m) s
            | [] ↦ s
          ]
        ])
    by_video [] = by_bulk t.bulk
    by_video (m ∷ video) = pumped-Below h (record t { video = video }) (pump_one t.client_id m) s v

    by_control :
        (l : List Message)
        → Below (elim l [
          | m ∷ control ↦ on_pumped h (record t { control = control }) (pump_one t.client_id m) s
          | [] ↦ if t.ended then end_pump h t s else elim t.video [
            | m ∷ video ↦ on_pumped h (record t { video = video }) (pump_one t.client_id m) s
            | [] ↦ elim t.bulk [
              | m ∷ bulk ↦ on_pumped h (record t { bulk = bulk }) (pump_one t.client_id m) s
              | [] ↦ s
            ]
          ]
        ])
    by_control [] = if_intro Below t.ended (λ b. end_pump-Below h t s v) (λ b. by_video t.video)
    by_control (m ∷ control) =
        pumped-Below h (record t { control = control }) (pump_one t.client_id m) s v

pub reaches-Below : {s : Tunnel} → Reaches s → Below s
unfolding get session_ends
reaches-Below started = λ d h e. cc (e)
reaches-Below (reads item s r) = item-Below item s (reaches-Below r)
reaches-Below (fills h t control video bulk s r) = reaches-Below r
reaches-Below (pumps h t s r) = pump-Below h t s (reaches-Below r)
reaches-Below (ends h t s r) = reaches-Below r
