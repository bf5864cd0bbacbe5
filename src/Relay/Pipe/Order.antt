-- ===== src/Relay/Pipe/Order.antt =====
-- relay/src/main.rs: control messages and file chunks reach a phone whole and in order, and the queues
-- stay within their bounds, whatever video there is besides.
use remote_control.Base.{
  if_intro, ℕ, ◌≤◌, ◌≡◌, refl, Bool, true, false, List, [], ◌∷◌, ◌++◌, Option, ltb, nat_eq, length,
  length-append, All, All-append, append_assoc, append-nil, sym, ◌∙◌, arith,
}
use remote_control.Relay.Pipe.{
  PhoneOut, Pipe, new_pipe, WireOut, pong_out, must_deliver, try_send_fast, send_bulk, route,
  queue_pong, send_to_phone, send_pong, write_round, per_client_fast_cap, per_client_bulk_cap,
}
use remote_control.Relay.Pipe.History.{
  Event, routes, pings, writes, reader_ends, or_waits, step, run, taken, accepted, shown_one, shown,
  is_kept, kept, Healthy, IsFast, IsBulk, kept-append, shown-append, kept-shown_fast,
  kept-shown_bulk, send_to_phone-wire, send_to_phone_queues,
}

-- The two queues hold what belongs there, within their bounds.
abbrev pub Ok : Pipe → Type 0
Ok p =
    All IsFast p.fast
    × All IsBulk p.bulk
    × (length p.fast ≤ per_client_fast_cap)
    × (length p.bulk ≤ per_client_bulk_cap)

-- What the phone has of the bulk frames and what is still to come.
abbrev pub flow : Pipe → List WireOut
flow p = kept p.wire ++ shown p.bulk

try_send_fast-Ok : (out : PhoneOut) (p : Pipe) → IsFast out → Ok p → Ok (try_send_fast out p)
unfolding try_send_fast
try_send_fast-Ok out p m v =
    ground (arith, length-append p.fast (out ∷ []), All-append IsFast p.fast (out ∷ []))

route-Ok : (out : PhoneOut) (p : Pipe) → Ok p → Ok (or_waits p (route out p))
unfolding route send_bulk
route-Ok out p v =
    let P : Option Pipe → Type 0 = λ o. Ok (or_waits p o) in
    if_intro P (must_deliver out)
      (λ m.
        if_intro P p.writing
          (λ w.
            if_intro P (ltb (length p.bulk) per_client_bulk_cap)
              (λ y. (
                v.0,
                All-append IsBulk p.bulk (out ∷ []) v.1 (m, tt),
                v.2,
                ground (arith, length-append p.bulk (out ∷ [])),
              ))
              (λ n. v))
          (λ n. v))
      (λ m. try_send_fast-Ok out p m v)

route-flow :
    (out : PhoneOut) (p : Pipe)
    → flow (or_waits p (route out p)) ≡ flow p ++ shown (taken (routes out) p)
unfolding route send_bulk taken try_send_fast shown
route-flow out p = ground (
  arith,
  shown-append p.bulk (out ∷ []),
  append-nil (shown_one out),
  append_assoc (kept p.wire) (shown p.bulk) (shown_one out),
  append-nil (kept p.wire ++ shown p.bulk),
)

same_queues-Ok : (p q : Pipe) → (q.bulk ≡ p.bulk) × (q.fast ≡ p.fast) → Ok p → Ok q
same_queues-Ok p q e v = ground (arith, e)

-- A pipe by its fields, to match on the queues.
abbrev pipe_of : List (List ℕ) → Bool → List PhoneOut → List PhoneOut → Bool → List WireOut → Pipe
pipe_of pongs pong_open fast bulk writing wire = record {
  pongs = pongs;
  pong_open = pong_open;
  fast = fast;
  bulk = bulk;
  writing = writing;
  wire = wire;
}

abbrev RoundOk : Bool → Pipe → Type 0
RoundOk sent p = Ok p → Ok (or_waits p (write_round sent p))

abbrev RoundFlow : Pipe → Type 0
RoundFlow p = Ok p → flow (or_waits p (write_round true p)) ≡ flow p

round-Ok :
    (sent : Bool) (pongs : List (List ℕ)) (pong_open : Bool) (fast bulk : List PhoneOut)
    (writing : Bool) (wire : List WireOut)
    → RoundOk sent (pipe_of pongs pong_open fast bulk writing wire)
unfolding write_round send_pong
round-Ok sent (x ∷ pongs) c fast bulk w wire v = ground arith
round-Ok sent [] false fast bulk w wire v = v
round-Ok sent [] true (x ∷ fast) bulk w wire v =
    let p : Pipe = pipe_of [] true fast bulk w wire in
    same_queues-Ok p (send_to_phone x sent p) (send_to_phone_queues x sent p) (ground arith)
round-Ok sent [] true [] (x ∷ bulk) w wire v =
    let p : Pipe = pipe_of [] true [] bulk w wire in
    same_queues-Ok p (send_to_phone x sent p) (send_to_phone_queues x sent p) (ground arith)
round-Ok sent [] true [] [] w wire v = v

send_to_phone-flow :
    (out : PhoneOut) (p : Pipe)
    → flow (send_to_phone out true p) ≡ kept p.wire ++ (kept (shown_one out) ++ shown p.bulk)
send_to_phone-flow out p = rw (
  send_to_phone-wire out p,
  (send_to_phone_queues out true p).0,
  kept-append p.wire (shown_one out),
  append_assoc (kept p.wire) (kept (shown_one out)) (shown p.bulk),
)

round-flow :
    (pongs : List (List ℕ)) (pong_open : Bool) (fast bulk : List PhoneOut) (writing : Bool)
    (wire : List WireOut)
    → RoundFlow (pipe_of pongs pong_open fast bulk writing wire)
unfolding write_round send_pong shown kept is_kept
round-flow (x ∷ pongs) c fast bulk w wire v =
    rw (kept-append wire (pong_out x ∷ []), append-nil (kept wire))
round-flow [] false fast bulk w wire v = refl
round-flow [] true (x ∷ fast) bulk w wire v =
    send_to_phone-flow x (pipe_of [] true fast bulk w wire) ∙ rw (kept-shown_fast x (ground arith))
round-flow [] true [] (x ∷ bulk) w wire v =
    send_to_phone-flow x (pipe_of [] true [] bulk w wire) ∙ rw (kept-shown_bulk x (ground arith))
round-flow [] true [] [] w wire v = refl

queue_pong-flow : (payload : List ℕ) (p : Pipe) → flow (queue_pong payload p) ≡ flow p
unfolding queue_pong
queue_pong-flow payload p = ground arith

queue_pong-Ok : (payload : List ℕ) (p : Pipe) → Ok p → Ok (queue_pong payload p)
unfolding queue_pong
queue_pong-Ok payload p v = ground arith

step-Ok : (e : Event) (p : Pipe) → Ok p → Ok (step e p)
unfolding step
step-Ok (routes out) p v = route-Ok out p v
step-Ok (pings payload) p v = queue_pong-Ok payload p v
step-Ok (writes sent) p v =
    let next = round-Ok sent p.pongs p.pong_open p.fast p.bulk p.writing p.wire v in
    ground (arith, next)
step-Ok reader_ends p v = v

step-flow :
    (e : Event) (p : Pipe) → Ok p → Healthy e → flow (step e p) ≡ flow p ++ shown (taken e p)
unfolding step taken shown
step-flow (routes out) p v h = route-flow out p
step-flow (pings payload) p v h = queue_pong-flow payload p ∙ sym (append-nil (flow p))
step-flow (writes false) p v h = absurd h
step-flow (writes true) p v h =
    let next = round-flow p.pongs p.pong_open p.fast p.bulk p.writing p.wire v in
    ground (arith, next, append-nil (flow p))
step-flow reader_ends p v h = sym (append-nil (flow p))

-- Whatever frames, pings and writer rounds come, well or ill: the fast queue never holds more than 8
-- frames and no text or file chunk, and the bulk queue never more than 32 and nothing else.
pub run-Ok : (es : List Event) (p : Pipe) → Ok p → Ok (run es p)
unfolding run
run-Ok [] p v = v
run-Ok (e ∷ es) p v = run-Ok es (step e p) (step-Ok e p v)

run-flow :
    (es : List Event) (p : Pipe)
    → Ok p
    → All Healthy es
    → flow (run es p) ≡ flow p ++ shown (accepted es p)
unfolding run accepted shown
run-flow [] p v h = sym (append-nil (flow p))
run-flow (e ∷ es) p v (h, hs) =
    run-flow es (step e p) (step-Ok e p v) hs
    ∙ rw (step-flow e p v h, append_assoc (flow p), shown-append (taken e p))

-- From a new client on, while no send to the phone fails: the control messages and file chunks on the
-- phone's socket, followed by those that still wait in the bulk queue, are exactly those that the
-- queue took, whole, each once and in order, however much video, audio and pongs go out between. On
-- both sides a text that is not UTF-8 is left out: the queue takes it, and the writer skips it.
pub bulk_in_order :
    (es : List Event)
    → All Healthy es
    → kept (run es new_pipe).wire ++ shown (run es new_pipe).bulk ≡ shown (accepted es new_pipe)
unfolding new_pipe kept shown
bulk_in_order es h = run-flow es new_pipe (tt, tt, omega arith, omega arith) h
