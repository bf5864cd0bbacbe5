-- ===== src/Relay/Pipe/History.antt =====
-- relay/src/main.rs: what happens to the queues of one phone over time, and what the phone is shown.
use remote_control.Base.{
  ℕ, ◌≡◌, refl, Bool, true, false, List, [], ◌∷◌, ◌++◌, Option, none, some, ltb, ◌==◌, nat_eq,
  get_or, length, if◌then◌else◌, append_assoc, append-nil, sym, arith,
}
use remote_control.Base.Utf8.{is_utf8}
use remote_control.Relay.Pipe.{
  PhoneOut, Pipe, WireOut, text_out, binary_out, pong_out, must_deliver, frame_type_file, route,
  queue_pong, send_to_phone, write_round, per_client_bulk_cap,
}

-- What happens to a pipe: a frame from the PC, a ping, a round of the writer and how its send went, and
-- the end of the phone's reader.
pub data Event : Type 0 where
  routes : PhoneOut → Event
  pings : List ℕ → Event
  writes : Bool → Event
  reader_ends : Event

abbrev pub or_waits : Pipe → Option Pipe → Pipe
or_waits p none = p
or_waits p (some q) = q

-- A call that has to wait changes nothing.
unfoldable pub step : Event → Pipe → Pipe
step (routes out) p = or_waits p (route out p)
step (pings payload) p = queue_pong payload p
step (writes sent) p = if p.writing then or_waits p (write_round sent p) else p
step reader_ends p = record p { pong_open = false }

unfoldable pub run : List Event → Pipe → Pipe
run [] p = p
run (e ∷ es) p = run es (step e p)

-- The frames that the bulk queue takes.
unfoldable pub taken : Event → Pipe → List PhoneOut
taken (routes out) p =
    if must_deliver out
    then (if p.writing
        then (if ltb (length p.bulk) per_client_bulk_cap then out ∷ [] else [])
        else [])
    else []
taken _ p = []

unfoldable pub accepted : List Event → Pipe → List PhoneOut
accepted [] p = []
accepted (e ∷ es) p = taken e p ++ accepted es (step e p)

-- A frame as the phone sees it.
unfoldable pub shown_one : PhoneOut → List WireOut
shown_one out =
    if out.text
    then (if is_utf8 out.bytes then text_out out.bytes ∷ [] else [])
    else binary_out out.bytes ∷ []

unfoldable pub shown : List PhoneOut → List WireOut
shown [] = []
shown (out ∷ outs) = shown_one out ++ shown outs

-- The messages on the wire that are not video, audio or pongs.
unfoldable pub is_kept : WireOut → Bool
is_kept (text_out bytes) = true
is_kept (binary_out bytes) = get_or bytes 0 0 == frame_type_file
is_kept (pong_out payload) = false

unfoldable pub kept : List WireOut → List WireOut
kept [] = []
kept (w ∷ ws) = if is_kept w then w ∷ kept ws else kept ws

abbrev pub Healthy : Event → Type 0
Healthy (writes false) = ⊥
Healthy _ = Unit

abbrev pub IsFast : PhoneOut → Type 0
IsFast out = must_deliver out ≡ false

abbrev pub IsBulk : PhoneOut → Type 0
IsBulk out = must_deliver out ≡ true

pub kept-append : (xs ys : List WireOut) → kept (xs ++ ys) ≡ kept xs ++ kept ys
unfolding kept
kept-append [] ys = refl
kept-append (x ∷ xs) ys = ground (arith, kept-append xs ys)

pub shown-append : (xs ys : List PhoneOut) → shown (xs ++ ys) ≡ shown xs ++ shown ys
unfolding shown
shown-append [] ys = refl
shown-append (x ∷ xs) ys =
    rw (shown-append xs ys) (sym (append_assoc (shown_one x) (shown xs) (shown ys)))

pub kept-shown_fast : (out : PhoneOut) → IsFast out → kept (shown_one out) ≡ []
unfolding kept shown_one is_kept must_deliver
kept-shown_fast out h = ground arith

pub kept-shown_bulk : (out : PhoneOut) → IsBulk out → kept (shown_one out) ≡ shown_one out
unfolding kept shown_one is_kept must_deliver
kept-shown_bulk out h = ground arith

-- A send that goes well adds the frame to the wire and changes nothing else.
pub send_to_phone-wire :
    (out : PhoneOut) (p : Pipe) → (send_to_phone out true p).wire ≡ p.wire ++ shown_one out
unfolding send_to_phone shown_one
send_to_phone-wire out p = ground (arith, append-nil p.wire)

pub send_to_phone_queues :
    (out : PhoneOut) (sent : Bool) (p : Pipe)
    → ((send_to_phone out sent p).bulk ≡ p.bulk) × ((send_to_phone out sent p).fast ≡ p.fast)
unfolding send_to_phone
send_to_phone_queues out sent p = (ground arith, ground arith)
