-- ===== src/Relay/Pipe.antt =====
-- relay/src/main.rs: the two bounded queues of one phone, the choice between them in `host_loop`, and
-- the writer task of `client_loop` with `send_to_phone`. A `text` message is kept as its bytes.
pub mod History
pub mod Order
use remote_control.Base.{
  ℕ, ◌+◌, Bool, true, false, List, [], ◌∷◌, ◌++◌, Option, none, some, ltb, ◌||◌, ◌==◌, nat_eq,
  get_or, length, if◌then◌else◌,
}
use remote_control.Base.Utf8.{is_utf8}

pub record PhoneOut : Type 0 where
  pub bytes : List ℕ
  pub text : Bool

abbrev pub per_client_fast_cap : ℕ
per_client_fast_cap = 8

abbrev pub per_client_bulk_cap : ℕ
per_client_bulk_cap = 32

-- What the writer puts on the phone's WebSocket.
pub data WireOut : Type 0 where
  text_out binary_out pong_out : List ℕ → WireOut

-- `pong_open` is the reader's `pong_tx`; `writing` the writer task; `wire` what the phone was sent.
pub record Pipe : Type 0 where
  pub pongs : List (List ℕ)
  pub pong_open : Bool
  pub fast : List PhoneOut
  pub bulk : List PhoneOut
  pub writing : Bool
  pub wire : List WireOut

unfoldable pub new_pipe : Pipe
new_pipe = record { pongs = []; pong_open = true; fast = []; bulk = []; writing = true; wire = [] }

abbrev pub frame_type_file : ℕ
frame_type_file = 3

-- `payload.first().copied().unwrap_or(0)` decides, but for text.
unfoldable pub must_deliver : PhoneOut → Bool
must_deliver out = out.text || get_or out.bytes 0 0 == frame_type_file

-- `chans.fast.try_send`: dropped where the queue is full or closed.
unfoldable pub try_send_fast : PhoneOut → Pipe → Pipe
try_send_fast out p =
    if p.writing
    then (if ltb (length p.fast) per_client_fast_cap
        then record p { fast = p.fast ++ (out ∷ []) }
        else p)
    else p

-- `chans.bulk.send(out).await`: `none` while the call waits for room. On a closed queue it returns an
-- error that is ignored.
unfoldable pub send_bulk : PhoneOut → Pipe → Option Pipe
send_bulk out p =
    if p.writing
    then (if ltb (length p.bulk) per_client_bulk_cap
        then some (record p { bulk = p.bulk ++ (out ∷ []) })
        else none)
    else some p

unfoldable pub route : PhoneOut → Pipe → Option Pipe
route out p = if must_deliver out then send_bulk out p else some (try_send_fast out p)

-- A ping of the phone; on an unbounded channel.
unfoldable pub queue_pong : List ℕ → Pipe → Pipe
queue_pong payload p = if p.writing then record p { pongs = p.pongs ++ (payload ∷ []) } else p

-- `send_to_phone`, where the send goes well or not. Text that is not UTF-8 is skipped.
unfoldable pub send_to_phone : PhoneOut → Bool → Pipe → Pipe
send_to_phone out sent p =
    if out.text
    then (if is_utf8 out.bytes
        then (if sent
            then record p { wire = p.wire ++ (text_out out.bytes ∷ []) }
            else record p { writing = false })
        else p)
    else if sent
    then record p { wire = p.wire ++ (binary_out out.bytes ∷ []) }
    else record p { writing = false }

unfoldable pub send_pong : List ℕ → Bool → Pipe → Pipe
send_pong payload sent p =
    if sent
    then record p { wire = p.wire ++ (pong_out payload ∷ []) }
    else record p { writing = false }

-- One round of the writer's biased `select!`: pongs first, then the fast queue, then the bulk queue.
-- The pong channel ends the task when it is closed and empty. `none` while nothing is there.
unfoldable pub write_round : Bool → Pipe → Option Pipe
write_round sent p = elim p.pongs [
  | payload ∷ pongs ↦ some (send_pong payload sent (record p { pongs = pongs }))
  | [] ↦
      if p.pong_open
      then elim p.fast [
        | out ∷ fast ↦ some (send_to_phone out sent (record p { fast = fast }))
        | [] ↦ elim p.bulk [
          | out ∷ bulk ↦ some (send_to_phone out sent (record p { bulk = bulk }))
          | [] ↦ none
        ]
      ]
      else some (record p { writing = false })
]
