-- ===== src/Tests/Http.antt =====
-- The PC's HTTP server and its end of the relay tunnel at concrete inputs.
use remote_control.Base.{
  ℕ, ◌≡◌, refl, ◌≢◌, ◌⊎◌, true, false, List, [], ◌∷◌, some, none, get, insert, list_eq, nat_eq,
  list_beq, ==_false, arith,
}
use remote_control.Base.Decimal.{parse_uint, parse_digits}
use remote_control.Base.Text.{codes}
use remote_control.Connection.Dispatch.{on_relay}
use remote_control.FileSend.{FileSendBridge, send, cancel, allocate_transfer_id}
use remote_control.Files.{FilePath}
use remote_control.QrServer.{Shared, Response, send_json}
use remote_control.QrServer.Cancel.{handle_cancel_send}
use remote_control.QrServer.Cancel.Reaches.{cancel_path, cancel_reaches}
use remote_control.QrServer.SendFile.{
  Headers, SendIo, Bridge, spool, out_of_fuel, temp_path, body_length, display_name, accepted_body,
  handle_send_file, get_header,
}
use remote_control.QrServer.SendFile.Outcome.{send_file_arrives, send_file_refused}
use remote_control.QrServer.SendFile.Spool.{spool_terminates}
use remote_control.RelayClient.Frame.{client_open, data_frame}
use remote_control.RelayClient.Sessions.{
  PhoneSession, new_tunnel, on_tunnel_frame, on_item, other_message, text_message, to_session,
  pump_round, on_pumped, pump_one,
}
use remote_control.RelayClient.Sessions.Hears.{heard, Throughout, session_hears}
use remote_control.RelayClient.Sessions.Happens.{
  Happening, comes, queues, pump_turn, returns, with_task, happen, happen_all, frames_of,
}
use remote_control.Base.Utf8.{is_utf8}
use remote_control.RelayClient.Sessions.Reachable.{started, reads}

abbrev io : SendIo
io = record {
  body = 5 ∷ 6 ∷ 7 ∷ [];
  body_ends = true;
  read_sizes = λ i. 1;
  writes = λ i. none;
  temp_dir = codes "C:\\Temp";
  uuid = codes "u";
  created = true;
  flushed = true;
  removed = true;
}

abbrev bridge : FileSendBridge
bridge = record { inner = some (4, 9); next_instance = 5; next_transfer_id = 3 }

abbrev shared : Shared
shared = record {
  pairing = record { code = []; key = []; created = 0; consumed = false };
  bridge = bridge;
  channels = (9, []) ∷ [];
  disk = [];
}

abbrev headers : Headers
headers = (codes "content-length", codes "3") ∷ []

abbrev later : Bridge
later = (bridge, (9, []) ∷ [])

abbrev same_text : List ℕ → List ℕ
same_text s = s

spool_terminates_example : spool 3 io 0 3 [] (5 ∷ 6 ∷ 7 ∷ []) ≢ out_of_fuel
spool_terminates_example = spool_terminates 3 io 0 3 [] (5 ∷ 6 ∷ 7 ∷ []) (omega arith)

send_file_arrives_example :
    ((handle_send_file same_text io headers later shared).1
      ≡ send_json 200 (codes "OK") (accepted_body (allocate_transfer_id bridge).1))
    × (get 9 (handle_send_file same_text io headers later shared).0.channels
        ≡ some (
            send (allocate_transfer_id bridge).1 (display_name same_text headers) 3 (temp_path io)
            ∷ []))
    × (get (temp_path io) (handle_send_file same_text io headers later shared).0.disk
        ≡ some (5 ∷ 6 ∷ 7 ∷ []))
unfolding body_length get_header parse_uint parse_digits get list_beq
send_file_arrives_example =
    send_file_arrives same_text io headers later shared 3 4 9 (4, 9) [] refl (omega arith) refl refl
      (λ j. refl) refl refl refl

abbrev refusal : Response
refusal = record {
  status = 400;
  status_text = codes "Bad Request";
  content_type = codes "application/json";
  extra_header = none;
  body = codes "{\"ok\":false,\"reason\":\"missing content-length\"}";
}

send_file_refused_example :
    ((p : FilePath) → get p (handle_send_file same_text io [] later shared).0.disk ≡ get p [])
    × (((handle_send_file same_text io [] later shared).0.channels ≡ (9, []) ∷ [])
        ⊎ ((handle_send_file same_text io [] later shared).0.channels ≡ (9, []) ∷ []))
unfolding handle_send_file body_length get_header send_json get
send_file_refused_example =
    send_file_refused same_text io [] later shared refl refl refusal refl (omega arith)

cancel_reaches_example :
    ((handle_cancel_send (cancel_path 3) shared).1
      ≡ send_json 200 (codes "OK") (codes "{\"ok\":true}"))
    × (get 9 (handle_cancel_send (cancel_path 3) shared).0.channels ≡ some (cancel 3 ∷ []))
unfolding get
cancel_reaches_example = cancel_reaches 3 4 9 [] shared (omega arith) refl refl

-- The session answers, its pump sends the answer on, and another phone comes.
abbrev traffic : List Happening
traffic =
    comes (data_frame (codes "a") true (codes "{}"))
    ∷ queues 0 (text_message (codes "{}") ∷ []) [] []
    ∷ pump_turn 0
    ∷ comes (client_open (codes "b"))
    ∷ returns 1
    ∷ comes (data_frame (codes "b") false (1 ∷ []))
    ∷ comes (data_frame (codes "a") false (2 ∷ []))
    ∷ []

session_hears_example :
    (t : PhoneSession) × (get 0
        (happen_all traffic
          (on_tunnel_frame (client_open (codes "a")) (on_item other_message new_tunnel))).tasks
      ≡ some t)
    × (t.inbox ≡ heard (codes "a") (frames_of traffic))
    × (on_relay t.label ≡ true)
unfolding on_item list_beq Throughout happen with_task on_tunnel_frame to_session pump_round
    on_pumped pump_one get insert is_utf8
session_hears_example =
    session_hears (codes "a") traffic (on_item other_message new_tunnel)
      (reads other_message new_tunnel started)
      (tt, (tt, (refl, (==_false (codes "a") (codes "b") refl, (tt, (tt, (tt, tt)))))))
