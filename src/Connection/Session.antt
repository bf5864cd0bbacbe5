-- ===== src/Connection/Session.antt =====
-- server-pc/src/connection.rs, `run_connection`: the loop over the events of one session, and the
-- clean-up at its end. A cancel flag that is shared with a streamer task is a number, and `cancelled`
-- holds the flags that were set.
pub mod CleanUp
pub mod Locked
use remote_control.Base.{
  ℕ, ◌+◌, Bool, true, false, List, [], ◌∷◌, ◌++◌, Option, none, some, ◌==◌, nat_eq, list_eq, Map,
  get, insert, remove, if◌then◌else◌,
}
use remote_control.Config.{Config}
use remote_control.Connection.Dispatch.{handle_client_msg, drop_stream}
use remote_control.Connection.State.{Peer, Answers, tell, send_error, set_disk}
use remote_control.Connection.Uploads.{
  FileTransferState, Uploads, BeginOutcome, WriteOutcome, handle_file_begin, handle_file_abort,
  handle_file_chunk, unlink,
}
use remote_control.Crypto.{Crypto}
use remote_control.Files.{Disk, FilePath}
use remote_control.FileSend.{FileSendBridge, FileSendCmd, send, cancel, register, deregister}
use remote_control.Protocol.{peek_frame_header, file_type}
use remote_control.Protocol.Messages.{
  ClientMsg, file_transfer_begin, file_transfer_abort, file_send_accepted, file_send_complete,
  file_send_failed, file_transfer_failed, file_send_begin, stream_stopped, encoder_error, malformed,
  literal,
}
use remote_control.Stream.{stop}
use remote_control.Trusted.{Json}

pub record FileSendState : Type 0 where
  pub name : List ℕ
  pub temp_path : FilePath
  pub expected_size : ℕ
  pub dest_path : Option (List ℕ)
  pub cancel_flag : ℕ

-- `channel` is the session's own `file_send_tx`; the bridge is shared with the other sessions.
pub record Session : Type 0 where
  pub peer : Peer
  pub sends : Map ℕ FileSendState
  pub next_flag : ℕ
  pub cancelled : List ℕ
  pub pongs : List (List ℕ)
  pub channel : ℕ
  pub bridge : FileSendBridge
  pub registration : Option ℕ

-- What the file system answers while one event is handled.
pub record IoOutcome : Type 0 where
  pub begin : BeginOutcome
  pub removed : Bool
  pub written : WriteOutcome

-- `try_send` to the video channel.
pub data TrySend : Type 0 where
  sent full closed : TrySend

pub data Event : Type 0 where
  idle_timeout transport_gone unparsable close_frame other_frame worker_exited : Event
  message : ClientMsg → Answers → IoOutcome → Event
  binary : List ℕ → IoOutcome → Event
  ping_frame : List ℕ → Event
  packet : TrySend → Event
  command : FileSendCmd → IoOutcome → Event

-- How an arm of the `select!` ends: at the bottom of the loop body, by `continue` or by `break`.
pub data Flow : Type 0 where
  falls_through continues breaks : Flow

abbrev pub Stepped : Type 0
Stepped = Session × Flow

abbrev pub set_uploads : Session → Uploads → Session
set_uploads s u = record s { peer = record s.peer { uploads = u } }

-- `tokio::fs::remove_file`, whose failure is ignored or logged.
abbrev pub delete : Session → FilePath → Bool → Session
delete s path removed = record s { peer = set_disk s.peer (unlink s.peer.disk path removed) }

unfoldable pub on_begin : ℕ → List ℕ → ℕ → IoOutcome → Session → Stepped
on_begin id name size io s =
    if s.peer.authenticated
    then (set_uploads s (handle_file_begin id name size io.begin s.peer.uploads), falls_through)
    else (
      record s { peer = tell s.peer (file_transfer_failed id (literal "not authenticated")) },
      continues,
    )

unfoldable pub on_accepted : ℕ → List ℕ → Session → Session
on_accepted id dest s = elim (get id s.sends) [
  | none ↦ s
  | some st ↦ record s { sends = insert id (record st { dest_path = some dest }) s.sends }
]

unfoldable pub on_complete : ℕ → IoOutcome → Session → Session
on_complete id io s = elim (get id s.sends) [
  | none ↦ s
  | some st ↦ delete (record s { sends = remove id s.sends }) st.temp_path io.removed
]

-- A send that the phone reports as failed, or that the user cancels.
unfoldable pub on_failed : ℕ → IoOutcome → Session → Session
on_failed id io s = elim (get id s.sends) [
  | none ↦ s
  | some st ↦
      delete (record s { sends = remove id s.sends; cancelled = st.cancel_flag ∷ s.cancelled })
        st.temp_path io.removed
]

-- The new task gets a fresh flag.
unfoldable pub dispatch_file_send_cmd : ℕ → List ℕ → ℕ → FilePath → Session → Session
dispatch_file_send_cmd id name size temp_path s = record s {
  sends =
      insert id
        (record {
          name = name;
          temp_path = temp_path;
          expected_size = size;
          dest_path = none;
          cancel_flag = s.next_flag;
        })
        s.sends;
  next_flag = s.next_flag + 1;
  peer = tell s.peer (file_send_begin id name size);
}

unfoldable pub on_command : FileSendCmd → IoOutcome → Session → Session
on_command (send id name size temp_path) io s = dispatch_file_send_cmd id name size temp_path s
on_command (cancel id) io s = on_failed id io s

-- A command that comes before the authentication is dropped with its spool file.
unfoldable pub drop_command : FileSendCmd → IoOutcome → Session → Session
drop_command (send id name size temp_path) io s = delete s temp_path io.removed
drop_command (cancel id) io s = s

unfoldable pub on_binary : List ℕ → IoOutcome → Session → Session
on_binary bytes io s = elim (peek_frame_header bytes) [
  | none ↦ s
  | some (t, flags) ↦
      if t == file_type
      then set_uploads s (handle_file_chunk bytes io.written io.removed s.peer.uploads)
      else s
]

unfoldable pub on_worker_exit : Session → Session
on_worker_exit s = elim s.peer.active_stream [
  | none ↦ s
  | some handle ↦ record s {
    peer =
        tell (drop_stream s.peer)
          (stream_stopped handle.stream_id encoder_error (literal "stream worker exited"));
  }
]

abbrev pub goes_on : Bool → Flow
goes_on on = if on then falls_through else breaks

unfoldable pub on_message :
    Crypto → Json → Config → ClientMsg → Answers → IoOutcome → Session → Stepped
on_message crypto json cfg (file_transfer_begin id name size) a io s = on_begin id name size io s
on_message crypto json cfg (file_transfer_abort id why) a io s =
    (set_uploads s (handle_file_abort id io.removed s.peer.uploads), falls_through)
on_message crypto json cfg (file_send_accepted id dest) a io s =
    (on_accepted id dest s, falls_through)
on_message crypto json cfg (file_send_complete id dest) a io s =
    (on_complete id io s, falls_through)
on_message crypto json cfg (file_send_failed id why) a io s = (on_failed id io s, falls_through)
on_message crypto json cfg other a io s =
    let (p, on) = handle_client_msg crypto json cfg other a s.peer in
    (record s { peer = p }, goes_on on)

unfoldable pub handle : Crypto → Json → Config → Event → Session → Stepped
handle crypto json cfg idle_timeout s = (s, breaks)
handle crypto json cfg transport_gone s = (s, breaks)
handle crypto json cfg unparsable s =
    (record s { peer = send_error s.peer malformed (literal "cannot parse message") }, breaks)
handle crypto json cfg close_frame s = (s, breaks)
handle crypto json cfg other_frame s = (s, falls_through)
handle crypto json cfg worker_exited s = (on_worker_exit s, continues)
handle crypto json cfg (message m a io) s = on_message crypto json cfg m a io s
handle crypto json cfg (binary bytes io) s =
    if s.peer.authenticated then (on_binary bytes io s, falls_through) else (s, continues)
handle crypto json cfg (ping_frame p) s = (record s { pongs = s.pongs ++ (p ∷ []) }, falls_through)
handle crypto json cfg (packet sent) s = (s, falls_through)
handle crypto json cfg (packet full) s = (s, falls_through)
handle crypto json cfg (packet closed) s = (s, breaks)
handle crypto json cfg (command c io) s =
    if s.peer.authenticated
    then (on_command c io s, falls_through)
    else (drop_command c io s, continues)

-- The bottom of the loop body: the slot is claimed once the peer is authenticated.
unfoldable pub claim : Session → Session
claim s = elim s.registration [
  | some r ↦ s
  | none ↦
      let (b, r) = register s.bridge s.channel in
      if s.peer.authenticated then record s { bridge = b; registration = some r } else s
]

-- The loops over `drain()`: each entry's file is removed, with the given outcome.
unfoldable pub drain {ℓ} : {V : Type ℓ} → (V → FilePath) → Map ℕ V → (ℕ → Bool) → Disk → Disk
drain path_of [] removed disk = disk
drain path_of ((id, st) ∷ rest) removed disk =
    drain path_of rest removed (unlink disk (path_of st) (removed id))

unfoldable pub flags : Map ℕ FileSendState → List ℕ
flags [] = []
flags ((id, st) ∷ rest) = st.cancel_flag ∷ flags rest

unfoldable pub release : Option ℕ → FileSendBridge → FileSendBridge
release none b = b
release (some r) b = deregister b r

-- What follows the loop.
unfoldable pub tear_down : (ℕ → Bool) → (ℕ → Bool) → Session → Session
tear_down upload_removed send_removed s =
    let p = drop_stream s.peer in
    let disk = drain (λ st. st.dest_path) p.transfers upload_removed p.disk in
    record s {
      peer = record p {
        uploads = record p.uploads {
          transfers = [];
          disk = drain (λ st. st.temp_path) s.sends send_removed disk;
        };
      };
      sends = [];
      cancelled = flags s.sends ++ s.cancelled;
      bridge = release s.registration s.bridge;
      registration = none;
    }

-- What follows an arm: the bottom of the body and the next round, the next round, or the end.
abbrev pub by_flow : Flow → Session × Bool → Session × Bool → Session × Bool → Session × Bool
by_flow falls_through after_body next_round left = after_body
by_flow continues after_body next_round left = next_round
by_flow breaks after_body next_round left = left

-- The session after its events, and whether the loop was left.
unfoldable pub run_loop : Crypto → Json → Config → List Event → Session → Session × Bool
run_loop crypto json cfg [] s = (s, false)
run_loop crypto json cfg (e ∷ es) s =
    let (s', flow) = handle crypto json cfg e s in
    by_flow flow (run_loop crypto json cfg es (claim s')) (run_loop crypto json cfg es s')
      (s', true)
