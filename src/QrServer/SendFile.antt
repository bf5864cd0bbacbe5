-- ===== src/QrServer/SendFile.antt =====
-- server-pc/src/qr_server.rs: `handle_send_file`, an upload from the QR page to the phone.
pub mod Spool
pub mod Outcome
use remote_control.Base.{
  ℕ, zero, suc, ◌+◌, ◌-◌, ◌*◌, ◌^◌, Bool, true, false, List, [], ◌∷◌, ◌++◌, Option, none, some, not,
  ltb, ◌==◌, nat_eq, list_eq, if◌then◌else◌, min, take, drop, length, get, insert, remove,
}
use remote_control.Base.Decimal.{parse_uint, to_string}
use remote_control.Base.Text.{codes}
use remote_control.FileSend.{
  FileSendBridge, FileSendCmd, Channels, send, allocate_transfer_id, dispatch, dispatch_dry_run,
  DispatchError, no_session, session_gone,
}
use remote_control.Files.{FilePath, Disk, join}
use remote_control.QrServer.{Shared, Response, Reply, answers, fails, send_json}
use remote_control.QrServer.Percent.{percent_decode}

abbrev pub Headers : Type 0
Headers = List (List ℕ × List ℕ)

-- `headers.iter().find(…)`.
unfoldable pub get_header : List ℕ → Headers → Option (List ℕ)
get_header name [] = none
get_header name ((k, v) ∷ headers) = if k == name then some v else get_header name headers

abbrev pub max_spool_bytes : ℕ
max_spool_bytes = 5 * 1024 * 1024 * 1024

abbrev pub spool_buffer : ℕ
spool_buffer = 256 * 1024

-- What the system does during the request: the bytes of the body that arrive, whether the stream then
-- ends or fails, how much each read returns, after how many bytes each write fails if it does, and the file calls.
pub record SendIo : Type 0 where
  pub body : List ℕ
  pub body_ends : Bool
  pub read_sizes : ℕ → ℕ
  pub writes : ℕ → Option ℕ
  pub temp_dir : FilePath
  pub uuid : List ℕ
  pub created : Bool
  pub flushed : Bool
  pub removed : Bool

-- How the loop ends, with what the file then holds.
pub data Spooled : Type 0 where
  complete : List ℕ → Spooled
  closed_early : List ℕ → Spooled
  io_error : List ℕ → Spooled
  out_of_fuel : Spooled

-- A read with nothing left is the end of the stream, or an error.
abbrev pub at_end : SendIo → List ℕ → Spooled
at_end io file = if io.body_ends then closed_early file else io_error file

abbrev pub read_size : SendIo → ℕ → ℕ → ℕ
read_size io i remaining = min (suc (io.read_sizes i)) (min remaining spool_buffer)

-- `while remaining > 0`, on fuel. A read returns at least one byte, if one is there, and at most what is
-- left and the buffer holds.
unfoldable pub spool : ℕ → SendIo → ℕ → ℕ → List ℕ → List ℕ → Spooled
spool zero io i remaining file arriving = if remaining == 0 then complete file else out_of_fuel
spool (suc fuel) io i remaining file arriving =
    let chunk = take (read_size io i remaining) arriving in
    let rest =
      spool fuel io (suc i) (remaining - length chunk) (file ++ chunk)
        (drop (read_size io i remaining) arriving) in
    if remaining == 0
    then complete file
    else if length chunk == 0
    then at_end io file
    else elim (io.writes i) [ none ↦ rest | some n ↦ io_error (file ++ take n chunk) ]

abbrev pub temp_path : SendIo → FilePath
temp_path io = join io.temp_dir (codes "rc-send-" ++ (io.uuid ++ codes ".bin"))

unfoldable pub remove_spool : SendIo → Disk → Disk
remove_spool io disk = if io.removed then remove (temp_path io) disk else disk

unfoldable pub reason_text : DispatchError → List ℕ
reason_text no_session = codes "没有已连接的手机会话"
reason_text session_gone = codes "手机会话刚刚断开"

abbrev pub service_unavailable : List ℕ → Reply
service_unavailable reason =
    send_json 503 (codes "Service Unavailable")
      (codes "{\"ok\":false,\"reason\":\"" ++ (reason ++ codes "\"}"))

abbrev pub bad_request : List ℕ → Reply
bad_request reason =
    send_json 400 (codes "Bad Request")
      (codes "{\"ok\":false,\"reason\":\"" ++ (reason ++ codes "\"}"))

unfoldable pub accepted_body : ℕ → List ℕ
accepted_body id = codes "{\"ok\":true,\"id\":" ++ (to_string id ++ codes "}")

-- The length of the body, or the answer that refuses it.
pub data Length : Type 0 where
  length_ok : ℕ → Length
  refused : Reply → Length

unfoldable pub body_length : Headers → Length
body_length headers = elim (get_header (codes "content-length") headers) [
  | none ↦ refused (bad_request (codes "missing content-length"))
  | some text ↦ elim (parse_uint (2 ^ 64 - 1) text) [
    | none ↦ refused (bad_request (codes "bad content-length"))
    | some len ↦
        if len == 0
        then refused (bad_request (codes "empty file"))
        else if ltb max_spool_bytes len
        then refused (
            send_json 413 (codes "Payload Too Large")
              (codes "{\"ok\":false,\"reason\":\"文件超过 5 GiB 上限\"}"))
        else length_ok len
  ]
]

unfoldable pub display_name : (List ℕ → List ℕ) → Headers → List ℕ
display_name from_utf8_lossy headers = elim (get_header (codes "x-file-name") headers) [
  | none ↦ codes "upload.bin"
  | some s ↦ percent_decode from_utf8_lossy s
]

-- What `dispatch` returned decides the answer.
unfoldable pub answer :
    SendIo → ℕ → FileSendBridge → Shared → Channels × Option DispatchError → Shared × Reply
answer io id bridge sh (channels, none) = (
  record sh { bridge = bridge; channels = channels },
  send_json 200 (codes "OK") (accepted_body id),
)
answer io id bridge sh (channels, some reason) = (
  record sh { bridge = bridge; channels = channels; disk = remove_spool io sh.disk },
  service_unavailable (reason_text reason),
)

-- The end of the request, once the body is on the disk.
unfoldable pub hand_off : SendIo → List ℕ → ℕ → Shared → Shared × Reply
hand_off io name len sh =
    let (bridge, id) = allocate_transfer_id sh.bridge in
    answer io id bridge sh (dispatch bridge sh.channels (send id name len (temp_path io)))

-- The bridge and the queues behind it.
abbrev pub Bridge : Type 0
Bridge = FileSendBridge × Channels

abbrev pub with_bridge : Bridge → Shared → Shared
with_bridge later sh = record sh { bridge = later.0; channels = later.1 }

abbrev pub on_disk : SendIo → List ℕ → Shared → Shared
on_disk io file sh = record sh { disk = insert (temp_path io) file sh.disk }

-- After the loop. An error ends the connection and leaves the spool file.
unfoldable pub after_spool : SendIo → List ℕ → ℕ → Bridge → Spooled → Shared → Shared × Reply
after_spool io name len later (complete file) sh =
    if io.flushed
    then hand_off io name len (on_disk io file (with_bridge later sh))
    else (on_disk io file sh, fails)
after_spool io name len later (closed_early file) sh = (
  record sh { disk = remove_spool io (insert (temp_path io) file sh.disk) },
  bad_request (codes "client closed before body complete"),
)
after_spool io name len later (io_error file) sh = (on_disk io file sh, fails)
after_spool io name len later out_of_fuel sh = (sh, fails)

-- `later` is the bridge when the body is on the disk; other tasks may have changed it. The fuel is the length of the
-- body, which is enough.
unfoldable pub handle_send_file :
    (List ℕ → List ℕ) → SendIo → Headers → Bridge → Shared → Shared × Reply
handle_send_file from_utf8_lossy io headers later sh = elim (body_length headers) [
  | refused reply ↦ (sh, reply)
  | length_ok len ↦ elim (dispatch_dry_run sh.bridge) [
    | some reason ↦ (sh, service_unavailable (codes "没有已连接的手机会话"))
    | none ↦
        if io.created
        then after_spool io (display_name from_utf8_lossy headers) len later
            (spool len io 0 len [] io.body) sh
        else (sh, fails)
  ]
]
