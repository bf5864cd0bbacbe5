-- ===== src/Connection/Dispatch.antt =====
-- server-pc/src/connection.rs, `handle_client_msg` (on Windows) and the messages it answers with.
pub mod Access
pub mod Streams
pub mod Limits
use remote_control.Base.{
  ℕ, Bool, true, false, List, [], ◌∷◌, Option, none, some, max, min, String, if◌then◌else◌, ◌==◌,
  list_eq, nat_eq,
}
use remote_control.Base.Text.{codes, starts_with, to_ascii_lowercase}
use remote_control.Config.{Config}
use remote_control.Connection.Handshake.{Handled, refuse, handle_hello, handle_trusted_hello}
use remote_control.Connection.State.{
  Peer, Answers, tell, send_error, inject, InputCall, move_to, button, scroll, type_unicode, vkey,
  write_text,
}
use remote_control.Crypto.{Crypto}
use remote_control.Protocol.Messages.{
  ClientMsg, hello, trusted_hello, ping, stream_request, stream_stop, keyframe_request, mouse_move,
  mouse_button, mouse_scroll, key_text, key_event, clipboard_set, clipboard_get,
  file_transfer_begin, file_transfer_abort, file_send_accepted, file_send_complete,
  file_send_failed, pong, stream_started, stream_stopped, client_requested, clipboard_text,
  not_authenticated, stream_unavailable, stream_already_running, literal, codec, failure,
  StreamStarted,
}
use remote_control.Stream.{
  RequestedCodec, h264, hevc, StreamRequestParams, StreamHandle, start_stream, stop, force_keyframe,
  unwrap_or,
}
use remote_control.Trusted.{Json}

unfoldable pub requested_codec : List ℕ → Option RequestedCodec
requested_codec name =
    let lower = to_ascii_lowercase name in
    if lower == codes "h264"
    then some h264
    else if lower == codes "hevc"
    then some hevc
    else if lower == codes "h265"
    then some hevc
    else none

unfoldable pub on_relay : List ℕ → Bool
on_relay label = starts_with (codes "relay/") label

-- The bandwidth budget of the relay.
unfoldable pub relay_params :
    Bool → RequestedCodec → Option ℕ → Option ℕ → Option ℕ → StreamRequestParams
relay_params relayed c max_bitrate_kbps max_fps interval = record {
  codec = c;
  max_bitrate_kbps =
      if relayed then some (min (unwrap_or max_bitrate_kbps 30000) 3000) else max_bitrate_kbps;
  max_fps = max_fps;
  keyframe_interval_ms = if relayed then some (max (unwrap_or interval 1000) 2000) else interval;
}

unfoldable pub started : StreamHandle → StreamStarted
started handle = record {
  stream_id = handle.stream_id;
  codec = handle.codec_wire_name;
  profile = handle.profile;
  width = handle.width;
  height = handle.height;
  fps = handle.fps;
  bitrate_kbps = handle.bitrate_kbps;
  keyframe_interval_frames = handle.keyframe_interval_frames;
  started_at_unix_ms = handle.started_at_unix_ms;
  audio = handle.audio_metadata;
}

unfoldable pub start : StreamRequestParams → Answers → Peer → Peer
start params a p = elim (start_stream params a.stream) [
  | some handle ↦ record (tell p (stream_started (started handle))) { active_stream = some handle }
  | none ↦ send_error p stream_unavailable (failure "could not start stream")
]

unfoldable pub handle_stream_request :
    List ℕ → Option ℕ → Option ℕ → Option ℕ → Answers → Peer → Peer
handle_stream_request name bitrate fps interval a p = elim (requested_codec name) [
  | none ↦ send_error p stream_unavailable (codec name)
  | some c ↦ elim p.active_stream [
    | some handle ↦ send_error p stream_already_running (literal "stop the current stream first")
    | none ↦ start (relay_params (on_relay p.label) c bitrate fps interval) a p
  ]
]

-- Dropping the handle stops the stream.
unfoldable pub drop_stream : Peer → Peer
drop_stream p = elim p.active_stream [
  | none ↦ p
  | some handle ↦ record p { active_stream = none; stopped = stop handle ∷ p.stopped }
]

unfoldable pub handle_stream_stop : Peer → Peer
handle_stream_stop p = elim p.active_stream [
  | none ↦ p
  | some handle ↦
      tell (drop_stream p) (stream_stopped handle.stream_id client_requested (literal ""))
]

unfoldable pub handle_keyframe_request : Peer → Peer
handle_keyframe_request p = elim p.active_stream [
  | none ↦ p
  | some handle ↦ record p { active_stream = some (force_keyframe handle) }
]

-- What only an authenticated peer may ask.
unfoldable pub guarded : Peer → Peer → Handled
guarded p done =
    if p.authenticated then (done, true) else refuse p not_authenticated (literal "hello first")

unfoldable pub handle_client_msg : Crypto → Json → Config → ClientMsg → Answers → Peer → Handled
handle_client_msg crypto json cfg (hello v c nonce client) a p =
    handle_hello crypto json cfg v c nonce client a p
handle_client_msg crypto json cfg (trusted_hello v device_id token client) a p =
    handle_trusted_hello crypto json cfg v device_id token a p
handle_client_msg crypto json cfg (ping ts) a p = guarded p (tell p (pong ts))
handle_client_msg crypto json cfg (stream_request name bitrate fps interval) a p =
    guarded p (handle_stream_request name bitrate fps interval a p)
handle_client_msg crypto json cfg (stream_stop id) a p = (handle_stream_stop p, true)
handle_client_msg crypto json cfg (keyframe_request id) a p = (handle_keyframe_request p, true)
handle_client_msg crypto json cfg (mouse_move x y) a p = (inject p (move_to x y), true)
handle_client_msg crypto json cfg (mouse_button b down) a p = (inject p (button b down), true)
handle_client_msg crypto json cfg (mouse_scroll dx dy) a p = (inject p (scroll dx dy), true)
handle_client_msg crypto json cfg (key_text text) a p = (inject p (type_unicode text), true)
handle_client_msg crypto json cfg (key_event vk down) a p = (inject p (vkey vk down), true)
handle_client_msg crypto json cfg (clipboard_set text) a p = (inject p (write_text text), true)
handle_client_msg crypto json cfg clipboard_get a p =
    (tell p (clipboard_text (unwrap_or a.clipboard [])), true)
handle_client_msg crypto json cfg (file_transfer_begin id name size) a p = (p, true)
handle_client_msg crypto json cfg (file_transfer_abort id why) a p = (p, true)
handle_client_msg crypto json cfg (file_send_accepted id dest) a p = (p, true)
handle_client_msg crypto json cfg (file_send_complete id dest) a p = (p, true)
handle_client_msg crypto json cfg (file_send_failed id why) a p = (p, true)
