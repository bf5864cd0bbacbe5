-- ===== src/Protocol/Messages.antt =====
-- server-pc/src/protocol.rs: the JSON messages of the control plane, after parsing and before
-- printing; serde_json and the field names of the wire are not modelled. A `String` that a peer
-- chose is the list of its scalar values; an `f32` is its 32 bits; an `i32` is kept as `ℤ`.
use remote_control.Base.{ℕ, Bool, List, Option, String}
use remote_control.Base.Int.{ℤ}

pub data MouseButton : Type 0 where
  left right middle : MouseButton

pub record ClientInfo : Type 0 where
  pub name : List ℕ
  pub os : List ℕ
  pub app_version : List ℕ

pub data ClientMsg : Type 0 where
  hello : ℕ → List ℕ → List ℕ → ClientInfo → ClientMsg
  trusted_hello : ℕ → List ℕ → List ℕ → ClientInfo → ClientMsg
  ping : ℕ → ClientMsg
  stream_request : List ℕ → Option ℕ → Option ℕ → Option ℕ → ClientMsg
  stream_stop : Option (List ℕ) → ClientMsg
  keyframe_request : Option (List ℕ) → ClientMsg
  mouse_move : ℕ → ℕ → ClientMsg
  mouse_button : MouseButton → Bool → ClientMsg
  mouse_scroll : ℤ → ℤ → ClientMsg
  key_text : List ℕ → ClientMsg
  key_event : ℕ → Bool → ClientMsg
  clipboard_set : List ℕ → ClientMsg
  clipboard_get : ClientMsg
  file_transfer_begin : ℕ → List ℕ → ℕ → ClientMsg
  file_transfer_abort : ℕ → List ℕ → ClientMsg
  file_send_accepted : ℕ → List ℕ → ClientMsg
  file_send_complete : ℕ → List ℕ → ClientMsg
  file_send_failed : ℕ → List ℕ → ClientMsg

pub data ErrorCode : Type 0 where
  bad_pairing_code code_expired code_used version_mismatch malformed unknown_device : ErrorCode
  bad_trust_token stream_unavailable stream_already_running not_authenticated : ErrorCode
  input_unavailable key_event_invalid : ErrorCode

pub data StreamStopReason : Type 0 where
  client_requested encoder_error capture_error server_shutdown : StreamStopReason

-- The human-readable part of a message: a literal, or a literal with the values formatted into it.
pub data Reason : Type 0 where
  literal : String → Reason
  version : ℕ → Reason
  codec : List ℕ → Reason
  failure : String → Reason
  seq : ℕ → Reason

pub record ServerInfo : Type 0 where
  pub name : String
  pub os : String

pub record AudioMetadata : Type 0 where
  pub codec : String
  pub sample_rate : ℕ
  pub channels : ℕ
  pub frame_size_ms : ℕ
  pub bitrate_kbps : ℕ
  pub csd_0_b64 : List ℕ
  pub csd_1_b64 : List ℕ
  pub csd_2_b64 : List ℕ

-- The fields of `stream_started`, without the constant level and pixel format.
pub record StreamStarted : Type 0 where
  pub stream_id : List ℕ
  pub codec : String
  pub profile : String
  pub width : ℕ
  pub height : ℕ
  pub fps : ℕ
  pub bitrate_kbps : ℕ
  pub keyframe_interval_frames : ℕ
  pub started_at_unix_ms : ℕ
  pub audio : Option AudioMetadata

pub record Welcome : Type 0 where
  pub session : List ℕ
  pub server : ServerInfo
  pub hmac : List ℕ
  pub trust_token : Option (List ℕ)
  pub device_id : Option (List ℕ)

pub data ServerMsg : Type 0 where
  welcome : Welcome → ServerMsg
  error : ErrorCode → Reason → ServerMsg
  pong : ℕ → ServerMsg
  stream_started : StreamStarted → ServerMsg
  stream_stopped : List ℕ → StreamStopReason → Reason → ServerMsg
  clipboard_text : List ℕ → ServerMsg
  file_transfer_accepted : ℕ → List ℕ → ServerMsg
  file_transfer_complete : ℕ → List ℕ → ServerMsg
  file_transfer_failed : ℕ → Reason → ServerMsg
  file_send_begin : ℕ → List ℕ → ℕ → ServerMsg
