-- ===== src/Stream.antt =====
-- server-pc/src/stream.rs: the parameters of a stream, the choice of the encoder and the handle. The
-- capture and the encoders are graphics libraries; what their constructors answer is an argument.
pub mod Limits
pub mod Video
pub mod Audio
use remote_control.Base.{
  ℕ, zero, suc, ◌+◌, ◌*◌, ◌/◌, ◌≡◌, Bool, true, false, ◌&&◌, List, [], ◌∷◌, Option, none, some, max,
  min, String, if◌then◌else◌, ltb,
}
use remote_control.Protocol.Messages.{AudioMetadata}
use remote_control.Stream.Audio.{audio_metadata}

pub data RequestedCodec : Type 0 where
  h264 hevc : RequestedCodec

pub record StreamRequestParams : Type 0 where
  pub codec : RequestedCodec
  pub max_bitrate_kbps : Option ℕ
  pub max_fps : Option ℕ
  pub keyframe_interval_ms : Option ℕ

-- The handle without its packet channel; the two shared flags are fields.
pub record StreamHandle : Type 0 where
  pub stream_id : List ℕ
  pub width : ℕ
  pub height : ℕ
  pub fps : ℕ
  pub bitrate_kbps : ℕ
  pub keyframe_interval_frames : ℕ
  pub profile : String
  pub codec_wire_name : String
  pub started_at_unix_ms : ℕ
  pub audio_metadata : Option AudioMetadata
  pub force_keyframe_flag : Bool
  pub stop_flag : Bool

unfoldable pub force_keyframe : StreamHandle → StreamHandle
force_keyframe handle = record handle { force_keyframe_flag = true }

unfoldable pub stop : StreamHandle → StreamHandle
stop handle = record handle { stop_flag = true }

-- `Ord::clamp`.
abbrev pub clamp : ℕ → ℕ → ℕ → ℕ
clamp x lo hi = if ltb x lo then lo else if ltb hi x then hi else x

abbrev pub unwrap_or {ℓ} : {A : Type ℓ} → Option A → A → A
unwrap_or none d = d
unwrap_or (some x) d = x

pub record EncoderConfig : Type 0 where
  pub width : ℕ
  pub height : ℕ
  pub fps : ℕ
  pub bitrate_kbps : ℕ
  pub keyframe_interval_frames : ℕ

-- The product of two `u32` numbers stays below 2^32, by the clamps (`Limits.stream_limits`).
unfoldable pub encoder_config : StreamRequestParams → ℕ → ℕ → EncoderConfig
encoder_config req width height =
    let fps = clamp (unwrap_or req.max_fps 60) 15 60 in
    let kf_interval_ms = clamp (unwrap_or req.keyframe_interval_ms 1000) 200 10000 in
    record {
      width = width;
      height = height;
      fps = fps;
      bitrate_kbps = clamp (unwrap_or req.max_bitrate_kbps 16000) 1000 50000;
      keyframe_interval_frames = max (kf_interval_ms * fps / 1000) 1;
    }

abbrev pub attempts : ℕ
attempts = 15

-- The loop over `DxgiCapture::new`, on the answers of the attempts it still makes.
unfoldable pub capture_retry {ℓ} : {C : Type ℓ} → ℕ → (ℕ → Option C) → Option C
capture_retry zero answer = none
capture_retry (suc left) answer =
    let rest = capture_retry left (λ k. answer (suc k)) in
    elim (answer 0) [ some c ↦ some c | none ↦ rest ]

pub data EncoderSlot : Type 0 where
  gpu_sdk : EncoderSlot
  cpu_mft_h264 cpu_mft_hevc cpu_software : EncoderSlot

-- Which of the constructors succeed.
pub record Backends : Type 0 where
  pub nvenc_sdk : Bool
  pub nvenc_mft : Bool
  pub nvenc_mft_hevc : Bool
  pub software : Bool

abbrev h264_fallback : Backends → Option EncoderSlot
h264_fallback b =
    if b.nvenc_mft then some cpu_mft_h264 else if b.software then some cpu_software else none

unfoldable pub choose_encoder : RequestedCodec → Backends → Option EncoderSlot
choose_encoder h264 b = if b.nvenc_sdk then some gpu_sdk else h264_fallback b
choose_encoder hevc b =
    if b.nvenc_mft_hevc
    then some cpu_mft_hevc
    else if b.nvenc_sdk
    then some gpu_sdk
    else h264_fallback b

unfoldable pub codec_wire : EncoderSlot → String
codec_wire gpu_sdk = "h264"
codec_wire cpu_mft_h264 = "h264"
codec_wire cpu_mft_hevc = "hevc"
codec_wire cpu_software = "h264"

-- What `start_stream` meets: the dimensions that each attempt to duplicate the desktop gives, the
-- encoders that can be made, which of the audio capture and its encoder come up, which of the two threads
-- can be started, the base64 function, the fresh id and the time.
pub record StreamAnswers : Type 0 where
  pub captures : ℕ → Option (ℕ × ℕ)
  pub backends : Backends
  pub wasapi : Bool
  pub opus : Bool
  pub video_spawned : Bool
  pub audio_spawned : Bool
  pub base64_encode : List ℕ → List ℕ
  pub stream_id : List ℕ
  pub now_ms : ℕ

abbrev audio_pair : StreamAnswers → Bool
audio_pair answers = answers.wasapi && answers.opus

-- Whether the two spawns succeed; without an audio pair there is no thread for it.
unfoldable pub threads_start : StreamAnswers → Bool
threads_start answers =
    answers.video_spawned && (if audio_pair answers then answers.audio_spawned else true)

-- Where a thread cannot be started the error is returned, and no handle. A video thread that has started
-- by then ends by itself, as the receiver of its packets is gone.
unfoldable pub start_stream : StreamRequestParams → StreamAnswers → Option StreamHandle
start_stream req answers = elim (capture_retry attempts answers.captures) [
  | none ↦ none
  | some (width, height) ↦ elim (choose_encoder req.codec answers.backends) [
    | none ↦ none
    | some encoder ↦
        let cfg = encoder_config req width height in
        if threads_start answers
        then some (record {
          stream_id = answers.stream_id;
          width = cfg.width;
          height = cfg.height;
          fps = cfg.fps;
          bitrate_kbps = cfg.bitrate_kbps;
          keyframe_interval_frames = cfg.keyframe_interval_frames;
          profile = "high";
          codec_wire_name = codec_wire encoder;
          started_at_unix_ms = answers.now_ms;
          audio_metadata =
              if audio_pair answers then some (audio_metadata answers.base64_encode) else none;
          force_keyframe_flag = false;
          stop_flag = false;
        })
        else none
  ]
]
