-- ===== src/Protocol.antt =====
-- server-pc/src/protocol.rs: the binary frames of the data plane. A slice is a list of bytes;
-- an index is read only below a length that the code has tested, so its default is never seen.
pub mod Frames
pub mod Messages
use remote_control.Base.{
  ℕ, suc, ◌+◌, ◌≢◌, Bool, true, false, List, [], ◌∷◌, ◌++◌, Option, none, some, not, ltb, ◌==◌,
  if◌then◌else◌, nat_eq, length, get_or, drop, take, bit_and, bit_or,
}
use remote_control.Base.Bytes.{le_bytes, of_le_bytes}

abbrev pub frame_header_len : ℕ
frame_header_len = 12

-- The constants of the modules `frame_type` and `frame_flags`.
abbrev pub video_type : ℕ
video_type = 0x01

abbrev pub audio_type : ℕ
audio_type = 0x02

abbrev pub file_type : ℕ
file_type = 0x03

abbrev pub keyframe_flag : ℕ
keyframe_flag = 1

abbrev pub config_flag : ℕ
config_flag = 2

abbrev pub last_chunk_flag : ℕ
last_chunk_flag = 1

unfoldable pub build_video_frame : List ℕ → ℕ → Bool → Bool → List ℕ
build_video_frame payload pts_us keyframe has_config =
    let flags = if keyframe then bit_or 0 keyframe_flag else 0 in
    let flags' = if has_config then bit_or flags config_flag else flags in
    video_type ∷ flags' ∷ 0 ∷ 0 ∷ (le_bytes 8 pts_us ++ payload)

unfoldable pub build_audio_frame : List ℕ → ℕ → List ℕ
build_audio_frame payload pts_us = audio_type ∷ 0 ∷ 0 ∷ 0 ∷ (le_bytes 8 pts_us ++ payload)

-- The frame type and the flags.
unfoldable pub peek_frame_header : List ℕ → Option (ℕ × ℕ)
peek_frame_header buf =
    if ltb (length buf) frame_header_len then none else some (get_or buf 0 0, get_or buf 1 0)

unfoldable pub build_file_chunk_frame : ℕ → ℕ → Bool → List ℕ → List ℕ
build_file_chunk_frame transfer_id chunk_seq last_chunk payload =
    file_type
    ∷ (if last_chunk then last_chunk_flag else 0)
    ∷ 0
    ∷ 0
    ∷ (le_bytes 4 transfer_id ++ (le_bytes 4 chunk_seq ++ payload))

pub record FileChunk : Type 0 where
  pub id : ℕ
  pub seq : ℕ
  pub is_last : Bool
  pub payload : List ℕ

unfoldable pub parse_file_chunk : List ℕ → Option FileChunk
parse_file_chunk buf =
    if ltb (length buf) frame_header_len
    then none
    else some (record {
      id = of_le_bytes (take 4 (drop 4 buf));
      seq = of_le_bytes (take 4 (drop 8 buf));
      is_last = not (bit_and (get_or buf 1 0) last_chunk_flag == 0);
      payload = drop frame_header_len buf;
    })
