-- ===== src/Protocol/Frames.antt =====
-- The frame builders of server-pc/src/protocol.rs against its parsers.
use remote_control.Base.{
  ℕ, ◌+◌, ◌≡◌, Bool, true, false, List, some, length, arith, bit_and, take, drop, ◌↔◌,
}
use remote_control.Base.Bytes.{IsU32, IsU64, le_bytes, of_le_bytes}
use remote_control.Protocol.{
  frame_header_len, build_video_frame, peek_frame_header, build_file_chunk_frame, parse_file_chunk,
  video_type, file_type,
}

-- A FILE chunk frame is parsed back to the transfer id, the sequence number, the last-chunk mark
-- and the payload that it was built from, for every pair of u32 numbers.
pub parse-build_file_chunk :
    (id seq : ℕ) (last : Bool) (payload : List ℕ)
    → IsU32 id
    → IsU32 seq
    → parse_file_chunk (build_file_chunk_frame id seq last payload)
      ≡ some (record { id = id; seq = seq; is_last = last; payload = payload })
unfolding parse_file_chunk build_file_chunk_frame le_bytes of_le_bytes
parse-build_file_chunk id seq true payload hi hs = ground arith
parse-build_file_chunk id seq false payload hi hs = ground arith

-- Every FILE frame that is built has the type byte FILE, whatever it carries, and a parser that
-- accepts a frame takes off the header and nothing else: the payload is all that follows it.
pub build_file_chunk_header :
    (id seq : ℕ) (last : Bool) (payload : List ℕ)
    → (flags : ℕ) × (peek_frame_header (build_file_chunk_frame id seq last payload)
        ≡ some (file_type, flags))
      × (length (build_file_chunk_frame id seq last payload) ≡ frame_header_len + length payload)
unfolding peek_frame_header build_file_chunk_frame le_bytes
build_file_chunk_header id seq true payload = (1, ground arith, ground arith)
build_file_chunk_header id seq false payload = (0, ground arith, ground arith)

-- A parser reads back, from a video frame, the type and the flag bits it was built with.
pub video_frame_layout :
    (payload : List ℕ) (pts : ℕ) (k c : Bool)
    → IsU64 pts
    → (flags : ℕ) × (peek_frame_header (build_video_frame payload pts k c)
        ≡ some (video_type, flags))
      × ((bit_and flags 1 ≡ 1) ↔ (k ≡ true))
      × ((bit_and flags 2 ≡ 2) ↔ (c ≡ true))
      × (of_le_bytes (take 8 (drop 4 (build_video_frame payload pts k c))) ≡ pts)
      × (drop frame_header_len (build_video_frame payload pts k c) ≡ payload)
unfolding peek_frame_header build_video_frame le_bytes of_le_bytes
video_frame_layout payload pts true true h =
    (3, ground arith, ground arith, ground arith, ground arith, ground arith)
video_frame_layout payload pts true false h =
    (1, ground arith, ground arith, ground arith, ground arith, ground arith)
video_frame_layout payload pts false true h =
    (2, ground arith, ground arith, ground arith, ground arith, ground arith)
video_frame_layout payload pts false false h =
    (0, ground arith, ground arith, ground arith, ground arith, ground arith)
