-- ===== src/Connection/Sender.antt =====
-- server-pc/src/connection.rs: files from the PC to the phone. The streamer task is a loop over its
-- rounds, whose outcomes are given: the cancel flag, what the read returned and whether the bulk
-- channel still took the frame. The sleep that limits the rate is not modelled.
pub mod Streams
use remote_control.Base.{
  ℕ, ◌+◌, ◌*◌, ◌%◌, ◌^◌, Bool, true, false, List, [], ◌∷◌, ◌++◌, leb, if◌then◌else◌, length,
}
use remote_control.Protocol.{build_file_chunk_frame}

-- `file.read(&mut buf)`: `bytes_read []` is `Ok(0)`, the end of the file.
pub data ReadOutcome : Type 0 where
  bytes_read : List ℕ → ReadOutcome
  read_error : ReadOutcome

pub record Round : Type 0 where
  pub cancelled : Bool
  pub read : ReadOutcome
  pub delivered : Bool

abbrev pub chunk_bytes : ℕ
chunk_bytes = 256 * 1024

-- What a round does with the bytes it read, `rest` being the frames of the later rounds.
unfoldable pub push_chunk : ℕ → ℕ → Bool → List ℕ → Bool → List (List ℕ) → List (List ℕ)
push_chunk id chunk_seq is_last bytes delivered rest =
    if delivered
    then build_file_chunk_frame id chunk_seq is_last bytes ∷ (if is_last then [] else rest)
    else []

-- The frames that the bulk channel takes. `chunk_seq` wraps at 2^32 and `sent_bytes` at 2^64.
unfoldable pub send_loop : ℕ → ℕ → ℕ → ℕ → List Round → List (List ℕ)
send_loop id expected_size chunk_seq sent_bytes [] = []
send_loop id expected_size chunk_seq sent_bytes (round ∷ rounds) =
    if round.cancelled then [] else elim round.read [
      | read_error ↦ []
      | bytes_read [] ↦ []
      | bytes_read (b ∷ bytes) ↦
          let sent = (sent_bytes + length (b ∷ bytes)) % 2 ^ 64 in
          push_chunk id chunk_seq (leb expected_size sent) (b ∷ bytes) round.delivered
            (send_loop id expected_size ((chunk_seq + 1) % 2 ^ 32) sent rounds)
    ]

-- The task: nothing is sent if the spool file cannot be opened.
unfoldable pub spawn_file_sender : ℕ → ℕ → Bool → List Round → List (List ℕ)
spawn_file_sender id expected_size opened rounds =
    if opened then send_loop id expected_size 0 0 rounds else []
