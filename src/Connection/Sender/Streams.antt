-- ===== src/Connection/Sender/Streams.antt =====
-- server-pc/src/connection.rs: what the streamer task puts on the wire.
use remote_control.Base.{
  ℕ, ◌+◌, ◌%◌, ◌^◌, ◌≡◌, ◌≢◌, refl, ◌<◌, true, false, List, [], ◌∷◌, ◌++◌, length, length-append,
  All, arith, ap, ◌∙◌,
}
use remote_control.Protocol.{build_file_chunk_frame}
use remote_control.Connection.Sender.{bytes_read, Round, push_chunk, send_loop, spawn_file_sender}
use remote_control.Connection.Uploads.Receive.{chunk_frames, concat}

-- A round that goes well.
abbrev pub good : List ℕ → Round
good bytes = record { cancelled = false; read = bytes_read bytes; delivered = true }

abbrev pub good_rounds : List (List ℕ) → List Round
good_rounds [] = []
good_rounds (piece ∷ pieces) = good piece ∷ good_rounds pieces

length-concat :
    (piece next : List ℕ) (pieces : List (List ℕ))
    → length (concat piece (next ∷ pieces)) ≡ length piece + length (concat next pieces)
unfolding concat
length-concat piece next pieces = length-append piece (concat next pieces)

concat_pos :
    (piece : List ℕ) (pieces : List (List ℕ)) → piece ≢ [] → 0 < length (concat piece pieces)
unfolding concat
concat_pos [] pieces ne = absurd (ne refl)
concat_pos (b ∷ bytes) [] ne = omega arith
concat_pos (b ∷ bytes) (next ∷ pieces) ne = omega arith

-- A round that does not reach the announced size.
inner_round :
    (id size seq sent : ℕ) (piece : List ℕ) (rounds : List Round)
    → piece ≢ []
    → sent + length piece < size
    → size < 2 ^ 64
    → send_loop id size seq sent (good piece ∷ rounds)
      ≡ build_file_chunk_frame id seq false piece
        ∷ send_loop id size ((seq + 1) % 2 ^ 32) (sent + length piece) rounds
unfolding send_loop push_chunk
inner_round id size seq sent [] rounds ne short fits = absurd (ne refl)
inner_round id size seq sent (b ∷ bytes) rounds ne short fits =
    let e : (sent + length (b ∷ bytes)) % 2 ^ 64 ≡ sent + length (b ∷ bytes) = omega arith in
    rw e (ground arith)

last_round :
    (id size seq sent : ℕ) (piece : List ℕ) (rounds : List Round)
    → piece ≢ []
    → sent + length piece ≡ size
    → size < 2 ^ 64
    → send_loop id size seq sent (good piece ∷ rounds)
      ≡ build_file_chunk_frame id seq true piece ∷ []
unfolding send_loop push_chunk
last_round id size seq sent [] rounds ne full fits = absurd (ne refl)
last_round id size seq sent (b ∷ bytes) rounds ne full fits =
    let e : (sent + length (b ∷ bytes)) % 2 ^ 64 ≡ sent + length (b ∷ bytes) = omega arith in
    rw e (ground arith)

send_loop-chunk_frames :
    (pieces : List (List ℕ)) (more : List Round) (id size seq sent : ℕ) (piece : List ℕ)
    → All (λ p. p ≢ []) (piece ∷ pieces)
    → sent + length (concat piece pieces) ≡ size
    → size < 2 ^ 64
    → send_loop id size seq sent (good_rounds (piece ∷ pieces) ++ more)
      ≡ chunk_frames id seq piece pieces
unfolding chunk_frames
send_loop-chunk_frames [] more id size seq sent piece ne full fits =
    unfold concat in last_round id size seq sent piece more ne.0 full fits
send_loop-chunk_frames (next ∷ pieces) more id size seq sent piece ne full fits =
    inner_round id size seq sent piece (good_rounds (next ∷ pieces) ++ more) ne.0
      (omega (arith, length-concat piece next pieces, concat_pos next pieces ne.1.0)) fits
    ∙ ap (◌∷◌ (build_file_chunk_frame id seq false piece)) (
        send_loop-chunk_frames pieces more id size ((seq + 1) % 2 ^ 32) (sent + length piece) next
          ne.1 (omega (arith, length-concat piece next pieces)) fits)

-- If the spool file is opened, its reads return its whole content of the announced size in pieces,
-- none empty, and no round is cancelled or finds the channel closed, then exactly the frames of these
-- pieces are sent, numbered from 0 on, with the last-chunk mark on the last one and on no other,
-- whatever further rounds there would be.
pub spawn_file_sender-chunk_frames :
    (id : ℕ) (piece : List ℕ) (pieces : List (List ℕ)) (more : List Round)
    → All (λ p. p ≢ []) (piece ∷ pieces)
    → length (concat piece pieces) < 2 ^ 64
    → spawn_file_sender id
        (length (concat piece pieces))
        true
        (good_rounds (piece ∷ pieces) ++ more)
      ≡ chunk_frames id 0 piece pieces
unfolding spawn_file_sender
spawn_file_sender-chunk_frames id piece pieces more ne fits =
    send_loop-chunk_frames pieces more id _ 0 0 piece ne (omega arith) fits
