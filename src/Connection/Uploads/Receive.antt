-- ===== src/Connection/Uploads/Receive.antt =====
-- server-pc/src/connection.rs: a whole upload, from its announcement to its last chunk.
use remote_control.Base.{
  Option-cases, inl, inr, subst, ℕ, ◌+◌, ◌%◌, ◌^◌, ◌≡◌, refl, ◌≢◌, Bool, true, false, List, [], ◌∷◌,
  ◌++◌, none, some, nat_eq, nat_beq_iff, list_eq, get, remove, get-insert_self, get-insert_ne,
  get-remove_ne, get-remove_self, length, arith, append_assoc, sym, ◌∙◌,
}
use remote_control.Base.Bytes.{IsU32}
use remote_control.Files.{Disk, FilePath, append}
use remote_control.Protocol.{FileChunk, build_file_chunk_frame}
use remote_control.Protocol.Frames.{parse-build_file_chunk}
use remote_control.Protocol.Messages.{file_transfer_complete}
use remote_control.Connection.Uploads.{
  FileTransferState, Uploads, handle_file_chunk, take_chunk, chunk_written, writes,
}

-- The frames of a file that is sent in these pieces: numbered from `seq` on, the last one marked.
unfoldable pub chunk_frames : ℕ → ℕ → List ℕ → List (List ℕ) → List (List ℕ)
chunk_frames id seq piece [] = build_file_chunk_frame id seq true piece ∷ []
chunk_frames id seq piece (next ∷ pieces) =
    build_file_chunk_frame id seq false piece ∷ chunk_frames id ((seq + 1) % 2 ^ 32) next pieces

-- The handler on one frame after the other, where no write fails.
unfoldable pub receive : List (List ℕ) → Uploads → Uploads
receive [] u = u
receive (frame ∷ frames) u = receive frames (handle_file_chunk frame writes true u)

unfoldable pub concat : List ℕ → List (List ℕ) → List ℕ
concat piece [] = piece
concat piece (next ∷ pieces) = piece ++ concat next pieces

pub get-append_self :
    (disk : Disk) (path : FilePath) (old bytes : List ℕ)
    → get path disk ≡ some old
    → get path (append disk path bytes) ≡ some (old ++ bytes)
unfolding append
get-append_self disk path old bytes e = rw (e, append) (get-insert_self path (old ++ bytes) disk)

-- One frame that is in turn.
frame_in_turn :
    (id seq : ℕ) (last : Bool) (piece : List ℕ) (u : Uploads) (state : FileTransferState)
    → IsU32 id
    → IsU32 seq
    → get id u.transfers ≡ some state
    → state.next_expected_seq ≡ seq
    → handle_file_chunk (build_file_chunk_frame id seq last piece) writes true u
      ≡ chunk_written (record { id = id; seq = seq; is_last = last; payload = piece }) piece state u
unfolding handle_file_chunk take_chunk
frame_in_turn id seq last piece u state hi hs e n =
    rw (parse-build_file_chunk id seq last piece hi hs, handle_file_chunk)
      (rw (e, take_chunk) (ground (arith, nat_beq_iff seq state.next_expected_seq)))

-- From `u` to `u'` the transfer `id` is completed: its file has this content, the transfer is over
-- and the phone is told so once, with the path; the other files and transfers are as they were.
pub record Completes (u u' : Uploads) (id : ℕ) (dest : FilePath) (content : List ℕ) : Type 0 where
  pub written : get dest u'.disk ≡ some content
  pub over : get id u'.transfers ≡ none
  pub told : u'.outbox ≡ u.outbox ++ (file_transfer_complete id dest ∷ [])
  pub other_files : (path : FilePath) → path ≢ dest → get path u'.disk ≡ get path u.disk
  pub other_transfers : (j : ℕ) → j ≢ id → get j u'.transfers ≡ get j u.transfers

pub get-append_ne :
    (disk : Disk) (path p : FilePath) (bytes : List ℕ)
    → p ≢ path
    → get p (append disk path bytes) ≡ get p disk
unfolding append
get-append_ne disk path p bytes ne = elim (Option-cases (get path disk)) [
  | inl e ↦ rw (e, append) refl
  | inr (old, e) ↦ rw (e, append) (get-insert_ne path p (old ++ bytes) disk (λ q. ne (sym q)))
]

last_chunk :
    (chunk : FileChunk) (state : FileTransferState) (u : Uploads) (old : List ℕ)
    → chunk.is_last ≡ true
    → get state.dest_path u.disk ≡ some old
    → Completes u
        (chunk_written chunk chunk.payload state u)
        chunk.id
        state.dest_path
        (old ++ chunk.payload)
unfolding chunk_written
last_chunk chunk state u old l d =
    rw (l, chunk_written)
      (record {
        written = get-append_self u.disk state.dest_path old chunk.payload d;
        over = get-remove_self chunk.id u.transfers;
        told = refl;
        other_files = λ p ne. get-append_ne u.disk state.dest_path p chunk.payload ne;
        other_transfers = λ j ne. get-remove_ne chunk.id j u.transfers (λ q. ne (sym q));
      })

-- A chunk that is not the last leaves the transfer open, one number further, and tells nothing.
abbrev next_state : FileChunk → FileTransferState → FileTransferState
next_state chunk state = record state {
  bytes_written = (state.bytes_written + length chunk.payload) % 2 ^ 64;
  next_expected_seq = (state.next_expected_seq + 1) % 2 ^ 32;
}

record Advances (u u' : Uploads) (chunk : FileChunk) (state : FileTransferState) (old : List ℕ)
    : Type 0 where
  open_still : get chunk.id u'.transfers ≡ some (next_state chunk state)
  grown : get state.dest_path u'.disk ≡ some (old ++ chunk.payload)
  silent : u'.outbox ≡ u.outbox
  same_files : (path : FilePath) → path ≢ state.dest_path → get path u'.disk ≡ get path u.disk
  same_transfers : (j : ℕ) → j ≢ chunk.id → get j u'.transfers ≡ get j u.transfers

inner_chunk :
    (chunk : FileChunk) (state : FileTransferState) (u : Uploads) (old : List ℕ)
    → chunk.is_last ≡ false
    → get state.dest_path u.disk ≡ some old
    → Advances u (chunk_written chunk chunk.payload state u) chunk state old
unfolding chunk_written
inner_chunk chunk state u old l d =
    rw (l, chunk_written)
      (record {
        open_still =
            get-insert_self chunk.id (next_state chunk state) (remove chunk.id u.transfers);
        grown = get-append_self u.disk state.dest_path old chunk.payload d;
        silent = refl;
        same_files = λ p ne. get-append_ne u.disk state.dest_path p chunk.payload ne;
        same_transfers = λ j ne.
            get-insert_ne chunk.id j (next_state chunk state) (remove chunk.id u.transfers)
              (λ q. ne (sym q))
            ∙ get-remove_ne chunk.id j u.transfers (λ q. ne (sym q));
      })

Advances-Completes :
    {u u1 u' : Uploads} {chunk : FileChunk} {state : FileTransferState} {old content : List ℕ}
    → Advances u u1 chunk state old
    → Completes u1 u' chunk.id state.dest_path content
    → Completes u u' chunk.id state.dest_path content
Advances-Completes a c = record {
  written = c.written;
  over = c.over;
  told = c.told ∙ rw (a.silent);
  other_files = λ p ne. c.other_files p ne ∙ a.same_files p ne;
  other_transfers = λ j ne. c.other_transfers j ne ∙ a.same_transfers j ne;
}

-- If the frames of a file come in order from the number that is expected, none is lost and every
-- write succeeds, then the transfer is completed, and the file holds what it held and then the whole
-- content, the pieces in their order.
pub receive-chunk_frames :
    (pieces : List (List ℕ)) (id seq : ℕ) (piece : List ℕ) (u : Uploads) (state : FileTransferState)
    (old : List ℕ)
    → IsU32 id
    → IsU32 seq
    → get id u.transfers ≡ some state
    → state.next_expected_seq ≡ seq
    → get state.dest_path u.disk ≡ some old
    → Completes u
        (receive (chunk_frames id seq piece pieces) u)
        id
        state.dest_path
        (old ++ concat piece pieces)
unfolding receive chunk_frames concat
receive-chunk_frames [] id seq piece u state old hi hs e n d =
    let chunk : FileChunk = record { id = id; seq = seq; is_last = true; payload = piece } in
    subst (λ x. Completes u x id state.dest_path (old ++ piece))
      (sym (frame_in_turn id seq true piece u state hi hs e n))
      (last_chunk chunk state u old refl d)
receive-chunk_frames (next ∷ pieces) id seq piece u state old hi hs e n d =
    let chunk : FileChunk = record { id = id; seq = seq; is_last = false; payload = piece } in
    let u1 : Uploads = chunk_written chunk chunk.payload state u in
    let a : Advances u u1 chunk state old = inner_chunk chunk state u old refl d in
    subst
      (λ x.
        Completes u (receive (chunk_frames id ((seq + 1) % 2 ^ 32) next pieces) x) id
          state.dest_path (old ++ (piece ++ concat next pieces)))
      (sym (frame_in_turn id seq false piece u state hi hs e n))
      (Advances-Completes a (
        rw append_assoc at (
          receive-chunk_frames pieces id ((seq + 1) % 2 ^ 32) next u1 (next_state chunk state)
            (old ++ piece) hi (omega arith) a.open_still (rw n) a.grown)))
