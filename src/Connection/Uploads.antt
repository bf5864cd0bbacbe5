-- ===== src/Connection/Uploads.antt =====
-- server-pc/src/connection.rs: files from the phone to the PC. The three handlers work on the map of
-- transfers, the disk and the messages sent so far; the outcome of each file operation is an argument.
-- An open file is named by its path.
pub mod Invariant
pub mod Requests
pub mod Receive
pub mod Whole
use remote_control.Base.{
  ℕ, ◌+◌, ◌*◌, ◌%◌, ◌^◌, ◌≡◌, Bool, true, false, List, [], ◌∷◌, ◌++◌, Option, none, some, not, ltb,
  ◌==◌, nat_eq, list_eq, Map, get, insert, remove, if◌then◌else◌, length, take,
}
use remote_control.Files.{Disk, FilePath, create, append}
use remote_control.Protocol.{FileChunk, parse_file_chunk}
use remote_control.Protocol.Messages.{
  ServerMsg, file_transfer_accepted, file_transfer_complete, file_transfer_failed, Reason, literal,
  seq, failure,
}
use remote_control.Connection.Names.{sanitize_filename, unique_dest_path}

pub record FileTransferState : Type 0 where
  pub dest_path : FilePath
  pub expected_size : ℕ
  pub bytes_written : ℕ
  pub next_expected_seq : ℕ

pub record Uploads : Type 0 where
  pub transfers : Map ℕ FileTransferState
  pub disk : Disk
  pub outbox : List ServerMsg

-- The outbound channel is unbounded and in order; a message to a closed one is lost with the rest.
abbrev pub say : Uploads → ServerMsg → Uploads
say u m = record u { outbox = u.outbox ++ (m ∷ []) }

-- Where `downloads_dir` leads, if the variable is set and the folder can be made, and whether
-- `File::create` succeeds.
pub record BeginOutcome : Type 0 where
  pub downloads : Option FilePath
  pub created : Bool

abbrev pub max_upload_bytes : ℕ
max_upload_bytes = 16 * 1024 * 1024 * 1024

-- The part of `handle_file_begin` below the choice of the folder.
unfoldable pub open_dest : ℕ → List ℕ → ℕ → Bool → FilePath → Uploads → Uploads
open_dest id name size created dir u = elim (unique_dest_path u.disk dir (sanitize_filename name)) [
  | none ↦ say u (file_transfer_failed id (failure "dest path"))
  | some dest ↦
      if created
      then record u {
        transfers =
            insert id
              (record {
                dest_path = dest;
                expected_size = size;
                bytes_written = 0;
                next_expected_seq = 0;
              })
              u.transfers;
        disk = create u.disk dest;
        outbox = u.outbox ++ (file_transfer_accepted id dest ∷ []);
      }
      else say u (file_transfer_failed id (failure "open"))
]

unfoldable pub handle_file_begin : ℕ → List ℕ → ℕ → BeginOutcome → Uploads → Uploads
handle_file_begin id name size outcome u = elim (get id u.transfers) [
  | some state ↦ say u (file_transfer_failed id (literal "duplicate transfer id"))
  | none ↦
      if ltb max_upload_bytes size
      then say u (file_transfer_failed id (literal "file too large (>16 GiB)"))
      else elim outcome.downloads [
        | none ↦ say u (file_transfer_failed id (failure "downloads dir"))
        | some dir ↦ open_dest id name size outcome.created dir u
      ]
]

-- `remove_file`, whose failure is logged or ignored.
unfoldable pub unlink : Disk → FilePath → Bool → Disk
unlink disk path removed = if removed then remove path disk else disk

unfoldable pub handle_file_abort : ℕ → Bool → Uploads → Uploads
handle_file_abort id removed u = elim (get id u.transfers) [
  | none ↦ u
  | some state ↦ record u {
    transfers = remove id u.transfers;
    disk = unlink u.disk state.dest_path removed;
  }
]

-- How `write_all` went: the whole payload is stored; or it answers Ok and only some of the bytes come to be
-- stored, since tokio's file writes later and reports an error at a later operation, if at all; or it
-- answers with an error after some of its bytes.
pub data WriteOutcome : Type 0 where
  writes : WriteOutcome
  defers : ℕ → WriteOutcome
  fails_after : ℕ → WriteOutcome

-- The transfer is out of the map, its partial file removed, and the phone told why.
abbrev pub fail_transfer : Uploads → ℕ → FilePath → Disk → Bool → Reason → Uploads
fail_transfer u id dest disk removed why = record u {
  transfers = remove id u.transfers;
  disk = unlink disk dest removed;
  outbox = u.outbox ++ (file_transfer_failed id why ∷ []);
}

-- A chunk that `write_all` took, with the bytes of it that come to be stored: the last one ends the transfer. A size that differs from the announced
-- one is only logged, and so is a flush that fails.
unfoldable pub chunk_written : FileChunk → List ℕ → FileTransferState → Uploads → Uploads
chunk_written chunk stored state u =
    if chunk.is_last
    then record u {
      transfers = remove chunk.id u.transfers;
      disk = append u.disk state.dest_path stored;
      outbox = u.outbox ++ (file_transfer_complete chunk.id state.dest_path ∷ []);
    }
    else record u {
      transfers =
          insert chunk.id
            (record state {
              bytes_written = (state.bytes_written + length chunk.payload) % 2 ^ 64;
              next_expected_seq = (state.next_expected_seq + 1) % 2 ^ 32;
            })
            (remove chunk.id u.transfers);
      disk = append u.disk state.dest_path stored;
    }

unfoldable pub take_chunk : FileChunk → WriteOutcome → Bool → FileTransferState → Uploads → Uploads
take_chunk chunk outcome removed state u =
    if not (chunk.seq == state.next_expected_seq)
    then fail_transfer u chunk.id state.dest_path u.disk removed (seq chunk.seq)
    else elim outcome [
      | fails_after n ↦
          fail_transfer u chunk.id state.dest_path
            (append u.disk state.dest_path (take n chunk.payload)) removed (failure "write")
      | defers n ↦ chunk_written chunk (take n chunk.payload) state u
      | writes ↦ chunk_written chunk chunk.payload state u
    ]

unfoldable pub handle_file_chunk : List ℕ → WriteOutcome → Bool → Uploads → Uploads
handle_file_chunk bytes outcome removed u = elim (parse_file_chunk bytes) [
  | none ↦ u
  | some chunk ↦ elim (get chunk.id u.transfers) [
    | none ↦ u
    | some state ↦ take_chunk chunk outcome removed state u
  ]
]
