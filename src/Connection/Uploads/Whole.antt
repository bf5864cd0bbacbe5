-- ===== src/Connection/Uploads/Whole.antt =====
-- server-pc/src/connection.rs: an upload as the phone sees it.
use remote_control.Base.{
  ℕ, ◌≡◌, refl, ◌≢◌, ◌≤◌, true, false, List, [], ◌∷◌, ◌++◌, some, none, get, list_eq, nat_eq,
  get-insert_self, get-insert_ne, arith, append_assoc, ◌∙◌, sym, subst, insert,
}
use remote_control.Base.Bytes.{IsU32}
use remote_control.Files.{FilePath, create, exists_file}
use remote_control.Protocol.Messages.{file_transfer_accepted, file_transfer_complete}
use remote_control.Connection.Names.{sanitize_filename, unique_dest_path}
use remote_control.Connection.Names.Unique.{unique_dest_path_free}
use remote_control.Connection.Uploads.{Uploads, handle_file_begin, open_dest, max_upload_bytes}
use remote_control.Connection.Uploads.Receive.{
  receive, chunk_frames, concat, receive-chunk_frames, Completes,
}

abbrev opened : ℕ → FilePath → ℕ → Uploads → Uploads
opened id dest size u = record u {
  transfers =
      insert id
        (record {
          dest_path = dest;
          expected_size = size;
          bytes_written = 0;
          next_expected_seq = 0;
        })
        u.transfers;
  disk = create u.disk dest;
  outbox = u.outbox ++ (file_transfer_accepted id dest ∷ []);
}

begin_accepted :
    (id : ℕ) (name : List ℕ) (size : ℕ) (dir dest : FilePath) (u : Uploads)
    → get id u.transfers ≡ none
    → size ≤ max_upload_bytes
    → unique_dest_path u.disk dir (sanitize_filename name) ≡ some dest
    → handle_file_begin id name size (record { downloads = some dir; created = true }) u
      ≡ opened id dest size u
unfolding handle_file_begin open_dest
begin_accepted id name size dir dest u fresh small free =
    rw (fresh, handle_file_begin) (ground arith)

-- A file that is announced under an unused id, with a size up to 16 GiB, where the folder, a free
-- name and the new file are to be had, and whose chunks then come in order with no failing write,
-- stands complete under a path that was not on the disk before; the phone is told of the acceptance
-- and of the completion, in this order, and no other file or transfer is touched.
pub upload_arrives :
    (id : ℕ) (name : List ℕ) (size : ℕ) (dir dest : FilePath) (u : Uploads) (piece : List ℕ)
    (pieces : List (List ℕ))
    → IsU32 id
    → get id u.transfers ≡ none
    → size ≤ max_upload_bytes
    → unique_dest_path u.disk dir (sanitize_filename name) ≡ some dest
    → let begun =
        handle_file_begin id name size (record { downloads = some dir; created = true }) u in
      let u' = receive (chunk_frames id 0 piece pieces) begun in
      (exists_file u.disk dest ≡ false)
      × (get dest u'.disk ≡ some (concat piece pieces))
      × (get id u'.transfers ≡ none)
      × (u'.outbox
          ≡ u.outbox ++ (file_transfer_accepted id dest ∷ file_transfer_complete id dest ∷ []))
      × ((path : FilePath) → path ≢ dest → get path u'.disk ≡ get path u.disk)
      × ((j : ℕ) → j ≢ id → get j u'.transfers ≡ get j u.transfers)
unfolding create
upload_arrives id name size dir dest u piece pieces hi fresh small free =
    subst (λ b. Arrives (receive (chunk_frames id 0 piece pieces) b))
      (sym (begin_accepted id name size dir dest u fresh small free)) arrived
  where
    begun : Uploads
    begun = opened id dest size u

    Arrives : Uploads → Type 0
    Arrives u' =
        (exists_file u.disk dest ≡ false)
        × (get dest u'.disk ≡ some (concat piece pieces))
        × (get id u'.transfers ≡ none)
        × (u'.outbox
            ≡ u.outbox ++ (file_transfer_accepted id dest ∷ file_transfer_complete id dest ∷ []))
        × ((path : FilePath) → path ≢ dest → get path u'.disk ≡ get path u.disk)
        × ((j : ℕ) → j ≢ id → get j u'.transfers ≡ get j u.transfers)

    c :
        Completes begun
          (receive (chunk_frames id 0 piece pieces) begun)
          id
          dest
          (concat piece pieces)
    c =
        receive-chunk_frames pieces id 0 piece begun _ [] hi (omega arith)
          (get-insert_self id _ u.transfers) refl (get-insert_self dest [] u.disk)

    arrived : Arrives (receive (chunk_frames id 0 piece pieces) begun)
    arrived = (
      unique_dest_path_free u.disk dir (sanitize_filename name) dest free,
      c.written,
      c.over,
      c.told ∙ append_assoc u.outbox _ _,
      λ path ne. c.other_files path ne ∙ get-insert_ne dest path [] u.disk (λ q. ne (sym q)),
      λ j ne. c.other_transfers j ne ∙ get-insert_ne id j _ u.transfers (λ q. ne (sym q)),
    )
