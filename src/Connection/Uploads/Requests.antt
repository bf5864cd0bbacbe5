-- ===== src/Connection/Uploads/Requests.antt =====
-- server-pc/src/connection.rs: uploads that run at the same time do not touch one another.
use remote_control.Base.{
  ℕ, ◌+◌, ◌%◌, ◌^◌, ◌||◌, ◌⊎◌, ap, length, ◌≡◌, refl, ◌≢◌, inl, inr, Bool, true, false, List, [],
  ◌∷◌, ◌++◌, none, some, ltb, ◌==◌, nat_eq, list_eq, Map, get, get-insert_self, get-insert_ne,
  length-append, take, arith, Option-cases, Bool-cases, sym, ◌∙◌,
}
use remote_control.Files.{Disk, FilePath, create, append, exists_file}
use remote_control.Protocol.{FileChunk, parse_file_chunk}
use remote_control.Protocol.Messages.{failure, ServerMsg}
use remote_control.Connection.Names.{sanitize_filename, unique_dest_path}
use remote_control.Connection.Names.Unique.{unique_dest_path_free}
use remote_control.Connection.Uploads.{
  FileTransferState, Uploads, BeginOutcome, open_dest, handle_file_begin, handle_file_abort,
  WriteOutcome, writes, defers, fails_after, chunk_written, take_chunk, handle_file_chunk,
  fail_transfer, max_upload_bytes,
}
use remote_control.Connection.Uploads.Receive.{get-append_self}
use remote_control.Connection.Uploads.Invariant.{
  Inv, Inv-remove, Inv-insert, Inv-update, SameBut-unlink, SameBut-append, Good, Counted,
}

handle_file_abort-Good :
    (lossy : Bool) (id : ℕ) (removed : Bool) (u : Uploads)
    → Good lossy u
    → Good lossy (handle_file_abort id removed u)
unfolding handle_file_abort
handle_file_abort-Good lossy id removed u v = elim (Option-cases (get id u.transfers)) [
  | inl e ↦ rw (e, handle_file_abort) v
  | inr (st, e) ↦
      rw (e, handle_file_abort)
        (Inv-remove id st _ v e (SameBut-unlink st.dest_path removed _ _ (λ p ne. refl)))
]

-- The bytes that are stored of a chunk: all of it, or a part where writes may lose bytes.
abbrev Stored : Bool → FileChunk → List ℕ → Type 0
Stored lossy chunk stored = (lossy ≡ true) ⊎ (stored ≡ chunk.payload)

still_counted :
    (lossy : Bool) (chunk : FileChunk) (stored content : List ℕ) (st st' : FileTransferState)
    → Stored lossy chunk stored
    → Counted lossy content st
    → st'.bytes_written ≡ (st.bytes_written + length chunk.payload) % 2 ^ 64
    → Counted lossy (content ++ stored) st'
still_counted lossy chunk stored content st st' (inl p) c e = inl p
still_counted lossy chunk stored content st st' (inr q) (inl p) e = inl p
still_counted lossy chunk stored content st st' (inr q) (inr c) e =
    inr (omega (arith, length-append content stored, ap length q, c, e))

abbrev advanced : FileChunk → FileTransferState → FileTransferState
advanced chunk st = record st {
  bytes_written = (st.bytes_written + length chunk.payload) % 2 ^ 64;
  next_expected_seq = (st.next_expected_seq + 1) % 2 ^ 32;
}

chunk_written-Good :
    (lossy : Bool) (chunk : FileChunk) (stored : List ℕ) (st : FileTransferState) (u : Uploads)
    → Stored lossy chunk stored
    → Good lossy u
    → get chunk.id u.transfers ≡ some st
    → Good lossy (chunk_written chunk stored st u)
unfolding chunk_written
chunk_written-Good lossy chunk stored st u all v e = elim (Bool-cases chunk.is_last) [
  | inl l ↦
      rw (l, chunk_written)
        (Inv-remove chunk.id st _ v e (SameBut-append u.disk st.dest_path stored))
  | inr l ↦
      let (content, there, counted) = v.present chunk.id st e in
      rw (l, chunk_written)
        (Inv-update chunk.id st (advanced chunk st) _ (content ++ stored) v e
          (SameBut-append u.disk st.dest_path stored) refl
          (get-append_self u.disk st.dest_path content stored there)
          (still_counted lossy chunk stored content st (advanced chunk st) all counted refl))
]

-- Whether `write_all` answers Ok for more bytes than it stores.
unfoldable pub loses : WriteOutcome → Bool
loses writes = false
loses (defers n) = true
loses (fails_after n) = false

take_chunk-Good :
    (lossy : Bool) (chunk : FileChunk) (o : WriteOutcome) (removed : Bool) (st : FileTransferState)
    (u : Uploads)
    → (loses o ≡ true → lossy ≡ true)
    → Good lossy u
    → get chunk.id u.transfers ≡ some st
    → Good lossy (take_chunk chunk o removed st u)
unfolding take_chunk loses
take_chunk-Good lossy chunk o removed st u l v e =
    elim (Bool-cases (chunk.seq == st.next_expected_seq)) [
      | inr wrong ↦
          rw (wrong, take_chunk)
            (Inv-remove chunk.id st _ v e (SameBut-unlink st.dest_path removed _ _ (λ p ne. refl)))
      | inl right ↦ rw (right, take_chunk) (by_outcome o l)
    ]
  where
    by_outcome :
        (o : WriteOutcome)
        → (loses o ≡ true → lossy ≡ true)
        → Good lossy (elim o [
          | fails_after n ↦
              fail_transfer u chunk.id st.dest_path
                (append u.disk st.dest_path (take n chunk.payload))
                removed
                (failure "write")
          | defers n ↦ chunk_written chunk (take n chunk.payload) st u
          | writes ↦ chunk_written chunk chunk.payload st u
        ])
    by_outcome writes l = chunk_written-Good lossy chunk chunk.payload st u (inr refl) v e
    by_outcome (defers n) l =
        chunk_written-Good lossy chunk (take n chunk.payload) st u (inl (l refl)) v e
    by_outcome (fails_after n) l = Inv-remove chunk.id st _ v e (
        SameBut-unlink st.dest_path removed _ _
          (SameBut-append u.disk st.dest_path (take n chunk.payload)))

handle_file_chunk-Good :
    (lossy : Bool) (bytes : List ℕ) (o : WriteOutcome) (removed : Bool) (u : Uploads)
    → (loses o ≡ true → lossy ≡ true)
    → Good lossy u
    → Good lossy (handle_file_chunk bytes o removed u)
unfolding handle_file_chunk
handle_file_chunk-Good lossy bytes o removed u l v = elim (Option-cases (parse_file_chunk bytes)) [
  | inl p ↦ rw (p, handle_file_chunk) v
  | inr (chunk, p) ↦ elim (Option-cases (get chunk.id u.transfers)) [
    | inl e ↦ rw (p, handle_file_chunk) (rw (e, handle_file_chunk) v)
    | inr (st, e) ↦
        rw (p, handle_file_chunk)
          (rw (e, handle_file_chunk) (take_chunk-Good lossy chunk o removed st u l v e))
  ]
]

exists_file-none :
    (disk : Disk) (path : FilePath) → exists_file disk path ≡ false → get path disk ≡ none
unfolding exists_file
exists_file-none disk path h = ground arith

-- A new file leaves the other transfers as they were.
Inv-create :
    {lossy : Bool} {tr : Map ℕ FileTransferState} {disk : Disk} (dest : FilePath)
    → Inv lossy tr disk
    → get dest disk ≡ none
    → Inv lossy tr (create disk dest)
      × ((j : ℕ) (sj : FileTransferState) → get j tr ≡ some sj → sj.dest_path ≢ dest)
unfolding create
Inv-create {lossy} {tr} {disk} dest v free = (
  record {
    present = λ i si ei.
        let (content, there, counted) = v.present i si ei in
        (
          content,
          get-insert_ne dest si.dest_path [] disk (λ q. unused i si ei (sym q)) ∙ there,
          counted,
        );
    apart = v.apart;
  },
  unused,
)
  where
    unused : (j : ℕ) (sj : FileTransferState) → get j tr ≡ some sj → sj.dest_path ≢ dest
    unused j sj ej q =
        let (content, there, counted) = v.present j sj ej in ground (arith, rw q at there)

open_dest-Good :
    (lossy : Bool) (id : ℕ) (name : List ℕ) (size : ℕ) (created : Bool) (dir : FilePath)
    (u : Uploads)
    → Good lossy u
    → Good lossy (open_dest id name size created dir u)
unfolding open_dest
open_dest-Good lossy id name size false dir u v =
    elim (Option-cases (unique_dest_path u.disk dir (sanitize_filename name))) [
      | inl e ↦ rw (e, open_dest) v
      | inr (dest, e) ↦ rw (e, open_dest) v
    ]
open_dest-Good lossy id name size true dir u v =
    elim (Option-cases (unique_dest_path u.disk dir (sanitize_filename name))) [
      | inl e ↦ rw (e, open_dest) v
      | inr (dest, e) ↦
          let free =
            exists_file-none u.disk dest
              (unique_dest_path_free u.disk dir (sanitize_filename name) dest e) in
          let (kept_all, unused) = Inv-create dest v free in
          rw (e, open_dest)
            (Inv-insert id _ [] kept_all (unfold create in get-insert_self dest [] u.disk)
              (inr refl) (λ j sj ej ne. unused j sj ej))
    ]

handle_file_begin-Good :
    (lossy : Bool) (id : ℕ) (name : List ℕ) (size : ℕ) (o : BeginOutcome) (u : Uploads)
    → Good lossy u
    → Good lossy (handle_file_begin id name size o u)
unfolding handle_file_begin
handle_file_begin-Good lossy id name size o u v = elim (Option-cases (get id u.transfers)) [
  | inr (st, e) ↦ rw (e, handle_file_begin) v
  | inl e ↦ elim (Bool-cases (ltb max_upload_bytes size)) [
    | inl large ↦ rw (e, handle_file_begin) (rw large v)
    | inr small ↦ elim (Option-cases o.downloads) [
      | inl d ↦ rw (e, handle_file_begin) (rw small (rw (d, handle_file_begin) v))
      | inr (dir, d) ↦
          rw (e, handle_file_begin)
            (rw small
              (rw (d, handle_file_begin) (open_dest-Good lossy id name size o.created dir u v)))
    ]
  ]
]

-- What the phone can do to its uploads, with the outcomes of the file operations.
pub data Request : Type 0 where
  begins : ℕ → List ℕ → ℕ → BeginOutcome → Request
  aborts : ℕ → Bool → Request
  sends : List ℕ → WriteOutcome → Bool → Request

unfoldable pub serve : Request → Uploads → Uploads
serve (begins id name size o) u = handle_file_begin id name size o u
serve (aborts id removed) u = handle_file_abort id removed u
serve (sends bytes o removed) u = handle_file_chunk bytes o removed u

unfoldable pub serve_all : List Request → Uploads → Uploads
serve_all [] u = u
serve_all (r ∷ rs) u = serve_all rs (serve r u)

-- Whether some write stores less than it took.
unfoldable pub any_loses : List Request → Bool
any_loses [] = false
any_loses (begins id name size o ∷ rs) = any_loses rs
any_loses (aborts id removed ∷ rs) = any_loses rs
any_loses (sends bytes o removed ∷ rs) = loses o || any_loses rs

serve-Good :
    (lossy : Bool) (r : Request) (u : Uploads)
    → (any_loses (r ∷ []) ≡ true → lossy ≡ true)
    → Good lossy u
    → Good lossy (serve r u)
unfolding serve any_loses
serve-Good lossy (begins id name size o) u l v = handle_file_begin-Good lossy id name size o u v
serve-Good lossy (aborts id removed) u l v = handle_file_abort-Good lossy id removed u v
serve-Good lossy (sends bytes o removed) u l v =
    handle_file_chunk-Good lossy bytes o removed u (λ e. l (ground arith)) v

loses-head :
    (r : Request) (rs : List Request) → any_loses (r ∷ []) ≡ true → any_loses (r ∷ rs) ≡ true
unfolding any_loses
loses-head (begins id name size o) rs e = ground arith
loses-head (aborts id removed) rs e = ground arith
loses-head (sends bytes o removed) rs e = ground arith

loses-tail : (r : Request) (rs : List Request) → any_loses rs ≡ true → any_loses (r ∷ rs) ≡ true
unfolding any_loses
loses-tail (begins id name size o) rs e = e
loses-tail (aborts id removed) rs e = e
loses-tail (sends bytes o removed) rs e = ground arith

serve_all-from :
    (lossy : Bool) (rs : List Request) (u : Uploads)
    → (any_loses rs ≡ true → lossy ≡ true)
    → Good lossy u
    → Good lossy (serve_all rs u)
unfolding serve_all
serve_all-from lossy [] u l v = v
serve_all-from lossy (r ∷ rs) u l v =
    serve_all-from lossy rs (serve r u) (λ e. l (loses-tail r rs e))
      (serve-Good lossy r u (λ e. l (loses-head r rs e)) v)

pub serve_all-Good :
    (rs : List Request) (disk : Disk) (outbox : List ServerMsg)
    → Good (any_loses rs) (serve_all rs (record { transfers = []; disk = disk; outbox = outbox }))
unfolding get
serve_all-Good rs disk outbox =
    serve_all-from (any_loses rs) rs _ (λ e. e)
      (record { present = λ i st e. ground arith; apart = λ i j si sj ne ei ej. ground arith })
