-- ===== src/Connection/Uploads/Invariant.antt =====
-- server-pc/src/connection.rs: when the uploads in flight are in good order, and what keeps them so.
use remote_control.Base.{
  ℕ, ◌%◌, ◌⊎◌, ◌^◌, ◌≡◌, ◌≢◌, Bool, true, false, List, some, nat_eq, list_eq, nat_beq_iff, Map, get,
  insert, remove, get-remove_ne, get-remove, get-insert, length, arith, ℕ_discrete, sym, ◌∙◌, ap,
}
use remote_control.Files.{Disk, FilePath, append}
use remote_control.Connection.Uploads.{FileTransferState, Uploads, unlink}
use remote_control.Connection.Uploads.Receive.{get-append_ne}

-- The file is as long as the bytes that were counted for it (up to the wrap of the counter), unless some
-- write stored less than it took.
abbrev pub Counted : Bool → List ℕ → FileTransferState → Type 0
Counted lossy content st = (lossy ≡ true) ⊎ (length content % 2 ^ 64 ≡ st.bytes_written)

-- Every transfer has its file on the disk, with the bytes that were counted, and no two transfers have the
-- same file.
pub record Inv (lossy : Bool) (transfers : Map ℕ FileTransferState) (disk : Disk) : Type 0 where
  pub present :
      (i : ℕ) (st : FileTransferState)
      → get i transfers ≡ some st
      → (content : List ℕ) × (get st.dest_path disk ≡ some content) × Counted lossy content st
  pub apart :
      (i j : ℕ) (si sj : FileTransferState)
      → i ≢ j
      → get i transfers ≡ some si
      → get j transfers ≡ some sj
      → si.dest_path ≢ sj.dest_path

-- Two disks that differ in one file at most.
abbrev pub SameBut : FilePath → Disk → Disk → Type 0
SameBut path disk disk' = (p : FilePath) → p ≢ path → get p disk' ≡ get p disk

kept :
    {lossy : Bool} {tr : Map ℕ FileTransferState} {disk : Disk} (id : ℕ) (st : FileTransferState)
    (disk' : Disk)
    → Inv lossy tr disk
    → get id tr ≡ some st
    → SameBut st.dest_path disk disk'
    → (i : ℕ) (si : FileTransferState) → i ≢ id
    → get i tr ≡ some si
    → (content : List ℕ) × (get si.dest_path disk' ≡ some content) × Counted lossy content si
kept id st disk' v e same i si ne ei =
    let (content, there, counted) = v.present i si ei in
    (content, same si.dest_path (v.apart i id si st ne ei e) ∙ there, counted)

-- A transfer that ends takes with it at most its own file.
pub Inv-remove :
    {lossy : Bool} {tr : Map ℕ FileTransferState} {disk : Disk} (id : ℕ) (st : FileTransferState)
    (disk' : Disk)
    → Inv lossy tr disk
    → get id tr ≡ some st
    → SameBut st.dest_path disk disk'
    → Inv lossy (remove id tr) disk'
Inv-remove {lossy} {tr} id st disk' v e same = record {
  present = λ i si ei. kept id st disk' v e same i si (stays i si ei) (before i si ei);
  apart = λ i j si sj ne ei ej. v.apart i j si sj ne (before i si ei) (before j sj ej);
}
  where
    stays : (i : ℕ) (si : FileTransferState) → get i (remove id tr) ≡ some si → i ≢ id
    stays i si ei q = ground (arith, get-remove id i tr, nat_beq_iff id i)

    before : (i : ℕ) (si : FileTransferState) → get i (remove id tr) ≡ some si → get i tr ≡ some si
    before i si ei = ground (arith, get-remove id i tr, nat_beq_iff id i)

-- A transfer that is entered, with a file that no other has.
pub Inv-insert :
    {lossy : Bool} {tr : Map ℕ FileTransferState} {disk : Disk} (id : ℕ) (st : FileTransferState)
    (content : List ℕ)
    → Inv lossy tr disk
    → get st.dest_path disk ≡ some content
    → Counted lossy content st
    → ((j : ℕ) (sj : FileTransferState) → get j tr ≡ some sj → j ≢ id → sj.dest_path ≢ st.dest_path)
    → Inv lossy (insert id st tr) disk
Inv-insert {lossy} {tr} {disk} id st content v there counted alone = record {
  present = λ i si ei. elim (ℕ_discrete i id) [
    | yes q ↦ rw (own i si q ei) (content, there, counted)
    | no ne ↦ v.present i si (other i si ne ei)
  ];
  apart = λ i j si sj ne ei ej. elim (ℕ_discrete i id) [
    | yes q ↦ λ same.
        alone j sj (other j sj (λ r. ne (q ∙ sym r)) ej) (λ r. ne (q ∙ sym r))
          (sym same ∙ ap (λ (s : FileTransferState). s.dest_path) (own i si q ei))
    | no ni ↦ elim (ℕ_discrete j id) [
      | yes q ↦ λ same.
          alone i si (other i si ni ei) ni
            (same ∙ ap (λ (s : FileTransferState). s.dest_path) (own j sj q ej))
      | no nj ↦ v.apart i j si sj ne (other i si ni ei) (other j sj nj ej)
    ]
  ];
}
  where
    other :
        (i : ℕ) (si : FileTransferState)
        → i ≢ id
        → get i (insert id st tr) ≡ some si
        → get i tr ≡ some si
    other i si ne ei = ground (arith, get-insert id i st tr, nat_beq_iff id i)

    own : (i : ℕ) (si : FileTransferState) → i ≡ id → get i (insert id st tr) ≡ some si → si ≡ st
    own i si q ei = ground (arith, get-insert id i st tr, nat_beq_iff id i)

-- A transfer that goes on, with its own file written.
pub Inv-update :
    {lossy : Bool} {tr : Map ℕ FileTransferState} {disk : Disk} (id : ℕ)
    (st st' : FileTransferState) (disk' : Disk) (content : List ℕ)
    → Inv lossy tr disk
    → get id tr ≡ some st
    → SameBut st.dest_path disk disk'
    → st'.dest_path ≡ st.dest_path
    → get st.dest_path disk' ≡ some content
    → Counted lossy content st'
    → Inv lossy (insert id st' (remove id tr)) disk'
Inv-update {lossy} {tr} id st st' disk' content v e same path there counted =
    Inv-insert id st' content (Inv-remove id st disk' v e same) (rw path there) counted
      λ j sj ej ne. λ q. v.apart j id sj st ne (before j sj ej) e (q ∙ path)
  where
    before : (j : ℕ) (sj : FileTransferState) → get j (remove id tr) ≡ some sj → get j tr ≡ some sj
    before j sj ej = ground (arith, get-remove id j tr, nat_beq_iff id j)

pub SameBut-unlink :
    (path : FilePath) (removed : Bool) (disk disk' : Disk)
    → SameBut path disk disk'
    → SameBut path disk (unlink disk' path removed)
unfolding unlink
SameBut-unlink path true disk disk' same p ne =
    get-remove_ne path p disk' (λ q. ne (sym q)) ∙ same p ne
SameBut-unlink path false disk disk' same p ne = same p ne

pub SameBut-append :
    (disk : Disk) (path : FilePath) (bytes : List ℕ) → SameBut path disk (append disk path bytes)
SameBut-append disk path bytes p ne = get-append_ne disk path p bytes ne

abbrev pub Good : Bool → Uploads → Type 0
Good lossy u = Inv lossy u.transfers u.disk
