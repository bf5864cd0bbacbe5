-- ===== src/Connection/Session/CleanUp.antt =====
-- server-pc/src/connection.rs, `run_connection`: what the end of a session leaves behind.
use remote_control.Base.{
  ℕ, ◌≡◌, refl, ◌≢◌, inl, inr, Bool, true, List, [], ◌∷◌, ◌++◌, Option, none, some, ◌==◌, nat_eq,
  list_eq, nat_beq_iff, list_beq_iff, Map, get, get-remove, get-remove_self, arith, Bool-cases,
}
use remote_control.Base.Text.{contains}
use remote_control.Connection.Dispatch.{drop_stream}
use remote_control.Connection.Session.{FileSendState, Session, drain, flags, release, tear_down}
use remote_control.Connection.State.{Peer}
use remote_control.Connection.Uploads.{FileTransferState, unlink}
use remote_control.Files.{Disk, FilePath}
use remote_control.FileSend.{FileSendBridge, deregister}
use remote_control.Stream.{StreamHandle, stop}

unlink_gone :
    (p path : FilePath) (removed : Bool) (disk : Disk)
    → get p disk ≡ none
    → get p (unlink disk path removed) ≡ none
unfolding unlink
unlink_gone p path removed disk e = ground (arith, get-remove path p disk, list_beq_iff path p)

drain_gone {ℓ} :
    {V : Type ℓ} (path_of : V → FilePath) (m : Map ℕ V) (removed : ℕ → Bool) (p : FilePath)
    (disk : Disk)
    → get p disk ≡ none
    → get p (drain path_of m removed disk) ≡ none
unfolding drain
drain_gone path_of [] removed p disk e = e
drain_gone path_of ((id, st) ∷ m) removed p disk e =
    drain_gone path_of m removed p _ (unlink_gone p (path_of st) (removed id) disk e)

unlinked : (p : FilePath) (disk : Disk) → get p (unlink disk p true) ≡ none
unfolding unlink
unlinked p disk = get-remove_self p disk

-- The file of an entry is gone if its removal went well.
drain_lem {ℓ} :
    {V : Type ℓ} (path_of : V → FilePath) (m : Map ℕ V) (removed : ℕ → Bool) (id : ℕ) (st : V)
    (disk : Disk)
    → get id m ≡ some st
    → removed id ≡ true
    → get (path_of st) (drain path_of m removed disk) ≡ none
unfolding drain get
drain_lem path_of [] removed id st disk e r = cc
drain_lem path_of ((j, v) ∷ m) removed id st disk e r = elim (Bool-cases (j == id)) [
  | inl y ↦
      let same_id : j ≡ id = (nat_beq_iff j id).0 y in
      let same : v ≡ st = cc (rw y at e) in
      let cleared : removed j ≡ true = rw same_id r in
      drain_gone path_of m removed (path_of st) _ (rw (same, cleared) (unlinked (path_of st) disk))
  | inr n ↦ drain_lem path_of m removed id st _ (rw n at e) r
]

flags_lem :
    (m : Map ℕ FileSendState) (id : ℕ) (st : FileSendState) (more : List ℕ)
    → get id m ≡ some st
    → contains st.cancel_flag (flags m ++ more) ≡ true
unfolding flags contains get
flags_lem [] id st more e = cc
flags_lem ((j, v) ∷ m) id st more e = ground (arith, flags_lem m id st more)

drop_stream_uploads : (p : Peer) → (drop_stream p).uploads ≡ p.uploads
unfolding drop_stream
drop_stream_uploads p = ground arith

released : (b : FileSendBridge) (r tx : ℕ) → (deregister b r).inner ≢ some (r, tx)
unfolding deregister
released b r tx h = ground (arith, nat_beq_iff r r)

kept :
    (reg : Option ℕ) (b : FileSendBridge) (r tx : ℕ)
    → b.inner ≡ some (r, tx)
    → reg ≢ some r
    → release reg b ≡ b
unfolding release deregister
kept none b r tx e ne = refl
kept (some q) b r tx e ne = ground (arith, nat_beq_iff r q)

-- When a session ends, no stream is active, and the one that was has been told to stop; every upload
-- in flight loses its partial file, and every send its spool file, where the removal succeeds; the
-- cancel flag of every send is set; and the session holds the slot no longer, while a slot that
-- another session holds stays as it is.
pub tear_down_outcome :
    (s : Session) (upload_removed send_removed : ℕ → Bool)
    → let s' = tear_down upload_removed send_removed s in
      (s'.peer.active_stream ≡ none)
      × ((h : StreamHandle)
          → s.peer.active_stream ≡ some h
          → s'.peer.stopped ≡ stop h ∷ s.peer.stopped)
      × ((id : ℕ) (st : FileTransferState)
          → get id s.peer.transfers ≡ some st
          → upload_removed id ≡ true
          → get st.dest_path s'.peer.disk ≡ none)
      × ((id : ℕ) (st : FileSendState)
          → get id s.sends ≡ some st
          → contains st.cancel_flag s'.cancelled ≡ true)
      × ((id : ℕ) (st : FileSendState)
          → get id s.sends ≡ some st
          → send_removed id ≡ true
          → get st.temp_path s'.peer.disk ≡ none)
      × ((r tx : ℕ) → s.registration ≡ some r → s'.bridge.inner ≢ some (r, tx))
      × ((r tx : ℕ)
          → s.bridge.inner ≡ some (r, tx)
          → s.registration ≢ some r
          → s'.bridge ≡ s.bridge)
unfolding tear_down drop_stream release deregister
tear_down_outcome s ur sr = (
  ground arith,
  (λ h e. ground arith),
  (λ id st e r. rw (drop_stream_uploads s.peer) (
      drain_gone (λ st. st.temp_path) s.sends sr st.dest_path _
        (drain_lem (λ st. st.dest_path) s.peer.transfers ur id st s.peer.disk e r))),
  (λ id st e. flags_lem s.sends id st s.cancelled e),
  (λ id st e r. drain_lem (λ st. st.temp_path) s.sends sr id st _ e r),
  (λ r tx e h. released s.bridge r tx (rw (e, release) at h)),
  (λ r tx e ne. kept s.registration s.bridge r tx e ne),
)
