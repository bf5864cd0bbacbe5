-- ===== src/Connection/Session/Locked/Idle.antt =====
-- server-pc/src/connection.rs, `run_connection`: events that do nothing to a phone that is not
-- authenticated.
use remote_control.Base.{
  ℕ, ◌≡◌, refl, Bool, true, false, List, [], none, nat_eq, list_eq, Map, get, if◌then◌else◌, arith,
  sym, ◌∙◌, subst,
}
use remote_control.Connection.Dispatch.{drop_stream}
use remote_control.Connection.Session.{
  Session, Stepped, IoOutcome, Flow, falls_through, continues, breaks, on_accepted, on_complete,
  on_failed, on_worker_exit, on_binary, claim, by_flow,
}
use remote_control.Connection.State.{Peer}
use remote_control.Connection.Uploads.{Uploads, handle_file_abort}
use remote_control.Files.{Disk}

-- Nothing of the PC is in the hands of this peer.
abbrev pub Untouched : Disk → Peer → Type 0
Untouched d p = (p.disk ≡ d) × (p.transfers ≡ []) × (p.active_stream ≡ none)

abbrev pub Locked : Disk → Session → Type 0
Locked d s =
    s.peer.authenticated ≡ false → Untouched d s.peer × (s.sends ≡ []) × (s.registration ≡ none)

-- An event that does nothing to such a peer.
pub unchanged :
    (s s' : Session) {d : Disk}
    → s'.peer.authenticated ≡ s.peer.authenticated
    → (s.peer.authenticated ≡ false → s' ≡ s)
    → Locked d s
    → Locked d s'
unchanged s s' {d} same idle locked after =
    let before = sym same ∙ after in
    subst (λ x. Untouched d x.peer × (x.sends ≡ []) × (x.registration ≡ none)) (sym (idle before))
      (locked before)

-- A branch on the authentication.
pub either :
    (b : Bool) (x y : Stepped) {d : Disk}
    → (b ≡ true → Locked d x.0)
    → (b ≡ false → Locked d y.0)
    → Locked d (if b then x else y).0
either true x y f g = f refl
either false x y f g = g refl

get_empty {ℓ} : {V : Type ℓ} (id : ℕ) (m : Map ℕ V) → m ≡ [] → get id m ≡ none
unfolding get
get_empty id m e = rw e refl

pub abort_idle :
    (id : ℕ) (removed : Bool) (u : Uploads) → u.transfers ≡ [] → handle_file_abort id removed u ≡ u
unfolding handle_file_abort
abort_idle id removed u e = rw (get_empty id u.transfers e, handle_file_abort) refl

pub accepted_idle :
    (id : ℕ) (dest : List ℕ) (s : Session) → s.sends ≡ [] → on_accepted id dest s ≡ s
unfolding on_accepted
accepted_idle id dest s e = rw (get_empty id s.sends e, on_accepted) refl

pub complete_idle : (id : ℕ) (io : IoOutcome) (s : Session) → s.sends ≡ [] → on_complete id io s ≡ s
unfolding on_complete
complete_idle id io s e = rw (get_empty id s.sends e, on_complete) refl

pub failed_idle : (id : ℕ) (io : IoOutcome) (s : Session) → s.sends ≡ [] → on_failed id io s ≡ s
unfolding on_failed
failed_idle id io s e = rw (get_empty id s.sends e, on_failed) refl

pub worker_exit_idle : (s : Session) → s.peer.active_stream ≡ none → on_worker_exit s ≡ s
unfolding on_worker_exit
worker_exit_idle s e = ground arith

pub worker_exit_authenticated :
    (s : Session) → (on_worker_exit s).peer.authenticated ≡ s.peer.authenticated
unfolding on_worker_exit drop_stream
worker_exit_authenticated s = ground arith

pub binary_authenticated :
    (bytes : List ℕ) (io : IoOutcome) (s : Session)
    → (on_binary bytes io s).peer.authenticated ≡ s.peer.authenticated
unfolding on_binary
binary_authenticated bytes io s = ground arith

claim_authenticated : (s : Session) → (claim s).peer.authenticated ≡ s.peer.authenticated
unfolding claim
claim_authenticated s = ground arith

claim_idle : (s : Session) → s.peer.authenticated ≡ false → claim s ≡ s
unfolding claim
claim_idle s e = ground arith

pub claim-Locked : (s : Session) {d : Disk} → Locked d s → Locked d (claim s)
claim-Locked s locked = unchanged s (claim s) (claim_authenticated s) (claim_idle s) locked

pub by_flow-Locked :
    (f : Flow) (x y : Session × Bool) (z : Session) {d : Disk}
    → Locked d x.0
    → Locked d y.0
    → Locked d z
    → Locked d (by_flow f x y (z, true)).0
by_flow-Locked falls_through x y z a b c = a
by_flow-Locked continues x y z a b c = b
by_flow-Locked breaks x y z a b c = c
