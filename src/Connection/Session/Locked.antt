-- ===== src/Connection/Session/Locked.antt =====
-- server-pc/src/connection.rs, `run_connection`: a phone that is not authenticated.
pub mod Idle
use remote_control.Base.{
  ℕ, ◌≡◌, refl, ◌≢◌, inl, inr, Bool, true, false, List, [], ◌∷◌, none, nat_eq, list_eq, Map, get,
  if◌then◌else◌, arith, Option-cases, Bool-cases, sym, ◌∙◌, All, subst, ap,
}
use remote_control.Config.{Config}
use remote_control.Connection.Dispatch.{
  handle_client_msg, guarded, handle_stream_stop, drop_stream, handle_keyframe_request,
}
use remote_control.Connection.Dispatch.Access.{authenticated_iff}
use remote_control.Connection.Handshake.{
  hello_result, welcome_new, handle_hello, trusted_result, handle_trusted_hello, in_versions,
}
use remote_control.Connection.Session.{
  Session, set_uploads, Stepped, IoOutcome, Event, idle_timeout, transport_gone, unparsable,
  close_frame, other_frame, worker_exited, message, binary, ping_frame, packet, sent, full, closed,
  command, Flow, falls_through, continues, breaks, on_begin, on_accepted, on_complete, on_failed,
  on_worker_exit, on_message, on_binary, handle, claim, run_loop, by_flow,
}
use remote_control.Connection.State.{Peer, Answers}
use remote_control.Connection.Uploads.{Uploads, handle_file_abort}
use remote_control.Crypto.{Crypto}
use remote_control.Files.{Disk}
use remote_control.Pairing.{VerifyResult, ok, bad_code, expired, used}
use remote_control.Protocol.Messages.{
  ClientInfo, ClientMsg, hello, trusted_hello, ping, stream_request, stream_stop, keyframe_request,
  mouse_move, mouse_button, mouse_scroll, key_text, key_event, clipboard_set, clipboard_get,
  file_transfer_begin, file_transfer_abort, file_send_accepted, file_send_complete,
  file_send_failed,
}
use remote_control.Trusted.{Json, VerifyOutcome, accepted, bad_token}
use remote_control.Trusted.{unknown_device as no_such_device}
use remote_control.Trusted.Verify.{verify_refusal_unchanged}
use remote_control.Connection.Session.Locked.Idle.{
  Untouched, Locked, unchanged, either, abort_idle, accepted_idle, complete_idle, failed_idle,
  worker_exit_idle, worker_exit_authenticated, binary_authenticated, claim-Locked, by_flow-Locked,
}

-- The events that the phone and the network bring; a command comes from the PC's own HTTP server.
abbrev pub FromPhone : Event → Type 0
FromPhone (command c io) = ⊥
FromPhone _ = Unit

module _ (crypto : Crypto) (json : Json) (cfg : Config) where
  hello_refused :
      (r : VerifyResult) (nonce : List ℕ) (client : ClientInfo) (a : Answers) (p : Peer) {d : Disk}
      → Untouched d p
      → (hello_result crypto json cfg r nonce client a p).0.authenticated ≡ false
      → Untouched d (hello_result crypto json cfg r nonce client a p).0
  unfolding hello_result welcome_new
  hello_refused ok nonce client a p quiet after = elim (Option-cases (crypto.base64_decode nonce)) [
    | inl e ↦ rw (e, hello_result) quiet
    | inr (b, e) ↦ cc (rw (e, hello_result, welcome_new) at after)
  ]
  hello_refused bad_code nonce client a p quiet after = quiet
  hello_refused expired nonce client a p quiet after = quiet
  hello_refused used nonce client a p quiet after = quiet

  handle_hello_refused :
      (v : ℕ) (c nonce : List ℕ) (client : ClientInfo) (a : Answers) (p : Peer) {d : Disk}
      → Untouched d p
      → (handle_hello crypto json cfg v c nonce client a p).0.authenticated ≡ false
      → Untouched d (handle_hello crypto json cfg v c nonce client a p).0
  unfolding handle_hello
  handle_hello_refused v c nonce client a p quiet after = elim (Bool-cases (in_versions v)) [
    | inl e ↦
        rw (e, handle_hello)
          (hello_refused _ nonce client a _ quiet (rw (e, handle_hello) at after))
    | inr e ↦ rw (e, handle_hello) quiet
  ]

  trusted_refused :
      (r : VerifyOutcome) (a : Answers) (p : Peer)
      → (trusted_result crypto json cfg r a p).0.authenticated ≡ false
      → ((name : List ℕ) → r ≢ accepted name)
        × ((trusted_result crypto json cfg r a p).0.disk ≡ p.disk)
        × ((trusted_result crypto json cfg r a p).0.transfers ≡ p.transfers)
        × ((trusted_result crypto json cfg r a p).0.active_stream ≡ p.active_stream)
  unfolding trusted_result
  trusted_refused (accepted name) a p after = absurd (ground arith)
  trusted_refused no_such_device a p after = ((λ name e. cc), refl, refl, refl)
  trusted_refused bad_token a p after = ((λ name e. cc), refl, refl, refl)

  handle_trusted_hello_refused :
      (v : ℕ) (id token : List ℕ) (a : Answers) (p : Peer) {d : Disk}
      → Untouched d p
      → (handle_trusted_hello crypto json cfg v id token a p).0.authenticated ≡ false
      → Untouched d (handle_trusted_hello crypto json cfg v id token a p).0
  unfolding handle_trusted_hello
  handle_trusted_hello_refused v id token a p (disk, transfers, stream) after =
      elim (Bool-cases (in_versions v)) [
        | inl e ↦
            let (refused, x, y, z) =
              trusted_refused _ a _ (rw (e, handle_trusted_hello) at after) in
            let same =
              (verify_refusal_unchanged crypto json p.trusted p.disk id token a.now_ms a.saved
                refused).1 in
            rw (e, handle_trusted_hello) (x ∙ same ∙ disk, y ∙ transfers, z ∙ stream)
        | inr e ↦ rw (e, handle_trusted_hello) (disk, transfers, stream)
      ]

  refused :
      (msg : ClientMsg) (a : Answers) (p : Peer) {d : Disk}
      → p.authenticated ≡ false
      → Untouched d p
      → (handle_client_msg crypto json cfg msg a p).0.authenticated ≡ false
      → Untouched d (handle_client_msg crypto json cfg msg a p).0
  unfolding handle_client_msg guarded handle_stream_stop drop_stream handle_keyframe_request
  refused (hello v c nonce client) a p before quiet after =
      handle_hello_refused v c nonce client a p quiet after
  refused (trusted_hello v id token client) a p before quiet after =
      handle_trusted_hello_refused v id token a p quiet after
  refused (ping ts) a p before quiet after = ground arith
  refused (stream_request name b f k) a p before quiet after = ground arith
  refused (stream_stop id) a p before quiet after = ground arith
  refused (keyframe_request id) a p before quiet after = ground arith
  refused (mouse_move x y) a p before quiet after = ground arith
  refused (mouse_button b down) a p before quiet after = ground arith
  refused (mouse_scroll dx dy) a p before quiet after = ground arith
  refused (key_text text) a p before quiet after = ground arith
  refused (key_event vk down) a p before quiet after = ground arith
  refused (clipboard_set text) a p before quiet after = ground arith
  refused clipboard_get a p before quiet after = ground arith
  refused (file_transfer_begin id name size) a p before quiet after = ground arith
  refused (file_transfer_abort id why) a p before quiet after = ground arith
  refused (file_send_accepted id dest) a p before quiet after = ground arith
  refused (file_send_complete id dest) a p before quiet after = ground arith
  refused (file_send_failed id why) a p before quiet after = ground arith

  -- A handled message leaves an authenticated peer authenticated.
  was_locked :
      (msg : ClientMsg) (a : Answers) (p : Peer)
      → (handle_client_msg crypto json cfg msg a p).0.authenticated ≡ false
      → p.authenticated ≡ false
  was_locked msg a p after = elim (Bool-cases p.authenticated) [
    | inl e ↦ cc ((authenticated_iff crypto json cfg msg a p).1 (inl e))
    | inr e ↦ e
  ]

  by_dispatch :
      (msg : ClientMsg) (a : Answers) (s : Session) {d : Disk}
      → Locked d s
      → Locked d (record s { peer = (handle_client_msg crypto json cfg msg a s.peer).0 })
  by_dispatch msg a s locked after =
      let before = was_locked msg a s.peer after in
      let (quiet, sends, slot) = locked before in
      (refused msg a s.peer before quiet after, sends, slot)

  on_message-Locked :
      (msg : ClientMsg) (a : Answers) (io : IoOutcome) (s : Session) {d : Disk}
      → Locked d s
      → Locked d (on_message crypto json cfg msg a io s).0
  unfolding on_message on_begin on_accepted on_complete on_failed handle_file_abort get
  on_message-Locked (file_transfer_begin id name size) a io s locked =
      either s.peer.authenticated _ _ (λ e after. cc) (λ e. locked)
  on_message-Locked (file_transfer_abort id why) a io s locked =
      unchanged s (set_uploads s (handle_file_abort id io.removed s.peer.uploads)) refl
        (λ before. ap (set_uploads s) (abort_idle id io.removed s.peer.uploads (locked before).0.1))
        locked
  on_message-Locked (file_send_accepted id dest) a io s locked =
      unchanged s _ (ground arith) (λ before. accepted_idle id dest s (locked before).1) locked
  on_message-Locked (file_send_complete id dest) a io s locked =
      unchanged s _ (ground arith) (λ before. complete_idle id io s (locked before).1) locked
  on_message-Locked (file_send_failed id why) a io s locked =
      unchanged s _ (ground arith) (λ before. failed_idle id io s (locked before).1) locked
  on_message-Locked (hello v c nonce client) a io s locked =
      by_dispatch (hello v c nonce client) a s locked
  on_message-Locked (trusted_hello v id token client) a io s locked =
      by_dispatch (trusted_hello v id token client) a s locked
  on_message-Locked (ping ts) a io s locked = by_dispatch (ping ts) a s locked
  on_message-Locked (stream_request name b f k) a io s locked =
      by_dispatch (stream_request name b f k) a s locked
  on_message-Locked (stream_stop id) a io s locked = by_dispatch (stream_stop id) a s locked
  on_message-Locked (keyframe_request id) a io s locked =
      by_dispatch (keyframe_request id) a s locked
  on_message-Locked (mouse_move x y) a io s locked = by_dispatch (mouse_move x y) a s locked
  on_message-Locked (mouse_button b down) a io s locked =
      by_dispatch (mouse_button b down) a s locked
  on_message-Locked (mouse_scroll dx dy) a io s locked = by_dispatch (mouse_scroll dx dy) a s locked
  on_message-Locked (key_text text) a io s locked = by_dispatch (key_text text) a s locked
  on_message-Locked (key_event vk down) a io s locked = by_dispatch (key_event vk down) a s locked
  on_message-Locked (clipboard_set text) a io s locked = by_dispatch (clipboard_set text) a s locked
  on_message-Locked clipboard_get a io s locked = by_dispatch clipboard_get a s locked

  handle-Locked :
      (e : Event) (s : Session) {d : Disk}
      → FromPhone e
      → Locked d s
      → Locked d (handle crypto json cfg e s).0
  unfolding handle
  handle-Locked idle_timeout s phone locked = locked
  handle-Locked transport_gone s phone locked = locked
  handle-Locked unparsable s phone locked = locked
  handle-Locked close_frame s phone locked = locked
  handle-Locked other_frame s phone locked = locked
  handle-Locked worker_exited s phone locked =
      unchanged s _ (worker_exit_authenticated s) (λ before. worker_exit_idle s (locked before).0.2)
        locked
  handle-Locked (message m a io) s phone locked = on_message-Locked m a io s locked
  handle-Locked (binary bytes io) s phone locked =
      either s.peer.authenticated _ _
        (λ e after. let still = sym (binary_authenticated bytes io s) ∙ after in cc) (λ e. locked)
  handle-Locked (ping_frame p) s phone locked = locked
  handle-Locked (packet sent) s phone locked = locked
  handle-Locked (packet full) s phone locked = locked
  handle-Locked (packet closed) s phone locked = locked
  handle-Locked (command c io) s phone locked = absurd phone

  run_loop-Locked :
      (es : List Event) (s : Session) (d : Disk)
      → All FromPhone es
      → Locked d s
      → Locked d (run_loop crypto json cfg es s).0
  unfolding run_loop
  run_loop-Locked [] s d phone locked = locked
  run_loop-Locked (e ∷ es) s d phone locked =
      let next : Session = (handle crypto json cfg e s).0 in
      let done = handle-Locked e s phone.0 locked in
      by_flow-Locked (handle crypto json cfg e s).1 (run_loop crypto json cfg es (claim next))
        (run_loop crypto json cfg es next) next
        (run_loop-Locked es (claim next) d phone.1 (claim-Locked next done))
        (run_loop-Locked es next d phone.1 done) done

  -- Whatever events reach a session that has no upload, download, stream or slot yet, save commands
  -- of the PC's own HTTP server: if the phone is not authenticated at the end, the session has none of
  -- them still, and no file of the PC has changed.
  pub run_loop-Untouched :
      (es : List Event) (s : Session) (d : Disk)
      → All FromPhone es
      → Untouched d s.peer
      → s.sends ≡ []
      → s.registration ≡ none
      → (run_loop crypto json cfg es s).0.peer.authenticated ≡ false
      → Untouched d (run_loop crypto json cfg es s).0.peer
        × ((run_loop crypto json cfg es s).0.sends ≡ [])
        × ((run_loop crypto json cfg es s).0.registration ≡ none)
  run_loop-Untouched es s d phone quiet sends slot after =
      run_loop-Locked es s d phone (λ e. (quiet, sends, slot)) after
