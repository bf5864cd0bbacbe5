-- ===== src/Connection/Dispatch/Streams.antt =====
-- server-pc/src/connection.rs, `handle_client_msg`: the streams of a connection.
use remote_control.Base.{
  ℕ, ◌+◌, ◌≡◌, refl, inl, inr, true, List, [], ◌∷◌, ◌++◌, Option, none, some, arith, Option-cases,
  Bool-cases, All, length, subst, sym,
}
use remote_control.Config.{Config}
use remote_control.Connection.Dispatch.{
  handle_client_msg, guarded, handle_stream_request, start, drop_stream, handle_stream_stop,
  started, handle_keyframe_request, on_relay, relay_params, requested_codec,
}
use remote_control.Connection.Handshake.{
  in_versions, welcome_new, hello_result, handle_hello, trusted_result, handle_trusted_hello,
}
use remote_control.Connection.State.{Peer, Answers, send_error, tell}
use remote_control.Crypto.{Crypto}
use remote_control.Protocol.Messages.{
  ClientInfo, ClientMsg, hello, trusted_hello, ping, stream_request, stream_stop, keyframe_request,
  mouse_move, mouse_button, mouse_scroll, key_text, key_event, clipboard_set, clipboard_get,
  file_transfer_begin, file_transfer_abort, file_send_accepted, file_send_complete,
  file_send_failed, ServerMsg, stream_started, literal, stream_already_running, stream_stopped,
  client_requested,
}
use remote_control.Stream.{StreamHandle, StreamRequestParams, start_stream, stop, force_keyframe}
use remote_control.Pairing.{VerifyResult, ok, bad_code, expired, used}
use remote_control.Trusted.{Json, VerifyOutcome, accepted, bad_token}
use remote_control.Trusted.{unknown_device as no_such_device}

is_started : ServerMsg → ℕ
is_started (stream_started s) = 1
is_started _ = 0

-- The streams that a list of messages announced.
unfoldable pub announced : List ServerMsg → ℕ
unfolding is_started
announced [] = 0
announced (m ∷ ms) = is_started m + announced ms

abbrev pub running : Option StreamHandle → ℕ
running none = 0
running (some h) = 1

-- Every stream that was announced is the active one or was told to stop.
abbrev pub StreamsOk : Peer → Type 0
StreamsOk p =
    (announced p.outbox ≡ length p.stopped + running p.active_stream)
    × All (λ h. h.stop_flag ≡ true) p.stopped

announced-snoc :
    (ms : List ServerMsg) (m : ServerMsg) → announced (ms ++ (m ∷ [])) ≡ announced ms + is_started m
unfolding announced
announced-snoc [] m = omega arith
announced-snoc (x ∷ ms) m = omega (arith, announced-snoc ms m)

-- A message that announces nothing.
tell-StreamsOk : (p : Peer) (m : ServerMsg) → is_started m ≡ 0 → StreamsOk p → StreamsOk (tell p m)
tell-StreamsOk p m quiet (n, s) = (omega (arith, announced-snoc p.outbox m), s)

-- The count, at a known active stream.
announced_at :
    (p : Peer) (o : Option StreamHandle)
    → p.active_stream ≡ o
    → StreamsOk p
    → announced p.outbox ≡ length p.stopped + running o
announced_at p o e (n, s) = subst (λ x. announced p.outbox ≡ length p.stopped + running x) e n

start-StreamsOk :
    (params : StreamRequestParams) (a : Answers) (p : Peer)
    → p.active_stream ≡ none
    → StreamsOk p
    → StreamsOk (start params a p)
unfolding start is_started
start-StreamsOk params a p e good = elim (Option-cases (start_stream params a.stream)) [
  | inl f ↦ rw (f, start) (tell-StreamsOk p _ refl good)
  | inr (h, f) ↦
      let added = announced-snoc p.outbox (stream_started (started h)) in
      let before = announced_at p none e good in rw (f, start) (omega arith, good.1)
]

request-StreamsOk :
    (name : List ℕ) (b f k : Option ℕ) (a : Answers) (p : Peer)
    → StreamsOk p
    → StreamsOk (handle_stream_request name b f k a p)
unfolding handle_stream_request is_started
request-StreamsOk name b f k a p good = elim (Option-cases (requested_codec name)) [
  | inl e ↦ rw (e, handle_stream_request) (tell-StreamsOk p _ refl good)
  | inr (c, e) ↦ elim (Option-cases p.active_stream) [
    | inl g ↦
        rw (e, handle_stream_request)
          (subst
            (λ x. StreamsOk (elim x [
              | some handle ↦
                  send_error p stream_already_running (literal "stop the current stream first")
              | none ↦ start (relay_params (on_relay p.label) c b f k) a p
            ]))
            (sym g) (start-StreamsOk (relay_params (on_relay p.label) c b f k) a p g good))
    | inr (h, g) ↦
        rw (e, handle_stream_request)
          (subst
            (λ x. StreamsOk (elim x [
              | some handle ↦
                  send_error p stream_already_running (literal "stop the current stream first")
              | none ↦ start (relay_params (on_relay p.label) c b f k) a p
            ]))
            (sym g) (tell-StreamsOk p _ refl good))
  ]
]

drop_active :
    (p : Peer) (h : StreamHandle)
    → p.active_stream ≡ some h
    → drop_stream p ≡ record p { active_stream = none; stopped = stop h ∷ p.stopped }
unfolding drop_stream
drop_active p h g = rw (g, drop_stream) refl

stop-StreamsOk : (p : Peer) → StreamsOk p → StreamsOk (handle_stream_stop p)
unfolding handle_stream_stop drop_stream stop is_started
stop-StreamsOk p good = elim (Option-cases p.active_stream) [
  | inl g ↦ rw (g, handle_stream_stop) good
  | inr (h, g) ↦
      let added =
        announced-snoc p.outbox (stream_stopped h.stream_id client_requested (literal "")) in
      let before = announced_at p (some h) g good in
      rw (g, handle_stream_stop) (rw (drop_active p h g) (omega arith, (refl, good.1)))
]

keyframe-StreamsOk : (p : Peer) → StreamsOk p → StreamsOk (handle_keyframe_request p)
unfolding handle_keyframe_request force_keyframe
keyframe-StreamsOk p good = elim (Option-cases p.active_stream) [
  | inl g ↦ rw (g, handle_keyframe_request) good
  | inr (h, g) ↦ rw (g, handle_keyframe_request) (announced_at p (some h) g good, good.1)
]

module _ (crypto : Crypto) (json : Json) (cfg : Config) where
  hello-StreamsOk :
      (r : VerifyResult) (nonce : List ℕ) (client : ClientInfo) (a : Answers) (p : Peer)
      → StreamsOk p
      → StreamsOk (hello_result crypto json cfg r nonce client a p).0
  unfolding hello_result welcome_new is_started
  hello-StreamsOk ok nonce client a p good = elim (Option-cases (crypto.base64_decode nonce)) [
    | inl e ↦ rw (e, hello_result) (tell-StreamsOk p _ refl good)
    | inr (b, e) ↦ rw (e, hello_result) (tell-StreamsOk p _ refl good)
  ]
  hello-StreamsOk bad_code nonce client a p good = tell-StreamsOk p _ refl good
  hello-StreamsOk expired nonce client a p good = tell-StreamsOk p _ refl good
  hello-StreamsOk used nonce client a p good = tell-StreamsOk p _ refl good

  handle_hello-StreamsOk :
      (v : ℕ) (c nonce : List ℕ) (client : ClientInfo) (a : Answers) (p : Peer)
      → StreamsOk p
      → StreamsOk (handle_hello crypto json cfg v c nonce client a p).0
  unfolding handle_hello is_started
  handle_hello-StreamsOk v c nonce client a p good = elim (Bool-cases (in_versions v)) [
    | inl e ↦ rw (e, handle_hello) (hello-StreamsOk _ nonce client a _ good)
    | inr e ↦ rw (e, handle_hello) (tell-StreamsOk p _ refl good)
  ]

  trusted-StreamsOk :
      (r : VerifyOutcome) (a : Answers) (p : Peer)
      → StreamsOk p
      → StreamsOk (trusted_result crypto json cfg r a p).0
  unfolding trusted_result is_started
  trusted-StreamsOk (accepted name) a p good = tell-StreamsOk p _ refl good
  trusted-StreamsOk no_such_device a p good = tell-StreamsOk p _ refl good
  trusted-StreamsOk bad_token a p good = tell-StreamsOk p _ refl good

  handle_trusted_hello-StreamsOk :
      (v : ℕ) (id token : List ℕ) (a : Answers) (p : Peer)
      → StreamsOk p
      → StreamsOk (handle_trusted_hello crypto json cfg v id token a p).0
  unfolding handle_trusted_hello is_started
  handle_trusted_hello-StreamsOk v id token a p good = elim (Bool-cases (in_versions v)) [
    | inl e ↦ rw (e, handle_trusted_hello) (trusted-StreamsOk _ a _ good)
    | inr e ↦ rw (e, handle_trusted_hello) (tell-StreamsOk p _ refl good)
  ]

  guarded-StreamsOk : (p q : Peer) → StreamsOk p → StreamsOk q → StreamsOk (guarded p q).0
  unfolding guarded is_started
  guarded-StreamsOk p q good done = elim (Bool-cases p.authenticated) [
    | inl e ↦ rw (e, guarded) done
    | inr e ↦ rw (e, guarded) (tell-StreamsOk p _ refl good)
  ]

  -- Every message keeps the account of the streams: those announced to the phone are as many as those
  -- told to stop and the active one, so no stream is left running behind a second one, and each
  -- stream put aside has its stop flag set.
  pub handle_client_msg-StreamsOk :
      (msg : ClientMsg) (a : Answers) (p : Peer)
      → StreamsOk p
      → StreamsOk (handle_client_msg crypto json cfg msg a p).0
  unfolding handle_client_msg is_started
  handle_client_msg-StreamsOk (hello v c nonce client) a p good =
      handle_hello-StreamsOk v c nonce client a p good
  handle_client_msg-StreamsOk (trusted_hello v id token client) a p good =
      handle_trusted_hello-StreamsOk v id token a p good
  handle_client_msg-StreamsOk (ping ts) a p good =
      guarded-StreamsOk p _ good (tell-StreamsOk p _ refl good)
  handle_client_msg-StreamsOk (stream_request name b f k) a p good =
      guarded-StreamsOk p _ good (request-StreamsOk name b f k a p good)
  handle_client_msg-StreamsOk (stream_stop id) a p good = stop-StreamsOk p good
  handle_client_msg-StreamsOk (keyframe_request id) a p good = keyframe-StreamsOk p good
  handle_client_msg-StreamsOk (mouse_move x y) a p good = good
  handle_client_msg-StreamsOk (mouse_button b down) a p good = good
  handle_client_msg-StreamsOk (mouse_scroll dx dy) a p good = good
  handle_client_msg-StreamsOk (key_text text) a p good = good
  handle_client_msg-StreamsOk (key_event vk down) a p good = good
  handle_client_msg-StreamsOk (clipboard_set text) a p good = good
  handle_client_msg-StreamsOk clipboard_get a p good = tell-StreamsOk p _ refl good
  handle_client_msg-StreamsOk (file_transfer_begin id name size) a p good = good
  handle_client_msg-StreamsOk (file_transfer_abort id why) a p good = good
  handle_client_msg-StreamsOk (file_send_accepted id dest) a p good = good
  handle_client_msg-StreamsOk (file_send_complete id dest) a p good = good
  handle_client_msg-StreamsOk (file_send_failed id why) a p good = good
