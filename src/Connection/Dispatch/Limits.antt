-- ===== src/Connection/Dispatch/Limits.antt =====
-- server-pc/src/connection.rs, `handle_client_msg`: what an unauthenticated peer can and cannot do, and
-- the budget of the relay.
use remote_control.Base.{
  some_injective, ℕ, ◌*◌, ◌≤◌, ◌≡◌, ◌≢◌, inl, inr, true, List, [], ◌∷◌, ◌++◌, append-nil, Option,
  none, some, arith, Option-cases, Bool-cases, sym, ap, ◌∙◌, max,
}
use remote_control.Config.{Config}
use remote_control.Connection.Dispatch.{
  handle_client_msg, guarded, handle_stream_request, start, on_relay, relay_params, requested_codec,
  handle_stream_stop, drop_stream, handle_keyframe_request,
}
use remote_control.Connection.Handshake.{
  handle_hello, handle_trusted_hello, hello_result, trusted_result, welcome_new,
}
use remote_control.Connection.State.{
  Peer, Answers, InputCall, move_to, button, scroll, type_unicode, vkey, write_text,
}
use remote_control.Crypto.{Crypto}
use remote_control.Protocol.Messages.{
  ClientMsg, hello, trusted_hello, ping, stream_request, stream_stop, keyframe_request,
  clipboard_get, file_transfer_begin, file_transfer_abort, file_send_accepted, file_send_complete,
  file_send_failed, mouse_move, mouse_button, mouse_scroll, key_text, key_event, clipboard_set,
}
use remote_control.Stream.{
  StreamHandle, StreamAnswers, StreamRequestParams, RequestedCodec, start_stream, encoder_config,
  clamp, unwrap_or, capture_retry, attempts, choose_encoder, threads_start,
}
use remote_control.Trusted.{Json}

-- The calls on the desktop that a message asks for.
unfoldable pub desktop_calls : ClientMsg → List InputCall
desktop_calls (mouse_move x y) = move_to x y ∷ []
desktop_calls (mouse_button b down) = button b down ∷ []
desktop_calls (mouse_scroll dx dy) = scroll dx dy ∷ []
desktop_calls (key_text text) = type_unicode text ∷ []
desktop_calls (key_event vk down) = vkey vk down ∷ []
desktop_calls (clipboard_set text) = write_text text ∷ []
desktop_calls _ = []

module _ (crypto : Crypto) (json : Json) (cfg : Config) where
  -- The calls on the desktop that a message leads to are exactly the one that it asks for, whether or
  -- not the peer is authenticated: mouse, keyboard and clipboard writes are done for every peer, and
  -- no other message acts on the desktop.
  pub inputs-handle_client_msg :
      (msg : ClientMsg) (a : Answers) (p : Peer)
      → (handle_client_msg crypto json cfg msg a p).0.inputs ≡ p.inputs ++ desktop_calls msg
  unfolding handle_client_msg guarded handle_stream_request start handle_stream_stop drop_stream
      handle_keyframe_request handle_hello handle_trusted_hello hello_result trusted_result
      welcome_new desktop_calls
  inputs-handle_client_msg (hello v c nonce client) a p = ground (arith, append-nil p.inputs)
  inputs-handle_client_msg (trusted_hello v id token client) a p =
      ground (arith, append-nil p.inputs)
  inputs-handle_client_msg (ping ts) a p = ground (arith, append-nil p.inputs)
  inputs-handle_client_msg (stream_request name b f k) a p = ground (arith, append-nil p.inputs)
  inputs-handle_client_msg (stream_stop id) a p = ground (arith, append-nil p.inputs)
  inputs-handle_client_msg (keyframe_request id) a p = ground (arith, append-nil p.inputs)
  inputs-handle_client_msg (mouse_move x y) a p = ground arith
  inputs-handle_client_msg (mouse_button b down) a p = ground arith
  inputs-handle_client_msg (mouse_scroll dx dy) a p = ground arith
  inputs-handle_client_msg (key_text text) a p = ground arith
  inputs-handle_client_msg (key_event vk down) a p = ground arith
  inputs-handle_client_msg (clipboard_set text) a p = ground arith
  inputs-handle_client_msg clipboard_get a p = ground (arith, append-nil p.inputs)
  inputs-handle_client_msg (file_transfer_begin id name size) a p =
      ground (arith, append-nil p.inputs)
  inputs-handle_client_msg (file_transfer_abort id why) a p = ground (arith, append-nil p.inputs)
  inputs-handle_client_msg (file_send_accepted id dest) a p = ground (arith, append-nil p.inputs)
  inputs-handle_client_msg (file_send_complete id dest) a p = ground (arith, append-nil p.inputs)
  inputs-handle_client_msg (file_send_failed id why) a p = ground (arith, append-nil p.inputs)

some_ne_none {ℓ} : {A : Type ℓ} {x : A} → none ≢ some x
some_ne_none e = cc

relay_config :
    (c : RequestedCodec) (b f k : Option ℕ) (w l : ℕ)
    → let cfg = encoder_config (relay_params true c b f k) w l in
      (cfg.bitrate_kbps ≤ 3000) × (2 * cfg.fps ≤ cfg.keyframe_interval_frames)
unfolding encoder_config relay_params
relay_config c b f k w l =
    let fps : ℕ = clamp (unwrap_or f 60) 15 60 in
    let interval : ℕ = clamp (max (unwrap_or k 1000) 2000) 200 10000 in
    let long : 2000 ≤ interval = ground arith in
    let product : 2000 * fps ≤ interval * fps = grind arith in (ground arith, omega arith)

-- What a stream that has started was made from.
start_stream-config :
    (req : StreamRequestParams) (a : StreamAnswers) (h : StreamHandle)
    → start_stream req a ≡ some h
    → (w : ℕ) × (l : ℕ) × (h.bitrate_kbps ≡ (encoder_config req w l).bitrate_kbps)
      × (h.fps ≡ (encoder_config req w l).fps)
      × (h.keyframe_interval_frames ≡ (encoder_config req w l).keyframe_interval_frames)
unfolding start_stream
start_stream-config req a h e = elim (Option-cases (capture_retry attempts a.captures)) [
  | inl f ↦ absurd (some_ne_none (rw (f, start_stream) at e))
  | inr ((w, l), f) ↦ elim (Option-cases (choose_encoder req.codec a.backends)) [
    | inl g ↦ absurd (some_ne_none (rw (f, g, start_stream) at e))
    | inr (enc, g) ↦ elim (Bool-cases (threads_start a)) [
      | inr n ↦ absurd (some_ne_none (rw (f, g, n, start_stream) at e))
      | inl y ↦
          let made = some_injective (rw (f, g, y, start_stream) at e) in
          (
            w,
            l,
            sym (ap (λ x. x.bitrate_kbps) made),
            sym (ap (λ x. x.fps) made),
            sym (ap (λ x. x.keyframe_interval_frames) made),
          )
    ]
  ]
]

start_active :
    (params : StreamRequestParams) (a : Answers) (p : Peer) (h : StreamHandle)
    → p.active_stream ≡ none
    → (start params a p).active_stream ≡ some h
    → start_stream params a.stream ≡ some h
unfolding start
start_active params a p h idle e = elim (Option-cases (start_stream params a.stream)) [
  | inl f ↦ absurd (some_ne_none (sym idle ∙ (rw (f, start) at e)))
  | inr (h', f) ↦ f ∙ (rw (f, start) at e)
]

started_from :
    (name : List ℕ) (b f k : Option ℕ) (a : Answers) (p : Peer) (h : StreamHandle)
    → p.active_stream ≡ none
    → (handle_stream_request name b f k a p).active_stream ≡ some h
    → (c : RequestedCodec) × (start_stream (relay_params (on_relay p.label) c b f k) a.stream
        ≡ some h)
unfolding handle_stream_request start
started_from name b f k a p h idle e = elim (Option-cases (requested_codec name)) [
  | inl g ↦ absurd (some_ne_none (sym idle ∙ (rw (g, handle_stream_request) at e)))
  | inr (c, g) ↦
      let params = relay_params (on_relay p.label) c b f k in
      let begun : (start params a p).active_stream ≡ some h =
        rw (g, idle, handle_stream_request) at e in
      (c, start_active params a p h idle begun)
]

pub relay_budget :
    (name : List ℕ) (b f k : Option ℕ) (a : Answers) (p : Peer) (h : StreamHandle)
    → on_relay p.label ≡ true
    → p.active_stream ≡ none
    → (handle_stream_request name b f k a p).active_stream ≡ some h
    → (h.bitrate_kbps ≤ 3000) × (2 * h.fps ≤ h.keyframe_interval_frames)
unfolding handle_stream_request start
relay_budget name b f k a p h r idle e =
    let (c, s) = started_from name b f k a p h idle e in
    let (w, l, x, y, z) = start_stream-config _ a.stream h s in
    let bounds = relay_config c b f k w l in
    let on = ap (λ t. encoder_config (relay_params t c b f k) w l) r in
    let rate = x ∙ ap (λ t. t.bitrate_kbps) on in
    let fps = y ∙ ap (λ t. t.fps) on in
    let frames = z ∙ ap (λ t. t.keyframe_interval_frames) on in omega arith
