-- ===== src/Connection/Dispatch/Access.antt =====
-- server-pc/src/connection.rs, `handle_client_msg`: who gets in, and what is refused before that.
use remote_control.Base.{
  ℕ, ◌-◌, ◌*◌, ◌^◌, ◌≤◌, ◌≡◌, refl, ◌≢◌, ◌↔◌, ◌⊎◌, inl, inr, true, false, List, Option, none, some,
  arith, Option-cases, Bool-cases, list_eq,
}
use remote_control.Base.Text.{as_bytes}
use remote_control.Config.{Config}
use remote_control.Connection.Dispatch.{
  handle_client_msg, guarded, handle_stream_request, start, drop_stream, handle_stream_stop,
  handle_keyframe_request,
}
use remote_control.Connection.Handshake.{
  in_versions, welcome_new, hello_result, handle_hello, trusted_result, handle_trusted_hello,
}
use remote_control.Connection.State.{Peer, Answers, set_disk}
use remote_control.Crypto.{Crypto}
use remote_control.Pairing.{verify_and_consume, VerifyResult, ok, bad_code, expired, used}
use remote_control.Pairing.Once.{verify_and_consume_outcome}
use remote_control.Protocol.Messages.{
  ClientInfo, ClientMsg, hello, trusted_hello, ping, stream_request, stream_stop, keyframe_request,
  mouse_move, mouse_button, mouse_scroll, key_text, key_event, clipboard_set, clipboard_get,
  file_transfer_begin, file_transfer_abort, file_send_accepted, file_send_complete,
  file_send_failed,
}
use remote_control.Trusted.{
  TrustedDevice, Json, find_device, sha256_hex, verify, VerifyOutcome, accepted, bad_token,
}
use remote_control.Trusted.{unknown_device as no_such_device}
use remote_control.Trusted.Verify.{verify_outcome}

-- What a message has to bring to be let in.
abbrev pub Presents : Crypto → ClientMsg → Answers → Peer → Type 0
Presents crypto (hello v c nonce client) a p =
    (in_versions v ≡ true)
    × (p.pairing.consumed ≡ false)
    × (a.now_ns - p.pairing.created ≤ 300 * 10 ^ 9)
    × (p.pairing.code ≡ c)
    × ((bytes : List ℕ) × (crypto.base64_decode nonce ≡ some bytes))
Presents crypto (trusted_hello v id token client) a p =
    (in_versions v ≡ true)
    × ((dev : TrustedDevice) × (find_device id p.trusted.inner.devices ≡ some dev)
        × (dev.token_hash ≡ sha256_hex crypto (as_bytes token)))
Presents crypto _ a p = ⊥

some_ne_none {ℓ} : {A : Type ℓ} {x : A} → none ≢ some x
some_ne_none e = cc

false_ne_true : false ≢ true
false_ne_true e = cc

module _ (crypto : Crypto) (json : Json) (cfg : Config) where
  hello_result_authenticated :
      (r : VerifyResult) (nonce : List ℕ) (client : ClientInfo) (a : Answers) (p : Peer)
      → ((hello_result crypto json cfg r nonce client a p).0.authenticated ≡ true) ↔ (
          (p.authenticated ≡ true)
          ⊎ ((r ≡ ok) × ((bytes : List ℕ) × (crypto.base64_decode nonce ≡ some bytes))))
  unfolding hello_result welcome_new
  hello_result_authenticated ok nonce client a p =
      elim (Option-cases (crypto.base64_decode nonce)) [
        | inl e ↦
            rw (e, hello_result)
              (inl, λ h. elim h [ inl h ↦ h | inr (r, (b, f)) ↦ absurd (some_ne_none f) ])
        | inr (b, e) ↦ rw (e, hello_result, welcome_new) (λ h. inr (refl, (b, refl)), λ h. refl)
      ]
  hello_result_authenticated bad_code nonce client a p = ground arith
  hello_result_authenticated expired nonce client a p = ground arith
  hello_result_authenticated used nonce client a p = ground arith

  trusted_result_authenticated :
      (r : VerifyOutcome) (a : Answers) (p : Peer)
      → ((trusted_result crypto json cfg r a p).0.authenticated ≡ true)
        ↔ ((p.authenticated ≡ true) ⊎ ((name : List ℕ) × (r ≡ accepted name)))
  unfolding trusted_result
  trusted_result_authenticated (accepted name) a p = (λ h. inr (name, refl), λ h. refl)
  trusted_result_authenticated no_such_device a p = ground arith
  trusted_result_authenticated bad_token a p = ground arith

  handle_hello_authenticated :
      (v : ℕ) (c nonce : List ℕ) (client : ClientInfo) (a : Answers) (p : Peer)
      → ((handle_hello crypto json cfg v c nonce client a p).0.authenticated ≡ true)
        ↔ ((p.authenticated ≡ true) ⊎ Presents crypto (hello v c nonce client) a p)
  unfolding handle_hello
  handle_hello_authenticated v c nonce client a p =
      let r = verify_and_consume p.pairing a.now_ns c in
      let (to, from) = hello_result_authenticated r.1 nonce client a (record p { pairing = r.0 }) in
      let (accept, back) = (verify_and_consume_outcome p.pairing a.now_ns c).0 in
      elim (Bool-cases (in_versions v)) [
        | inl e ↦
            rw (e, handle_hello)
              (
                λ h. elim (to h) [
                  | inl q ↦ inl q
                  | inr (q, b) ↦ let (n, t, k) = accept q in inr (refl, n, t, k, b)
                ],
                λ h.
                    from (elim h [ inl q ↦ inl q | inr (i, n, t, k, b) ↦ inr (back (n, t, k), b) ]),
              )
        | inr e ↦
            rw (e, handle_hello)
              (inl, λ h. elim h [ inl h ↦ h | inr r ↦ absurd (false_ne_true r.0) ])
      ]

  stream_request_authenticated :
      (name : List ℕ) (b f k : Option ℕ) (a : Answers) (p : Peer)
      → (handle_stream_request name b f k a p).authenticated ≡ p.authenticated
  unfolding handle_stream_request start
  stream_request_authenticated name b f k a p = ground arith

  known_device :
      (p : Peer) (a : Answers) (id token name : List ℕ)
      → (verify crypto json p.trusted p.disk id token a.now_ms a.saved).2 ≡ accepted name
      → (dev : TrustedDevice) × (find_device id p.trusted.inner.devices ≡ some dev)
        × (dev.token_hash ≡ sha256_hex crypto (as_bytes token))
  known_device p a id token name q =
      elim (verify_outcome crypto json p.trusted p.disk id token a.now_ms a.saved) [
        | inl (e, r) ↦ absurd (cc)
        | inr (inl (dev, e, h, r)) ↦ (dev, e, h)
        | inr (inr (dev, e, h, r)) ↦ absurd (cc)
      ]

  let_in :
      (p : Peer) (a : Answers) (id token : List ℕ) (dev : TrustedDevice)
      → find_device id p.trusted.inner.devices ≡ some dev
      → dev.token_hash ≡ sha256_hex crypto (as_bytes token)
      → (name : List ℕ) × ((verify crypto json p.trusted p.disk id token a.now_ms a.saved).2
          ≡ accepted name)
  let_in p a id token dev f g =
      elim (verify_outcome crypto json p.trusted p.disk id token a.now_ms a.saved) [
        | inl (e, r) ↦ absurd (cc)
        | inr (inl (dev', e, h, r)) ↦ (dev'.device_name, r)
        | inr (inr (dev', e, h, r)) ↦ absurd (h (cc))
      ]

  handle_trusted_hello_authenticated :
      (v : ℕ) (id token : List ℕ) (client : ClientInfo) (a : Answers) (p : Peer)
      → ((handle_trusted_hello crypto json cfg v id token a p).0.authenticated ≡ true)
        ↔ ((p.authenticated ≡ true) ⊎ Presents crypto (trusted_hello v id token client) a p)
  unfolding handle_trusted_hello
  handle_trusted_hello_authenticated v id token client a p =
      let r = verify crypto json p.trusted p.disk id token a.now_ms a.saved in
      let (to, from) =
        trusted_result_authenticated r.2 a (set_disk (record p { trusted = r.0 }) r.1) in
      elim (Bool-cases (in_versions v)) [
        | inr e ↦
            rw (e, handle_trusted_hello)
              (inl, λ h. elim h [ inl h ↦ h | inr r ↦ absurd (false_ne_true r.0) ])
        | inl e ↦
            rw (e, handle_trusted_hello)
              (
                λ h. elim (to h) [
                  | inl q ↦ inl q
                  | inr (name, q) ↦ inr (refl, known_device p a id token name q)
                ],
                λ h. from (elim h [
                  | inl q ↦ inl q
                  | inr (i, (dev, f, g)) ↦ inr (let_in p a id token dev f g)
                ]),
              )
      ]

  -- A message leaves the connection authenticated exactly if it was so before, or if the message is a
  -- `hello` of a supported version with the current, unused code within 300 s and a nonce that
  -- decodes, or a `trusted_hello` of a supported version whose device is on file with the hash of the
  -- token it brings.
  pub authenticated_iff :
      (msg : ClientMsg) (a : Answers) (p : Peer)
      → ((handle_client_msg crypto json cfg msg a p).0.authenticated ≡ true)
        ↔ ((p.authenticated ≡ true) ⊎ Presents crypto msg a p)
  unfolding handle_client_msg guarded handle_stream_stop drop_stream handle_keyframe_request
      handle_stream_request start
  authenticated_iff (hello v c nonce client) a p = handle_hello_authenticated v c nonce client a p
  authenticated_iff (trusted_hello v id token client) a p =
      handle_trusted_hello_authenticated v id token client a p
  authenticated_iff (ping ts) a p = ground arith
  authenticated_iff (stream_request name b f k) a p = ground arith
  authenticated_iff (stream_stop id) a p = ground arith
  authenticated_iff (keyframe_request id) a p = ground arith
  authenticated_iff (mouse_move x y) a p = ground arith
  authenticated_iff (mouse_button b down) a p = ground arith
  authenticated_iff (mouse_scroll dx dy) a p = ground arith
  authenticated_iff (key_text text) a p = ground arith
  authenticated_iff (key_event vk down) a p = ground arith
  authenticated_iff (clipboard_set text) a p = ground arith
  authenticated_iff clipboard_get a p = ground arith
  authenticated_iff (file_transfer_begin id name size) a p = ground arith
  authenticated_iff (file_transfer_abort id why) a p = ground arith
  authenticated_iff (file_send_accepted id dest) a p = ground arith
  authenticated_iff (file_send_complete id dest) a p = ground arith
  authenticated_iff (file_send_failed id why) a p = ground arith
