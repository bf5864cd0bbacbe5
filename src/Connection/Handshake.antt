-- ===== src/Connection/Handshake.antt =====
-- server-pc/src/connection.rs, `handle_client_msg`: the two handshakes.
use mathlib.Core.Option
use remote_control.Base.{ℕ, Bool, true, false, List, [], none, some, ◌&&◌, leb, if◌then◌else◌}
use remote_control.Config.{Config, protocol_version, min_supported_version}
use remote_control.Connection.State.{Peer, Answers, tell, send_error, set_disk}
use remote_control.Crypto.{Crypto}
use remote_control.Hex.{hex_encode}
use remote_control.Pairing.{VerifyResult, ok, bad_code, expired, used, verify_and_consume}
use remote_control.Protocol.Messages.{
  ClientInfo, welcome, ErrorCode, version_mismatch, malformed, bad_pairing_code, code_expired,
  code_used, unknown_device, bad_trust_token, Reason, literal, version,
}
use remote_control.Trusted.{Json, mint, verify, VerifyOutcome, accepted, bad_token}
use remote_control.Trusted.{unknown_device as no_such_device}

-- The peer after a message, and whether the connection goes on.
abbrev pub Handled : Type 0
Handled = Peer × Bool

abbrev pub refuse : Peer → ErrorCode → Reason → Handled
refuse p code why = (send_error p code why, false)

unfoldable pub in_versions : ℕ → Bool
in_versions v = leb min_supported_version v && leb v protocol_version

module _ (crypto : Crypto) (json : Json) (cfg : Config) where
  -- The code was right: mint a trust token, answer the challenge and let the peer in. A mint that
  -- fails only leaves the token out.
  unfoldable pub welcome_new : List ℕ → ClientInfo → Answers → Peer → Peer
  welcome_new nonce_bytes client a p =
      let minted = mint crypto json p.trusted p.disk client.name a.mint_draws a.saved in
      let key = p.pairing.key in
      tell (record (set_disk p minted.1) { authenticated = true; trusted = minted.0 })
        (welcome (record {
          session = a.session;
          server = record { name = cfg.server_name; os = cfg.os };
          hmac = hex_encode (crypto.hmac_sha256 key nonce_bytes);
          trust_token = Option.map (λ m. m.1) minted.2;
          device_id = Option.map (λ m. m.0) minted.2;
        }))

  unfoldable pub hello_result : VerifyResult → List ℕ → ClientInfo → Answers → Peer → Handled
  hello_result ok nonce client a p = elim (crypto.base64_decode nonce) [
    | none ↦ refuse p malformed (literal "nonce not base64url")
    | some nonce_bytes ↦ (welcome_new nonce_bytes client a p, true)
  ]
  hello_result bad_code nonce client a p = refuse p bad_pairing_code (literal "wrong code")
  hello_result expired nonce client a p = refuse p code_expired (literal "code expired")
  hello_result used nonce client a p = refuse p code_used (literal "code already used")

  unfoldable pub handle_hello : ℕ → List ℕ → List ℕ → ClientInfo → Answers → Peer → Handled
  handle_hello v c nonce client a p =
      let (pairing, result) = verify_and_consume p.pairing a.now_ns c in
      if in_versions v
      then hello_result result nonce client a (record p { pairing = pairing })
      else refuse p version_mismatch (version v)

  unfoldable pub trusted_result : VerifyOutcome → Answers → Peer → Handled
  trusted_result (accepted device_name) a p = (
    tell (record p { authenticated = true })
        (welcome (record {
          session = a.session;
          server = record { name = cfg.server_name; os = cfg.os };
          hmac = [];
          trust_token = none;
          device_id = none;
        })),
    true,
  )
  trusted_result no_such_device a p =
      refuse p unknown_device (literal "device not trusted; please re-pair via QR")
  trusted_result bad_token a p = refuse p bad_trust_token (literal "trust token mismatch")

  unfoldable pub handle_trusted_hello : ℕ → List ℕ → List ℕ → Answers → Peer → Handled
  handle_trusted_hello v device_id token a p =
      let (trusted, disk, result) =
        verify crypto json p.trusted p.disk device_id token a.now_ms a.saved in
      if in_versions v
      then trusted_result result a (set_disk (record p { trusted = trusted }) disk)
      else refuse p version_mismatch (version v)
