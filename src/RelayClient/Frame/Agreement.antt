-- ===== src/RelayClient/Frame/Agreement.antt =====
-- The tunnel frames of server-pc/src/relay_client.rs and those of relay/src/main.rs are two copies
-- of one format: both encoders write the same bytes, and both decoders read them alike.
use mathlib.Core.Option
use remote_control.Base.{ℕ, ◌≡◌, refl, true, List, length, arith, some, take, drop, get_or, nat_eq}
use remote_control.Base.Utf8.{is_utf8, from_utf8}
use remote_control.Relay.Frame.{
  TunnelFrame as RelayFrame, client_open as relay_open, client_close as relay_close,
  data_frame as relay_data, encode as relay_encode, decode as relay_decode,
  decode_type as relay_decode_type, push_uuid as relay_push_uuid,
}
use remote_control.Relay.Frame.Shape.{client_of}
use remote_control.Relay.Frame.RoundTrip.{decode-encode}
use remote_control.RelayClient.Frame.{
  TunnelFrame, client_open, client_close, data_frame, encode, decode, decode_type, push_uuid,
}

-- The PC's name for a frame of the relay.
abbrev pub to_pc : RelayFrame → TunnelFrame
to_pc (relay_open c) = client_open c
to_pc (relay_close c) = client_close c
to_pc (relay_data c t p) = data_frame c t p

push_uuid_agrees : (buf uuid : List ℕ) → push_uuid buf uuid ≡ relay_push_uuid buf uuid
unfolding push_uuid relay_push_uuid
push_uuid_agrees buf uuid = refl

pub encode_agrees : (f : RelayFrame) → encode (to_pc f) ≡ relay_encode f
unfolding encode relay_encode
encode_agrees (relay_open c) = rw push_uuid_agrees
encode_agrees (relay_close c) = rw push_uuid_agrees
encode_agrees (relay_data c t p) = rw push_uuid_agrees

decode_type_agrees :
    (t : ℕ) (u : List ℕ) (flag : ℕ) (p : List ℕ)
    → decode_type t u flag p ≡ Option.map to_pc (relay_decode_type t u flag p)
unfolding decode_type relay_decode_type
decode_type_agrees t u flag p = ground arith

-- On all bytes the PC decodes what the relay decodes, and rejects what the relay rejects.
pub decode_agrees : (bytes : List ℕ) → decode bytes ≡ Option.map to_pc (relay_decode bytes)
unfolding decode relay_decode from_utf8
decode_agrees bytes = ground (
  arith,
  decode_type_agrees (get_or bytes 0 0) (take 36 (drop 1 bytes)) (get_or bytes 37 0)
      (drop 38 bytes),
)

-- The PC decodes every frame that the relay encodes for a UUID to that frame, and the relay every
-- frame that the PC encodes.
pub tunnel_crosses :
    (f : RelayFrame)
    → length (client_of f) ≡ 36
    → is_utf8 (client_of f) ≡ true
    → (decode (relay_encode f) ≡ some (to_pc f)) × (relay_decode (encode (to_pc f)) ≡ some f)
tunnel_crosses f h v = (
  rw (decode_agrees (relay_encode f), decode-encode f h v),
  rw (encode_agrees f) (decode-encode f h v),
)
